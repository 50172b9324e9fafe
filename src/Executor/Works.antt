-- ===== src/Executor/Works.antt =====
-- Futures that bring themselves nearer to their end in every poll, and what a poll of src/lib.rs and
-- src/futures/futures_unordered.rs makes of a `Cosync` with such tasks: they stay queued, and the
-- thread that runs them is told to go on.
use cosync.Base.{
  inl, inr, subst, Bool-cases, Option-cases, arith, ℕ, ◌≤◌, ◌<◌, ◌≡◌, ◌⊎◌, Bool, true, false, ◌||◌,
  Option, none, some, List, [], ◌∷◌, ◌++◌, Ptr, is_some, ◌==◌, leb,
}
use cosync.Executor.{
  World, Script, Body, user, empty_block, FutureObject, ready, pending, panics, waker, wake, get,
  put, queue, unqueue, remove_id,
}
use cosync.Executor.Wakeful.{WakesSelf}

-- Which tasks are excepted: none, or one.
abbrev pub every : Ptr → Bool
every s = false

abbrev pub other_than : Ptr → Ptr → Bool
other_than t s = s == t

module _ {Fut : Type 0} (measure : Fut → ℕ) where
  -- A future of measure `m` does not panic. If it is pending, it has woken its task and its measure
  -- is smaller. The measure of what it queues is smaller, too.
  abbrev pub Works : {D : Type 0} → Ptr → Bool → ℕ → Script Fut D → Type 0
  Works t woken m ready = Unit
  Works t woken m (pending f) = (woken ≡ true) × (measure f < m)
  Works t woken m panics = ⊥
  Works t woken m (waker k) = Works t woken m (k t)
  Works t woken m (wake p k) = Works t (woken || (p == t)) m k
  Works {D} t woken m (get k) = (d : D) → Works t woken m (k d)
  Works t woken m (put d k) = Works t woken m k
  Works t woken m (queue f k) = (measure f < m) × ((id : ℕ) → Works t woken m (k id))
  Works t woken m (unqueue id k) = (r : Option Bool) → Works t woken m (k r)

  pub Works-WakesSelf :
      {D : Type 0} (t : Ptr) (woken : Bool) (m : ℕ) (s : Script Fut D)
      → Works t woken m s
      → WakesSelf t woken s
  Works-WakesSelf t b m ready h = tt
  Works-WakesSelf t b m (pending f) h = h.0
  Works-WakesSelf t b m panics h = tt
  Works-WakesSelf t b m (waker k) h = Works-WakesSelf t b m (k t) h
  Works-WakesSelf t b m (wake p k) h = Works-WakesSelf t (b || (p == t)) m k h
  Works-WakesSelf t b m (get k) h = λ d. Works-WakesSelf t b m (k d) (h d)
  Works-WakesSelf t b m (put d k) h = Works-WakesSelf t b m k h
  Works-WakesSelf t b m (queue f k) h = λ id. Works-WakesSelf t b m (k id) (h.1 id)
  Works-WakesSelf t b m (unqueue id k) h = λ r. Works-WakesSelf t b m (k r) (h r)

  abbrev pub rank : Body Fut → ℕ
  rank (user f) = measure f
  rank empty_block = 0

  -- A task waits in the queue. If it was polled in this cycle the thread was told to go on and the
  -- measure is below `b`; otherwise that is `c` at most.
  abbrev pub Fits : (b c : ℕ) (seen queued unparked : Bool) → Option (FutureObject Fut) → Type 0
  Fits b c seen queued unparked none = Unit
  Fits b c true queued unparked (some f) = (queued ≡ true) × (unparked ≡ true) × (rank f.body < b)
  Fits b c false queued unparked (some f) = (queued ≡ true) × (rank f.body ≤ c)

  pub Fits-mono :
      (b c : ℕ) (seen q q' u u' : Bool) (o : Option (FutureObject Fut))
      → (q ≡ true → q' ≡ true)
      → (u ≡ true → u' ≡ true)
      → Fits b c seen q u o
      → Fits b c seen q' u' o
  Fits-mono b c seen q q' u u' none h k f = tt
  Fits-mono b c true q q' u u' (some x) h k f = (h (f.0), k (f.1), f.2)
  Fits-mono b c false q q' u u' (some x) h k f = (h (f.0), f.1)

  pub Fits-new :
      (b c : ℕ) (seen q u : Bool) (f : FutureObject Fut)
      → q ≡ true
      → u ≡ true
      → rank f.body < b
      → rank f.body ≤ c
      → Fits b c seen q u (some f)
  Fits-new b c true q u f e g h k = (e, g, h)
  Fits-new b c false q u f e g h k = (e, k)

  pub Fits-queued :
      (b c : ℕ) (seen q u : Bool) (o : Option (FutureObject Fut))
      → Fits b c seen q u o
      → is_some o ≡ true
      → q ≡ true
  Fits-queued b c seen q u none h e = cc
  Fits-queued b c true q u (some f) h e = h.0
  Fits-queued b c false q u (some f) h e = h.0

  abbrev pub Below : ℕ → List (FutureObject Fut) → Type 0
  Below c [] = Unit
  Below c (f ∷ fs) = (rank f.body < c) × Below c fs

  pub Below-append :
      (c : ℕ) (fs gs : List (FutureObject Fut)) → Below c fs → Below c gs → Below c (fs ++ gs)
  Below-append c [] gs h k = k
  Below-append c (f ∷ fs) gs h k = (h.0, Below-append c fs gs (h.1) k)

  pub Below-removed :
      (c id : ℕ) (fs : List (FutureObject Fut))
      → Below c fs
      → (gs : List (FutureObject Fut)) → remove_id id fs ≡ some gs
      → Below c gs
  unfolding remove_id
  Below-removed c id [] h gs e = cc
  Below-removed c id (f ∷ fs) h gs e = elim (Bool-cases (f.id == id)) [
    | inl found ↦ let same : fs ≡ gs = ground (arith, e, found) in subst (Below c) same (h.1)
    | inr other ↦ elim (Option-cases (remove_id id fs)) [
      | inl n ↦ ground (arith, e, other, n)
      | inr (rest, r) ↦
          let same : f ∷ rest ≡ gs = ground (arith, e, other, r) in
          subst (Below c) same (h.0, Below-removed c id fs (h.1) rest r)
    ]
  ]

-- The next wake reaches the thread, or one has already.
pub record Armed {Fut D : Type 0} (w : World Fut D) : Type 0 where
  pub registering : w.pool.waker.registering ≡ false
  pub waking : w.pool.waker.waking ≡ false
  pub alarm : (w.thread.unparked ≡ true) ⊎ (w.pool.waker.waker ≡ some w.thread.id)

-- All tasks but those that are excepted fit, and `CosyncInput::get` does not panic.
pub record Tracked {Fut D : Type 0} (measure : Fut → ℕ) (b c : ℕ) (except : Ptr → Bool)
    (w : World Fut D) : Type 0 where
  pub fits :
      (s : Ptr)
      → except s ≡ false
      → Fits measure b c
          (leb w.pool.poll_counter (w.pool.last_polled s))
          (w.pool.queued s)
          w.thread.unparked
          (w.pool.future s)
  pub marks :
      (s : Ptr)
      → (is_some (w.pool.future s) || except s) ≡ true
      → w.pool.last_polled s ≤ w.pool.poll_counter
  pub armed : Armed w
  pub strong : w.strong ≡ 1
  pub input : is_some w.heap_ptr ≡ true
  pub incoming : Below measure c w.incoming

-- The record of the polls does not matter.
pub Tracked-recorded :
    {Fut D : Type 0} (measure : Fut → ℕ) (b c : ℕ) (except : Ptr → Bool) (w : World Fut D)
    (ps : List Ptr)
    → Tracked measure b c except w
    → Tracked measure b c except (record w { polled = ps })
Tracked-recorded measure b c except w ps k = record {
  fits = k.fits;
  marks = k.marks;
  armed = record {
    registering = k.armed.registering;
    waking = k.armed.waking;
    alarm = k.armed.alarm;
  };
  strong = k.strong;
  input = k.input;
  incoming = k.incoming;
}
