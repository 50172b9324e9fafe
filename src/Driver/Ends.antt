-- ===== src/Driver/Ends.antt =====
-- The loop of `poll_pool` of src/lib.rs ends on futures that bring themselves nearer to their end, and what it
-- leaves.
use cosync.Base.{
  ℕ, zero, suc, ◌+◌, ◌≤◌, ◌<◌, ◌≡◌, inl, inr, refl, sym, ◌∙◌, subst, Bool, true, false, Option,
  none, some, List, [], ◌∷◌, arith, Ptr, has, is_some, leb, Bool-cases,
}
use cosync.Executor.{World, Script, FutureObject, ok, Poll, poll_next}
use cosync.Executor.Turns.{IsValid, outcome}
use cosync.Executor.Rounds.{is_seen}
use cosync.Executor.Works.{Works, every, Fits, Below, Tracked}
use cosync.Executor.Yields.{Yields-returns}
use cosync.Executor.Ends.{Ends, Waiting, Advanced, poll_next-Ends}
use cosync.Driver.{drain, pool_loop, no_incoming}
use cosync.Driver.Safety.{no_incoming-nil}
use cosync.Driver.Pushed.{push_all-Pushed}
use cosync.Driver.Spread.{Kind, News, push_all-Spread}

-- No task waits in the incoming queue, and all tasks were polled in this cycle.
pub record Stalled {Fut D : Type 0} (measure : Fut → ℕ) (b n : ℕ) (r : Poll) (w : World Fut D)
    : Type 0 where
  pub queue : List Ptr
  pub tasks : List Ptr
  pub valid : IsValid w queue tasks
  pub tracked : Tracked measure b zero every w
  pub seen : (s : Ptr) → has s tasks ≡ true → is_seen w s ≡ true
  pub told : r ≡ outcome tasks
  pub poll_counter : w.pool.poll_counter ≡ n
  pub incoming : w.incoming ≡ []

pub positive : (k : ℕ) → 0 < k → (k' : ℕ) × (k ≡ suc k')
positive zero h = absurd (omega arith)
positive (suc k) h = (k, refl)

module _ {Fut D : Type 0} (measure : Fut → ℕ) (poll : Fut → Script Fut D)
    (works : (f : Fut) (t : Ptr) → Works measure t false (measure f) (poll f)) (b : ℕ) where
  -- What fits in this cycle, as a property of one task.
  abbrev FitsAt : ℕ → ℕ → Bool → Kind Fut
  FitsAt c n unparked o q l = Fits measure b c (leb n l) q unparked o × (is_some o ≡ true → l ≤ n)

  -- The tasks of the incoming queue were not polled in this cycle.
  Below-News :
      (c n : ℕ) (u : Bool) (fs : List (FutureObject Fut))
      → 0 < n
      → Below measure (suc c) fs
      → News (FitsAt c n u) fs
  Below-News c n u [] p h = tt
  Below-News c n u (f ∷ fs) p (h, hs) =
      let unseen : leb n 0 ≡ false = ground (arith, p) in
      ((rw unseen (refl, omega (arith, h)), λ i. omega arith), Below-News c n u fs p hs)

  -- A smaller bound for the tasks that were not polled.
  Fits-less :
      (c c' : ℕ) (seen q u : Bool) (o : Option (FutureObject Fut))
      → (is_some o ≡ true → seen ≡ true)
      → Fits measure b c seen q u o
      → Fits measure b c' seen q u o
  Fits-less c c' seen q u none h f = tt
  Fits-less c c' true q u (some x) h f = f
  Fits-less c c' false q u (some x) h f = ground (arith, h refl)

  drain-Waiting :
      (c : ℕ) (w w1 : World Fut D) (r : Poll)
      → 0 < w.pool.poll_counter
      → Advanced measure b (suc c) w r w1
      → (w2 : World Fut D) × (xs : List Ptr) × (ys : List Ptr) × (drain w1 ≡ ok tt w2)
        × IsValid w2 xs ys
        × Waiting measure b c w2
        × (w2.pool.poll_counter ≡ w.pool.poll_counter)
  unfolding drain
  drain-Waiting c w w1 r p a =
      let emptied = record w1 { incoming = [] } in
      let (w2, e, k) = push_all-Pushed w1.incoming emptied a.queue a.tasks a.valid in
      let n = w1.pool.poll_counter in
      let spread =
        Yields-returns
          (push_all-Spread (FitsAt c n w1.thread.unparked) w1.incoming emptied
            (λ s. (
              Fits-less (suc c) c _ _ _ _ (λ i. a.seen s (sym (a.valid.futures s) ∙ i))
                  (a.tracked.fits s refl),
              λ i. a.tracked.marks s (ground (arith, i)),
            ))
            (Below-News c n w1.thread.unparked w1.incoming (omega (arith, a.poll_counter, p))
              a.tracked.incoming))
          e in
      (
        w2,
        _,
        k.tasks,
        e,
        k.valid,
        record {
          fits = λ s. rw (spread.poll_counter, spread.thread) ((spread.each s).0);
          marks = λ s i. rw spread.poll_counter ((spread.each s).1 i);
          registering = rw spread.waker a.tracked.armed.registering;
          waking = rw spread.waker a.tracked.armed.waking;
          strong = spread.strong ∙ a.tracked.strong;
          input = rw spread.heap_ptr a.tracked.input;
          incoming = rw spread.incoming tt;
        },
        spread.poll_counter ∙ a.poll_counter,
      )

  Advanced-Stalled :
      (c : ℕ) (w w1 : World Fut D) (r : Poll)
      → no_incoming w1.incoming ≡ true
      → Advanced measure b c w r w1
      → Stalled measure b w.pool.poll_counter r w1
  Advanced-Stalled c w w1 r e a =
      let gone = no_incoming-nil w1.incoming e in
      record {
        queue = a.queue;
        tasks = a.tasks;
        valid = a.valid;
        tracked = record {
          fits = λ s o.
              Fits-less c zero _ _ _ _ (λ i. a.seen s (sym (a.valid.futures s) ∙ i))
                (a.tracked.fits s o);
          marks = a.tracked.marks;
          armed = a.tracked.armed;
          strong = a.tracked.strong;
          input = a.tracked.input;
          incoming = rw gone tt;
        };
        seen = a.seen;
        told = a.told;
        poll_counter = a.poll_counter;
        incoming = gone;
      }

  -- What follows one call of `poll_next`.
  abbrev PoolEnds : ℕ → World Fut D → Type 0
  PoolEnds c w =
      Ends (suc c) (λ n k j. pool_loop poll n k w) (Stalled measure b w.pool.poll_counter)

  pool_loop-stop :
      (n k : ℕ) (w w1 : World Fut D) (r : Poll)
      → 0 < k
      → poll_next poll n w ≡ ok r w1
      → no_incoming w1.incoming ≡ true
      → pool_loop poll n k w ≡ ok r w1
  unfolding pool_loop
  pool_loop-stop n zero w w1 r p e h = absurd (omega arith)
  pool_loop-stop n (suc k) w w1 r p e h = ground (arith, e, h)

  pool_loop-more :
      (n k : ℕ) (w w1 w2 : World Fut D) (r : Poll)
      → poll_next poll n w ≡ ok r w1
      → no_incoming w1.incoming ≡ false
      → drain w1 ≡ ok tt w2
      → pool_loop poll n (suc k) w ≡ pool_loop poll n k w2
  unfolding pool_loop
  pool_loop-more n k w w1 w2 r e h d = ground (arith, e, h, d)

  stop-Ends :
      (c : ℕ) (w : World Fut D) (h : Ends 0 (λ n k j. poll_next poll n w) (Advanced measure b c w))
      → no_incoming h.state.incoming ≡ true
      → PoolEnds c w
  stop-Ends c w h e = record {
    enough = h.enough;
    value = h.value;
    state = h.state;
    settles = λ n k j l m i.
        pool_loop-stop n k w h.state h.value (omega (arith, m))
          (h.settles n k j l (omega arith) (omega arith)) e;
    post = Advanced-Stalled c w h.state h.value e h.post;
  }

  more-Ends :
      (c : ℕ) (w w2 : World Fut D)
      (h : Ends 0 (λ n k j. poll_next poll n w) (Advanced measure b (suc c) w))
      → no_incoming h.state.incoming ≡ false
      → drain h.state ≡ ok tt w2
      → w2.pool.poll_counter ≡ w.pool.poll_counter
      → PoolEnds c w2
      → PoolEnds (suc c) w
  more-Ends c w w2 h e d same g = record {
    enough = h.enough + g.enough;
    value = g.value;
    state = g.state;
    settles = λ n k j l m i.
        let (k', pred) = positive k (omega (arith, m)) in
        rw pred (
          pool_loop-more n k' w h.state w2 h.value
            (h.settles n k j (omega (arith, l)) (omega arith) (omega arith)) e d
          ∙ g.settles n k' j (omega (arith, l)) (omega (arith, m, pred)) (omega (arith, i)));
    post = subst (λ q. Stalled measure b q g.value g.state) same g.post;
  }

  no_incoming_lem : (fs : List (FutureObject Fut)) → Below measure zero fs → no_incoming fs ≡ true
  no_incoming_lem [] h = refl
  no_incoming_lem (f ∷ fs) h = absurd (omega (arith, h.0))

  pub pool_loop-Ends :
      (c : ℕ) (w : World Fut D) (xs ys : List Ptr)
      → c ≤ b
      → 0 < w.pool.poll_counter
      → IsValid w xs ys
      → Waiting measure b c w
      → PoolEnds c w
  pool_loop-Ends zero w xs ys cb p v k =
      let h = poll_next-Ends measure poll works b zero cb w xs ys v k in
      stop-Ends zero w h (no_incoming_lem _ h.post.tracked.incoming)
  pool_loop-Ends (suc c) w xs ys cb p v k =
      let h = poll_next-Ends measure poll works b (suc c) cb w xs ys v k in
      elim (Bool-cases (no_incoming h.state.incoming)) [
        | inl e ↦ stop-Ends (suc c) w h e
        | inr e ↦
            let (w2, xs2, ys2, d, v2, k2, same) = drain-Waiting c w h.state h.value p h.post in
            more-Ends c w w2 h e d same
              (pool_loop-Ends c w2 xs2 ys2 (omega arith) (omega (arith, same, p)) v2 k2)
      ]
