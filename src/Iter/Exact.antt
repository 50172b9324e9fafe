-- ===== src/Iter/Exact.antt =====
-- The iterators of src/futures/iter.rs call by call: what they give, and what `size_hint` says.
use cosync.Base.{
  ℕ, zero, suc, ◌≡◌, ◌≢◌, refl, Bool, true, Option, none, some, List, [], ◌∷◌, ◌++◌, arith, Ptr,
  null, stub, has, length, ◌>>=◌,
}
use cosync.AllTasks.Linked.{Linked}
use cosync.AllTasks.Edits.{len-length}
use cosync.FuturesUnordered.{FuturesUnordered}
use cosync.FuturesUnordered.Valid.{IsPool}
use cosync.Iter.{Iter, iter, iter_mut, next, next_mut, size_hint, size_hint_mut}
use cosync.Iter.Visits.{next_lem, next_mut_lem, Linked-ne_stub, IsPool-Live, iter_mut_len}

abbrev pub Step : Type 0 → Type 0
Step Fut = Iter → Option (Option (Ptr × Fut) × Iter)

module _ {Fut : Type 0} where
  -- Some calls of `next`.
  abbrev pub advance : ℕ → Step Fut → Iter → Option Iter
  advance zero step it = some it
  advance (suc k) step it = step it >>= λ r. advance k step (r.1)

  -- The next call gives the first task of the list with its future, or ends the iterator for good.
  abbrev pub Gives : FuturesUnordered Fut → Step Fut → Iter → List Ptr → Type 0
  Gives p step it [] = step it ≡ some (none, it)
  Gives p step it (t ∷ rest) =
      (f : Fut) × (it' : Iter) × (p.future t ≡ some f) × (step it ≡ some (some (t, f), it'))

  -- What both iterators do.
  record IsNext (p : FuturesUnordered Fut) (step : Step Fut) : Type 0 where
    pub gives :
        (t : Ptr) (f : Fut) (n : ℕ)
        → p.future t ≡ some f
        → t ≢ null
        → p.all.next_all t ≢ stub
        → step (record { task = t; len = suc n })
          ≡ some (some (t, f), record { task = p.all.next_all t; len = n })
    pub ends :
        (n : ℕ)
        → step (record { task = null; len = n }) ≡ some (none, record { task = null; len = n })

  module _ (p : FuturesUnordered Fut) (step : Step Fut) (s : IsNext p step) where
    advance-Gives :
        (b q : Ptr) (before rest : List Ptr)
        → Linked p.all.next_all p.all.prev_all b q (before ++ rest)
        → ((t : Ptr) → has t (before ++ rest) ≡ true → (f : Fut) × (p.future t ≡ some f))
        → (it : Iter) × (advance
              (length before)
              step
              (record { task = q; len = length (before ++ rest) })
            ≡ some it)
          × (it.len ≡ length rest)
          × Gives p step it rest
    advance-Gives b q [] [] k live = (_, refl, refl, rw k (s.ends 0))
    advance-Gives b q [] (t ∷ rest) k live =
        let (f, e) = live t (ground arith) in
        let step_lem = s.gives t f (length rest) e (k.1) (Linked-ne_stub _ _ _ _ rest k.5) in
        (
          _,
          refl,
          refl,
          (f, record { task = p.all.next_all t; len = length rest }, e, rw (k.0) step_lem),
        )
    advance-Gives b q (t ∷ before) rest k live =
        let (f, e) = live t (ground arith) in
        let step_lem =
          s.gives t f (length (before ++ rest)) e (k.1)
            (Linked-ne_stub _ _ _ _ (before ++ rest) k.5) in
        let (it, a, n, g) =
          advance-Gives t (p.all.next_all t) before rest k.5 (λ u i. live u (ground arith)) in
        (it, rw (k.0, step_lem) a, n, g)

  every : Fut → Bool
  every f = true

  module _ (p : FuturesUnordered Fut) where
    next-IsNext : IsNext p (next p)
    next-IsNext = record {
      gives = λ t f n e ne ns. next_lem p t f n e ne ns;
      ends = λ n. unfold next in refl;
    }

    next_mut-IsNext : IsNext p (next_mut p)
    next_mut-IsNext = record {
      gives = λ t f n e ne ns. next_mut_lem p t f n e ne;
      ends = λ n. unfold next_mut in refl;
    }

    -- After as many calls as `before` is long the iterator is at `rest`.
    abbrev pub Exact : List Ptr → List Ptr → Step Fut → (Iter → ℕ × Option ℕ) → Option Iter → Type 0
    Exact before rest step hint start =
        (it : Iter) × ((start >>= advance (length before) step) ≡ some it)
        × (hint it ≡ (length rest, some (length rest)))
        × Gives p step it rest

    module _ (xs before rest : List Ptr) (v : IsPool p xs (before ++ rest) (before ++ rest)) where
      -- On a valid pool both iterators, after any number of calls of `next` up to the number of
      -- tasks, have passed as many tasks, newest first; `size_hint` is the number of tasks that are
      -- left, both as the lower and as the upper bound. The next call gives the next task with its
      -- future, and at the end it gives nothing and leaves the iterator as it is.
      pub advance-size_hint :
          Exact before rest (next p) size_hint (iter p)
          × Exact before rest (next_mut p) size_hint_mut (some (iter_mut p))
      unfolding iter iter_mut size_hint size_hint_mut
      advance-size_hint =
          let live = IsPool-Live every p xs (before ++ rest) v in
          let (it, e, n, g) =
            advance-Gives p (next p) next-IsNext null p.all.head_all before rest v.tasks.linked
              live in
          let (jt, d, m, h) =
            advance-Gives p (next_mut p) next_mut-IsNext null p.all.head_all before rest
              v.tasks.linked live in
          (
            (it, rw (len-length p.all (before ++ rest) v.tasks) e, rw n refl, g),
            (
              jt,
              rw (iter_mut_len every p xs (before ++ rest) v (before ++ rest) v.tasks) d,
              rw m refl,
              h,
            ),
          )
