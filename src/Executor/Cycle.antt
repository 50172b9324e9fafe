-- ===== src/Executor/Cycle.antt =====
-- All of one `poll_next`: which tasks it has polled when it returns.
use mathlib.Core.List.{append_assoc, append-nil}
use cosync.Base.{
  ℕ, zero, suc, ◌≡◌, ◌⊎◌, inl, inr, sym, ◌∙◌, subst, true, Option, none, some, List, [], ◌∷◌, ◌++◌,
  arith, Ptr, has, IsDistinct, ◌==◌, Bool-cases,
}
use cosync.ReadyToRunQueue.Contents.{Holds-IsDistinct}
use cosync.Executor.{
  World, Script, Run, ok, panic, fault, out_of_fuel, Poll, Turn, done, again, and_then, turn,
  poll_loop, poll_next, register_waker,
}
use cosync.Executor.Turns.{IsValid, turn-nil, register_waker-IsValid}
use cosync.Executor.Rounds.{
  Misses, Misses-nil, Misses-later, Misses-front, front_only, is_seen, Taken, TakesOne,
  turn-TakesOne,
}

-- From `w` to `w'`: no task is new, what was polled in the cycle counts as polled still, and every
-- task of the list `todo` was polled in the cycle or is no task of the pool now.
pub record Progress {Fut D : Type 0} (w : World Fut D) (todo ys : List Ptr) (w' : World Fut D)
    : Type 0 where
  pub queue : List Ptr
  pub tasks : List Ptr
  pub valid : IsValid w' queue tasks
  pub poll_counter : w'.pool.poll_counter ≡ w.pool.poll_counter
  pub fresh : w'.pool.fresh ≡ w.pool.fresh
  pub no_new : (s : Ptr) → has s tasks ≡ true → has s ys ≡ true
  pub still_seen : (s : Ptr) → is_seen w s ≡ true → is_seen w' s ≡ true
  pub todo_seen : (s : Ptr) → has s todo ≡ true → has s tasks ≡ true → is_seen w' s ≡ true

abbrev pub Progresses :
    {Fut D : Type 0} → World Fut D → List Ptr → List Ptr → Run Fut D Poll → Type 0
Progresses w todo ys (ok r w') = Progress w todo ys w'
Progresses w todo ys (panic w') = Unit
Progresses w todo ys fault = ⊥
Progresses w todo ys out_of_fuel = Unit

module _ {Fut D : Type 0} (w : World Fut D) (t : Ptr) (xs ys : List Ptr) where
  pub Taken-Progress : (w' : World Fut D) → Taken w t xs ys w' → Progress w (t ∷ []) ys w'
  Taken-Progress w' k = record {
    queue = xs ++ k.more;
    tasks = k.tasks;
    valid = k.valid;
    poll_counter = k.poll_counter;
    fresh = k.fresh;
    no_new = k.no_new;
    still_seen = k.still_seen;
    todo_seen = λ s i j.
        let same : s ≡ t = ground (arith, i) in
        subst (λ q. is_seen w' q ≡ true) (sym same)
          (k.taken_seen (subst (λ q. has q k.tasks ≡ true) same j));
  }

  pub Taken-trans :
      (todo : List Ptr) (w1 w' : World Fut D) (k : Taken w t xs ys w1)
      → Progress w1 todo k.tasks w'
      → Progress w (t ∷ todo) ys w'
  Taken-trans todo w1 w' k p = record {
    queue = p.queue;
    tasks = p.tasks;
    valid = p.valid;
    poll_counter = p.poll_counter ∙ k.poll_counter;
    fresh = p.fresh ∙ k.fresh;
    no_new = λ s j. k.no_new s (p.no_new s j);
    still_seen = λ s h. p.still_seen s (k.still_seen s h);
    todo_seen = λ s i j. elim (Bool-cases (s == t)) [
      | inl e ↦
          let same : s ≡ t = ground arith in
          let left : has t p.tasks ≡ true = subst (λ q. has q p.tasks ≡ true) same j in
          subst (λ q. is_seen w' q ≡ true) (sym same)
            (p.still_seen t (k.taken_seen (p.no_new t left)))
      | inr e ↦ p.todo_seen s (ground (arith, i)) j
    ];
  }

module _ {Fut D : Type 0} (w : World Fut D) (ys : List Ptr) where
  Progress-nil : (todo : List Ptr) (w' : World Fut D) → Progress w todo ys w' → Progress w [] ys w'
  Progress-nil todo w' p = record {
    queue = p.queue;
    tasks = p.tasks;
    valid = p.valid;
    poll_counter = p.poll_counter;
    fresh = p.fresh;
    no_new = p.no_new;
    still_seen = p.still_seen;
    todo_seen = λ s i j. cc;
  }

  Progresses-nil :
      (todo : List Ptr) (r : Run Fut D Poll) → Progresses w todo ys r → Progresses w [] ys r
  Progresses-nil todo (ok r w') p = Progress-nil todo w' p
  Progresses-nil todo (panic w') p = tt
  Progresses-nil todo fault p = p
  Progresses-nil todo out_of_fuel p = tt

  -- The loop after one of its rounds.
  then-Progresses :
      (next : Option Ptr → World Fut D → Run Fut D Poll) (i : Option Ptr) (t : Ptr)
      (xs todo : List Ptr)
      → ((j : Option Ptr) (w' : World Fut D) (k : Taken w t xs ys w')
          → (j ≡ i) ⊎ (j ≡ some t)
          → Progresses w' todo k.tasks (next j w'))
      → ((w' : World Fut D) → Taken w t xs ys w' → i ≡ some t → Progress w (t ∷ todo) ys w')
      → (s : Run Fut D Turn) → TakesOne i w t xs ys s
      → Progresses w
          (t ∷ todo)
          ys
          (and_then s λ r w'. elim r [ done p ↦ ok p w' | again j ↦ next j w' ])
  then-Progresses next i t xs todo rec stop (ok (done r) w') (k, e) = stop w' k e
  then-Progresses next i t xs todo rec stop (ok (again j) w') (k, e) = go (next j w') (rec j w' k e)
    where
      go : (r : Run Fut D Poll) → Progresses w' todo k.tasks r → Progresses w (t ∷ todo) ys r
      go (ok r w2) p = Taken-trans w t xs ys todo w' w2 k p
      go (panic w2) p = tt
      go fault p = p
      go out_of_fuel p = tt
  then-Progresses next i t xs todo rec stop (panic w') u = tt
  then-Progresses next i t xs todo rec stop fault u = u
  then-Progresses next i t xs todo rec stop out_of_fuel u = absurd u

  -- The waker that `poll_next` registers is no part of it.
  pub registered-Progresses :
      (todo : List Ptr) (r : Run Fut D Poll)
      → Progresses (register_waker w) todo ys r
      → Progresses w todo ys r
  unfolding register_waker
  registered-Progresses todo (ok r w') p = record {
    queue = p.queue;
    tasks = p.tasks;
    valid = p.valid;
    poll_counter = p.poll_counter;
    fresh = p.fresh;
    no_new = p.no_new;
    still_seen = p.still_seen;
    todo_seen = p.todo_seen;
  }
  registered-Progresses todo (panic w') p = tt
  registered-Progresses todo fault p = p
  registered-Progresses todo out_of_fuel p = tt

module _ {Fut D : Type 0} (poll : Fut → Script Fut D) where
  -- No task of `todo` is the one at which the loop stops.
  loop-Progresses :
      (n : ℕ) (i : Option Ptr) (w : World Fut D) (todo rest ys : List Ptr)
      → IsValid w (todo ++ rest) ys
      → Misses i todo
      → Progresses w todo ys (poll_loop poll n i w)
  unfolding poll_loop
  loop-Progresses zero i w todo rest ys v h = tt
  loop-Progresses (suc n) i w [] [] ys v h =
      let (w', e, v', el, ec, en) = turn-nil poll i w ys v in
      rw e (record {
        queue = [];
        tasks = ys;
        valid = v';
        poll_counter = ec;
        fresh = en;
        no_new = λ s j. j;
        still_seen = λ s j. rw (el, ec) j;
        todo_seen = λ s i j. cc;
      })
  loop-Progresses (suc n) i w [] (t ∷ xs) ys v h = Progresses-nil w ys (t ∷ []) _ (
      then-Progresses w ys (poll_loop poll n) i t xs []
        (λ j w' k e. loop-Progresses n j w' [] (xs ++ k.more) k.tasks k.valid (Misses-nil j))
        (λ w' k e. Taken-Progress w t xs ys w' k) (turn poll i w)
        (turn-TakesOne poll i w t xs ys v))
  loop-Progresses (suc n) i w (t ∷ todo) rest ys v h =
      then-Progresses w ys (poll_loop poll n) i t (todo ++ rest) todo
        (λ j w' k e.
          loop-Progresses n j w' todo (rest ++ k.more) k.tasks
            (subst (λ zs. IsValid w' zs k.tasks) (append_assoc todo rest k.more) k.valid)
            (Misses-later i j t todo (front_only t todo rest distinct) h e))
        (λ w' k e. absurd (Misses-front i t todo h e)) (turn poll i w)
        (turn-TakesOne poll i w t (todo ++ rest) ys v)
    where
      distinct : IsDistinct (t ∷ todo ++ rest)
      distinct = Holds-IsDistinct w.pool.ready_to_run_queue (t ∷ todo ++ rest) v.waiting

  -- When `poll_next` on a valid pool returns, every task that was in the ready to run queue at the
  -- start counts as polled in the cycle (the mark of its last poll is not below the counter) or is
  -- no task of the pool any more. No task is new, and a task that counted as polled in the cycle
  -- still does.
  pub poll_next-Progresses :
      (n : ℕ) (w : World Fut D) (xs ys : List Ptr)
      → IsValid w xs ys
      → Progresses w xs ys (poll_next poll n w)
  unfolding poll_next register_waker
  poll_next-Progresses n w xs ys v =
      registered-Progresses w ys xs (poll_loop poll n none (register_waker w)) (
        loop-Progresses n none (register_waker w) xs [] ys
          (rw append-nil (register_waker-IsValid w xs ys v)) tt)
