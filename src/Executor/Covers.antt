-- ===== src/Executor/Covers.antt =====
-- What holds of the tasks that `poll_next` of src/futures/futures_unordered.rs has polled when it
-- returns.
use cosync.Base.{
  ℕ, zero, suc, ◌≡◌, true, ◌&&◌, not, Option, none, List, [], ◌∷◌, ◌++◌, arith, Ptr, has,
  Bool-cases,
}
use cosync.Executor.{
  World, Script, Run, ok, panic, fault, out_of_fuel, Poll, Turn, done, again, and_then, turn,
  poll_loop, poll_next, register_waker,
}
use cosync.Executor.Turns.{IsValid, turn-nil, register_waker-IsValid}
use cosync.Executor.Rounds.{is_seen, Taken, TakesOne, turn-TakesOne}
use cosync.Executor.Cycle.{Progress, Progresses, Taken-Progress, Taken-trans, registered-Progresses}
use cosync.Executor.Once.{due, polls_of_loop, polls_of, polled_now-nil, polled_now-cons}
use cosync.Executor.Order.{then_polls, polls_of_loop-suc}

module _ {Fut D : Type 0} (w : World Fut D) (ys : List Ptr) where
  -- Fewer tasks are asked about.
  Progress-fewer :
      (todo fewer : List Ptr) (w' : World Fut D)
      → ((s : Ptr) → has s fewer ≡ true → has s todo ≡ true)
      → Progress w todo ys w'
      → Progress w fewer ys w'
  Progress-fewer todo fewer w' h p = record {
    queue = p.queue;
    tasks = p.tasks;
    valid = p.valid;
    poll_counter = p.poll_counter;
    fresh = p.fresh;
    no_new = p.no_new;
    still_seen = p.still_seen;
    todo_seen = λ s i j. p.todo_seen s (h s i) j;
  }

  due-has :
      (t s : Ptr) (ps : List Ptr) → has s (due w ys (t ∷ []) ++ ps) ≡ true → has s (t ∷ ps) ≡ true
  due-has t s ps i = ground (arith, i, Bool-cases (has t ys && not (is_seen w t)))

  then-Covers :
      (next : Option Ptr → World Fut D → Run Fut D Poll)
      (polls : Option Ptr → World Fut D → List Ptr) (i : Option Ptr) (t : Ptr) (xs : List Ptr)
      → ((j : Option Ptr) (w' : World Fut D) (k : Taken w t xs ys w')
          → Progresses w' (polls j w') k.tasks (next j w'))
      → (s : Run Fut D Turn) → TakesOne i w t xs ys s
      → Progresses w
          (due w ys (t ∷ []) ++ then_polls polls s)
          ys
          (and_then s λ r w'. elim r [ done p ↦ ok p w' | again j ↦ next j w' ])
  then-Covers next polls i t xs rec (ok (done r) w') (k, e) =
      Progress-fewer (t ∷ []) _ w' (λ s h. due-has t s [] h) (Taken-Progress w t xs ys w' k)
  then-Covers next polls i t xs rec (ok (again j) w') (k, e) = go (next j w') (rec j w' k)
    where
      go :
          (r : Run Fut D Poll)
          → Progresses w' (polls j w') k.tasks r
          → Progresses w (due w ys (t ∷ []) ++ polls j w') ys r
      go (ok r w2) p =
          Progress-fewer (t ∷ polls j w') _ w2 (λ s h. due-has t s (polls j w') h)
            (Taken-trans w t xs ys (polls j w') w' w2 k p)
      go (panic w2) p = tt
      go fault p = p
      go out_of_fuel p = tt
  then-Covers next polls i t xs rec (panic w') u = tt
  then-Covers next polls i t xs rec fault u = u
  then-Covers next polls i t xs rec out_of_fuel u = absurd u

module _ {Fut D : Type 0} (poll : Fut → Script Fut D) where
  loop-Covers :
      (n : ℕ) (i : Option Ptr) (w : World Fut D) (xs ys : List Ptr)
      → IsValid w xs ys
      → Progresses w (polls_of_loop poll n i w) ys (poll_loop poll n i w)
  unfolding poll_loop
  loop-Covers zero i w xs ys v = tt
  loop-Covers (suc n) i w [] ys v =
      let (w', e, v', el, ec, en) = turn-nil poll i w ys v in
      rw (polls_of_loop-suc poll n i w ys [] (polled_now-nil poll i w ys v), e)
        (record {
          queue = [];
          tasks = ys;
          valid = v';
          poll_counter = ec;
          fresh = en;
          no_new = λ s j. j;
          still_seen = λ s j. rw (el, ec) j;
          todo_seen = λ s i j. cc;
        })
  loop-Covers (suc n) i w (t ∷ xs) ys v =
      rw (polls_of_loop-suc poll n i w ys _ (polled_now-cons poll i w ys t xs v)) (
        then-Covers w ys (poll_loop poll n) (polls_of_loop poll n) i t xs
          (λ j w' k. loop-Covers n j w' (xs ++ k.more) k.tasks k.valid) (turn poll i w)
          (turn-TakesOne poll i w t xs ys v))

  -- When `poll_next` returns, each task that it polled counts as polled in this cycle or is no task
  -- of the pool any more.
  pub poll_next-Covers :
      (n : ℕ) (w : World Fut D) (xs ys : List Ptr)
      → IsValid w xs ys
      → Progresses w (polls_of poll n w) ys (poll_next poll n w)
  unfolding poll_next polls_of
  poll_next-Covers n w xs ys v =
      registered-Progresses w ys (polls_of poll n w) (poll_loop poll n none (register_waker w))
        (loop-Covers n none (register_waker w) xs ys (register_waker-IsValid w xs ys v))
