-- ===== src/Executor/Order.antt =====
-- The tasks that `poll_next` of src/futures/futures_unordered.rs polls, in their order.
use mathlib.Core.List.{append_assoc, append-nil}
use cosync.Base.{
  ℕ, zero, suc, ◌≡◌, ◌⊎◌, refl, sym, ap, ◌∙◌, subst, false, Option, none, some, List, [], ◌∷◌, ◌++◌,
  arith, Ptr, has,
}
use cosync.ReadyToRunQueue.Contents.{Holds-IsDistinct}
use cosync.Executor.{
  World, Script, Run, ok, panic, fault, out_of_fuel, Poll, Turn, done, again, and_then, turn,
  poll_loop, poll_next, register_waker,
}
use cosync.Executor.Turns.{IsValid, turn-nil, register_waker-IsValid}
use cosync.Executor.Once.{
  polled_now, due, polls_of_loop, polls_of, Once, polled_now-nil, polled_now-cons, Once-nil,
  Once-one, Once-cons, due-others,
}
use cosync.Executor.Rounds.{
  Taken, TakesOne, turn-TakesOne, Misses, Misses-nil, Misses-later, Misses-front, front_only,
}

-- A loop that returns has polled all that was due, in that order, before anything else.
abbrev pub Ordered : {Fut D : Type 0} → List Ptr → List Ptr → Run Fut D Poll → Type 0
Ordered ds ps (ok r w) = (later : List Ptr) × (ps ≡ ds ++ later)
Ordered ds ps (panic w) = Unit
Ordered ds ps fault = ⊥
Ordered ds ps out_of_fuel = Unit

pub Ordered-nil :
    {Fut D : Type 0} (ds ps : List Ptr) (r : Run Fut D Poll) → Ordered ds ps r → Ordered [] ps r
Ordered-nil ds ps (ok r w) o = (ps, refl)
Ordered-nil ds ps (panic w) o = tt
Ordered-nil ds ps fault o = o
Ordered-nil ds ps out_of_fuel o = tt

Ordered-cons :
    {Fut D : Type 0} (es ds ps : List Ptr) (r : Run Fut D Poll)
    → Ordered ds ps r
    → Ordered (es ++ ds) (es ++ ps) r
Ordered-cons es ds ps (ok r w) (later, e) =
    (later, ap (λ qs. es ++ qs) e ∙ sym (append_assoc es ds later))
Ordered-cons es ds ps (panic w) o = tt
Ordered-cons es ds ps fault o = o
Ordered-cons es ds ps out_of_fuel o = tt

-- The polls of the loop after one of its rounds.
abbrev pub then_polls :
    {Fut D : Type 0} → (Option Ptr → World Fut D → List Ptr) → Run Fut D Turn → List Ptr
then_polls next (ok (done p) w') = []
then_polls next (ok (again j) w') = next j w'
then_polls next (panic w') = []
then_polls next fault = []
then_polls next out_of_fuel = []

module _ {Fut D : Type 0} (w : World Fut D) (ys : List Ptr) where
  due-cons : (t : Ptr) (todo : List Ptr) → due w ys (t ∷ todo) ≡ due w ys (t ∷ []) ++ due w ys todo
  due-cons t todo = ground arith

  pub then-Polls :
      (next : Option Ptr → World Fut D → Run Fut D Poll)
      (polls : Option Ptr → World Fut D → List Ptr) (i : Option Ptr) (t : Ptr) (xs todo : List Ptr)
      → has t todo ≡ false
      → ((j : Option Ptr) (w' : World Fut D) (k : Taken w t xs ys w')
          → (j ≡ i) ⊎ (j ≡ some t)
          → Once w' k.tasks (polls j w') × Ordered (due w' k.tasks todo) (polls j w') (next j w'))
      → (i ≡ some t → todo ≡ [])
      → (s : Run Fut D Turn) → TakesOne i w t xs ys s
      → Once w ys (due w ys (t ∷ []) ++ then_polls polls s)
        × Ordered
            (due w ys (t ∷ todo))
            (due w ys (t ∷ []) ++ then_polls polls s)
            (and_then s λ r w'. elim r [ done p ↦ ok p w' | again j ↦ next j w' ])
  then-Polls next polls i t xs todo n rec stop (ok (done r) w') (k, e) = (
    Once-cons w ys t xs [] w' k (Once-nil w' k.tasks),
    ([], ap (λ ds. due w ys (t ∷ ds) ++ []) (sym (stop e))),
  )
  then-Polls next polls i t xs todo n rec stop (ok (again j) w') (k, e) =
      let (o, m) = rec j w' k e in
      (
        Once-cons w ys t xs (polls j w') w' k o,
        subst (λ ds. Ordered ds (due w ys (t ∷ []) ++ polls j w') (next j w'))
            (sym (due-cons t todo))
            (Ordered-cons (due w ys (t ∷ [])) (due w ys todo) (polls j w') (next j w') (
              subst (λ ds. Ordered ds (polls j w') (next j w')) (due-others w ys t xs w' k todo n)
                m)),
      )
  then-Polls next polls i t xs todo n rec stop (panic w') u = (Once-one w ys t, tt)
  then-Polls next polls i t xs todo n rec stop fault u = absurd u
  then-Polls next polls i t xs todo n rec stop out_of_fuel u = absurd u

module _ {Fut D : Type 0} (poll : Fut → Script Fut D) where
  pub polls_of_loop-suc :
      (n : ℕ) (i : Option Ptr) (w : World Fut D) (ys ps : List Ptr)
      → polled_now poll i w ≡ ps
      → polls_of_loop poll (suc n) i w ≡ ps ++ then_polls (polls_of_loop poll n) (turn poll i w)
  unfolding polls_of_loop
  polls_of_loop-suc n i w ys ps e = go (turn poll i w)
    where
      go :
          (s : Run Fut D Turn)
          → polled_now poll i w ++ (elim s [
            | ok r w' ↦ elim r [ done p ↦ [] | again j ↦ polls_of_loop poll n j w' ]
            | panic w' ↦ []
            | fault ↦ []
            | out_of_fuel ↦ []
          ])
            ≡ ps ++ then_polls (polls_of_loop poll n) s
      go (ok (done r) w') = rw e
      go (ok (again j) w') = rw e
      go (panic w') = rw e
      go fault = rw e
      go out_of_fuel = rw e

  none_polled :
      (i : Option Ptr) (w : World Fut D) (ys : List Ptr) → Once w ys (polls_of_loop poll zero i w)
  unfolding polls_of_loop
  none_polled i w ys = Once-nil w ys

  abbrev Polls : ℕ → Option Ptr → World Fut D → List Ptr → List Ptr → Type 0
  Polls n i w todo ys =
      Once w ys (polls_of_loop poll n i w)
      × Ordered (due w ys todo) (polls_of_loop poll n i w) (poll_loop poll n i w)

  loop-Polls :
      (n : ℕ) (i : Option Ptr) (w : World Fut D) (todo rest ys : List Ptr)
      → IsValid w (todo ++ rest) ys
      → Misses i todo
      → Polls n i w todo ys
  unfolding poll_loop
  loop-Polls zero i w todo rest ys v h = (none_polled i w ys, tt)
  loop-Polls (suc n) i w [] [] ys v h =
      let (w', e, v', el, ec, en) = turn-nil poll i w ys v in
      rw (polls_of_loop-suc n i w ys [] (polled_now-nil poll i w ys v), e)
        (Once-nil w ys, ([], refl))
  loop-Polls (suc n) i w [] (t ∷ xs) ys v h =
      rw (polls_of_loop-suc n i w ys _ (polled_now-cons poll i w ys t xs v)) (
        let (o, m) =
          then-Polls w ys (poll_loop poll n) (polls_of_loop poll n) i t xs [] refl
            (λ j w' k e. loop-Polls n j w' [] (xs ++ k.more) k.tasks k.valid (Misses-nil j))
            (λ e. refl) (turn poll i w) (turn-TakesOne poll i w t xs ys v) in
        (o, Ordered-nil _ _ _ m))
  loop-Polls (suc n) i w (t ∷ todo) rest ys v h =
      rw (polls_of_loop-suc n i w ys _ (polled_now-cons poll i w ys t (todo ++ rest) v)) (
        then-Polls w ys (poll_loop poll n) (polls_of_loop poll n) i t (todo ++ rest) todo apart
          (λ j w' k e.
            loop-Polls n j w' todo (rest ++ k.more) k.tasks
              (subst (λ zs. IsValid w' zs k.tasks) (append_assoc todo rest k.more) k.valid)
              (Misses-later i j t todo apart h e))
          (λ e. absurd (Misses-front i t todo h e)) (turn poll i w)
          (turn-TakesOne poll i w t (todo ++ rest) ys v))
    where
      apart : has t todo ≡ false
      apart =
          front_only t todo rest
            (Holds-IsDistinct w.pool.ready_to_run_queue (t ∷ todo ++ rest) v.waiting)

  -- On a valid pool `poll_next` polls no task twice, and only tasks of the pool that were not polled
  -- in this cycle before, however it ends. When it returns, the tasks that it polled begin with
  -- those of the ready to run queue at its start that are in the pool and not yet polled in this
  -- cycle, in the order of the queue. It never ends in undefined behaviour or a failed assertion.
  pub poll_next-Ordered :
      (n : ℕ) (w : World Fut D) (xs ys : List Ptr)
      → IsValid w xs ys
      → Once w ys (polls_of poll n w)
        × Ordered (due w ys xs) (polls_of poll n w) (poll_next poll n w)
  unfolding poll_next polls_of register_waker
  poll_next-Ordered n w xs ys v =
      let (o, m) =
        loop-Polls n none (register_waker w) xs [] ys
          (rw append-nil (register_waker-IsValid w xs ys v)) tt in
      (
        record { distinct = o.distinct; fresh = o.fresh },
        subst (λ ds. Ordered ds (polls_of poll n w) (poll_next poll n w)) (due-same xs) m,
      )
    where
      due-same : (zs : List Ptr) → due (register_waker w) ys zs ≡ due w ys zs
      due-same [] = refl
      due-same (z ∷ zs) = ground (arith, due-same zs)
