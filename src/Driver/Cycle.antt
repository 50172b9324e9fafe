-- ===== src/Driver/Cycle.antt =====
-- All of one `run`: which tasks it has polled when it returns.
use cosync.Base.{
  ◌||◌, not, ℕ, zero, suc, ◌+◌, ◌≡◌, ◌⊎◌, inl, inr, refl, ◌∙◌, subst, Bool, true, false, some, List,
  [], ◌++◌, arith, Ptr, has, has-append, Bool-cases,
}
use cosync.Notify.{enter, exit}
use cosync.FuturesUnordered.{u64, increment_counter}
use cosync.FuturesUnordered.Valid.{IsPool-frame}
use cosync.Executor.Frame.{Keeps, keeps_ok, keeps_panic}
use cosync.Driver.Pushed.{addresses, push_all-Pushed}
use cosync.Driver.Open.{IsOpen, poll_pool-Keeps}
use cosync.Executor.{
  World, Script, Run, ok, panic, fault, out_of_fuel, Poll, and_then, with_pool, poll_next,
}
use cosync.Executor.Turns.{IsValid}
use cosync.Executor.Rounds.{is_seen}
use cosync.Executor.Cycle.{Progress, Progresses, poll_next-Progresses}
use cosync.Driver.{drain, pool_loop, poll_pool, no_incoming, run, run_with, leave}

-- Every task of the pool that `due` holds of counts as polled in this cycle.
pub record Caught {Fut D : Type 0} (due : Ptr → Bool) (c : ℕ) (w : World Fut D) : Type 0 where
  pub queue : List Ptr
  pub tasks : List Ptr
  pub valid : IsValid w queue tasks
  pub poll_counter : w.pool.poll_counter ≡ c
  pub due_seen : (s : Ptr) → due s ≡ true → has s tasks ≡ true → is_seen w s ≡ true

abbrev pub Catches : {Fut D A : Type 0} → (Ptr → Bool) → ℕ → Run Fut D A → Type 0
Catches due c (ok r w) = Caught due c w
Catches due c (panic w) = Unit
Catches due c fault = ⊥
Catches due c out_of_fuel = Unit

-- Every due task of the pool waits in the queue, or counts as polled in this cycle.
abbrev Chases : {Fut D : Type 0} → (Ptr → Bool) → World Fut D → List Ptr → List Ptr → Type 0
Chases due w xs ys =
    (s : Ptr) → due s ≡ true → has s ys ≡ true → (has s xs ≡ true) ⊎ (is_seen w s ≡ true)

module _ {Fut D : Type 0} (poll : Fut → Script Fut D) (n : ℕ) (due : Ptr → Bool) where
  drain-Chases :
      (w : World Fut D) (xs ys : List Ptr)
      → IsValid w xs ys
      → Chases due w [] ys
      → (w' : World Fut D) × (queue : List Ptr) × (tasks : List Ptr) × (drain w ≡ ok tt w')
        × IsValid w' queue tasks
        × Chases due w' queue tasks
        × (w'.pool.poll_counter ≡ w.pool.poll_counter)
  unfolding drain
  drain-Chases w xs ys v h =
      let (w', e, k) = push_all-Pushed w.incoming (record w { incoming = [] }) xs ys v in
      (
        w',
        xs ++ addresses w.pool.fresh w.incoming,
        k.tasks,
        e,
        k.valid,
        λ s d i. elim (k.new_queued s i) [
          | inl q ↦ inl (ground (arith, has-append s xs (addresses w.pool.fresh w.incoming)))
          | inr old ↦
              let (last, fut) = k.same s ((v.live_used s old).1) in
              ground (arith, h s d old, last, k.poll_counter)
        ],
        k.poll_counter,
      )

  pool_loop-Catches :
      (k : ℕ) (w : World Fut D) (xs ys : List Ptr)
      → IsValid w xs ys
      → Chases due w xs ys
      → Catches due w.pool.poll_counter (pool_loop poll n k w)
  unfolding pool_loop
  pool_loop-Catches zero w xs ys v h = tt
  pool_loop-Catches (suc k) w xs ys v h =
      go (poll_next poll n w) (poll_next-Progresses poll n w xs ys v) (pool_loop-Catches k)
    where
      caught : (w1 : World Fut D) (p : Progress w xs ys w1) → Chases due w1 [] p.tasks
      caught w1 p s d i = inr (ground (arith, h s d (p.no_new s i), p.still_seen s, p.todo_seen s))

      go :
          (r : Run Fut D Poll)
          → Progresses w xs ys r
          → ((w1 : World Fut D) (xs1 ys1 : List Ptr)
              → IsValid w1 xs1 ys1
              → Chases due w1 xs1 ys1
              → Catches due w1.pool.poll_counter (pool_loop poll n k w1))
          → Catches due w.pool.poll_counter (
              and_then r λ output w1. elim (no_incoming w1.incoming) [
                | true ↦ ok output w1
                | false ↦ and_then (drain w1) λ _ w2. pool_loop poll n k w2
              ])
      go (ok r w1) p rec = elim (Bool-cases (no_incoming w1.incoming)) [
        | inl e ↦
            rw (e, Catches)
              (record {
                queue = p.queue;
                tasks = p.tasks;
                valid = p.valid;
                poll_counter = p.poll_counter;
                due_seen = λ s d i. ground (arith, caught w1 p s d i);
              })
        | inr e ↦
            let (w2, q, ts, d, v2, h2, c) = drain-Chases w1 p.queue p.tasks p.valid (caught w1 p) in
            rw (e, Catches)
              (rw d (
                subst (λ m. Catches due m (pool_loop poll n k w2)) (c ∙ p.poll_counter)
                  (rec w2 q ts v2 h2)))
      ]
      go (panic w1) p rec = tt
      go fault p rec = p
      go out_of_fuel p rec = tt

  poll_pool-Catches :
      (k : ℕ) (w : World Fut D) (xs ys : List Ptr)
      → IsValid w xs ys
      → ((s : Ptr) → due s ≡ true → has s ys ≡ true → has s xs ≡ true)
      → Catches due (u64 (w.pool.poll_counter + 1)) (poll_pool poll n k w)
  unfolding poll_pool drain increment_counter
  poll_pool-Catches k w xs ys v h =
      let (w1, e, p) = push_all-Pushed w.incoming (record w { incoming = [] }) xs ys v in
      let turned = with_pool w1 (increment_counter w1.pool) in
      rw e (
        subst (λ c. Catches due (u64 (c + 1)) (pool_loop poll n k turned)) p.poll_counter
          (pool_loop-Catches k turned (xs ++ addresses w.pool.fresh w.incoming) p.tasks
            (IsPool-frame w1.pool _ p.tasks p.tasks _ _ _ p.valid)
            (λ s d i. inl (
              ground (
                arith,
                p.new_queued s i,
                h s d,
                has-append s xs (addresses w.pool.fresh w.incoming),
              )))))

module _ {Fut D : Type 0} (due : Ptr → Bool) (c : ℕ) where
  leave-Catches :
      {A : Type 0} (r : Run Fut D A) → Catches due c r → Keeps IsOpen r → Catches due c (leave r)
  unfolding leave exit
  leave-Catches (ok a w) p (keeps_ok o) = ground (arith, p, o)
  leave-Catches (panic w) p (keeps_panic o) = rw (o.0, Catches) tt
  leave-Catches fault p k = p
  leave-Catches out_of_fuel p k = tt

-- `run` of a `Cosync` with a valid pool, on a thread that is in no executor: when it returns, the
-- pool is valid, the counter of cycles is one more, with wrap-around at `2 ^ 64`, and every task
-- still in the pool that was in the ready to run queue at the start, or was not in the pool then,
-- counts as polled in this cycle: the mark of its last poll is not below the counter.
pub run-Catches :
    {Fut D : Type 0} (poll : Fut → Script Fut D) (n k : ℕ) (d : D) (w : World Fut D)
    (xs ys : List Ptr)
    → IsValid w xs ys
    → w.thread.entered ≡ false
    → Catches (λ s. has s xs || not (has s ys)) (u64 (w.pool.poll_counter + 1)) (run poll n k d w)
unfolding run run_with enter
run-Catches poll n k d w xs ys v e =
    let open_world = record w { heap_ptr = some d; thread = record w.thread { entered = true } } in
    let due : Ptr → Bool = λ s. has s xs || not (has s ys) in
    rw e (
      leave-Catches due _ (poll_pool poll n k open_world)
        (poll_pool-Catches poll n due k open_world xs ys v (λ s i j. ground arith))
        (poll_pool-Keeps poll n k open_world (refl, refl)))
