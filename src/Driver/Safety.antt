-- ===== src/Driver/Safety.antt =====
-- `poll_pool` and `run` of src/lib.rs on any futures.
use cosync.Base.{
  is_some, ℕ, zero, suc, ◌≡◌, refl, true, false, none, some, List, [], ◌∷◌, arith, Ptr, length,
  Bool-cases, inl, inr,
}
use cosync.Notify.{enter, exit}
use cosync.FuturesUnordered.{increment_counter}
use cosync.FuturesUnordered.Valid.{IsPool-frame}
use cosync.FuturesUnordered.Wakes.{push-IsPool}
use cosync.Executor.{
  World, Script, FutureObject, Run, ok, panic, fault, out_of_fuel, Poll, and_then, with_pool,
  poll_next,
}
use cosync.Executor.Turns.{IsValid, outcome}
use cosync.Executor.Safety.{IsSafe, poll_next-IsSafe}
use cosync.Driver.{push_all, drain, pool_loop, poll_pool, no_incoming, run, run_with, leave}
use cosync.Executor.Frame.{Keeps, keeps_ok, keeps_panic}
use cosync.Driver.Open.{IsOpen, poll_pool-Keeps}

-- A world whose pool is valid.
abbrev pub IsSound : {Fut D : Type 0} → World Fut D → Type 0
IsSound w = (xs : List Ptr) × (ys : List Ptr) × IsValid w xs ys

-- The outcome of a loop that leaves no task in the incoming queue.
abbrev pub Drained : {Fut D A : Type 0} → Run Fut D A → Type 0
Drained (ok r w) = IsSound w × (w.incoming ≡ [])
Drained (panic w) = IsSound w
Drained fault = ⊥
Drained out_of_fuel = Unit

-- The outcome of polling the pool: besides, the result says whether tasks are left.
abbrev pub Settled : {Fut D : Type 0} → Run Fut D Poll → Type 0
Settled (ok r w) =
    (xs : List Ptr) × (ys : List Ptr) × IsValid w xs ys × (r ≡ outcome ys) × (w.incoming ≡ [])
Settled (panic w) = IsSound w
Settled fault = ⊥
Settled out_of_fuel = Unit

module _ {Fut D : Type 0} where
  Settled-Drained : (r : Run Fut D Poll) → Settled r → Drained r
  Settled-Drained (ok r w) (xs, ys, v, o, e) = ((xs, ys, v), e)
  Settled-Drained (panic w) s = s
  Settled-Drained fault s = s
  Settled-Drained out_of_fuel s = s

  pub push_all-IsSound :
      (fs : List (FutureObject Fut)) (w : World Fut D)
      → IsSound w
      → (w' : World Fut D) × (push_all fs w ≡ ok tt w') × IsSound w' × (w'.incoming ≡ w.incoming)
  unfolding push_all
  push_all-IsSound [] w s = (w, refl, s, refl)
  push_all-IsSound (f ∷ fs) w (xs, ys, v) =
      let (p, e, v', ef, el, ec, en) = push-IsPool w.pool xs ys ys v f in
      let (w', r, s', i) = push_all-IsSound fs (with_pool w p) (_, _, v') in
      (w', rw (e, push_all) r, s', i)

  drain-IsSound :
      (w : World Fut D)
      → IsSound w
      → (w' : World Fut D) × (drain w ≡ ok tt w') × IsSound w' × (w'.incoming ≡ [])
  unfolding drain
  drain-IsSound w s = push_all-IsSound w.incoming (record w { incoming = [] }) s

pub no_incoming-nil :
    {Fut : Type 0} (fs : List (FutureObject Fut)) → no_incoming fs ≡ true → fs ≡ []
no_incoming-nil [] e = refl
no_incoming-nil (f ∷ fs) e = cc

module _ {Fut D : Type 0} (poll : Fut → Script Fut D) (n : ℕ) where
  pool_loop-Settled : (k : ℕ) (w : World Fut D) → IsSound w → Settled (pool_loop poll n k w)
  unfolding pool_loop
  pool_loop-Settled zero w s = tt
  pool_loop-Settled (suc k) w (xs0, ys0, v0) =
      go (poll_next poll n w) (poll_next-IsSafe poll (length ys0) n w (xs0, ys0, v0, omega arith))
        (pool_loop-Settled k)
    where
      go :
          (r : Run Fut D Poll)
          → IsSafe (length ys0) r
          → ((w' : World Fut D) → IsSound w' → Settled (pool_loop poll n k w'))
          → Settled (
              and_then r λ output w1. elim (no_incoming w1.incoming) [
                | true ↦ ok output w1
                | false ↦ and_then (drain w1) λ _ w2. pool_loop poll n k w2
              ])
      go (ok r w1) (xs, ys, v, h, o) rec = elim (Bool-cases (no_incoming w1.incoming)) [
        | inl e ↦ rw (e, Settled) (xs, ys, v, o, no_incoming-nil w1.incoming e)
        | inr e ↦
            let (w2, d, s2, i) = drain-IsSound w1 (xs, ys, v) in rw (e, Settled) (rw d (rec w2 s2))
      ]
      go (panic w1) (xs, ys, v, h) rec = (xs, ys, v)
      go fault u rec = u
      go out_of_fuel u rec = tt

  -- From a valid pool `poll_pool` never ends in undefined behaviour. When it returns the pool is
  -- valid, no task waits in the incoming queue, and the result is ready if and only if no task is
  -- left in the pool; when a task panics the pool is valid.
  pub poll_pool-Settled : (k : ℕ) (w : World Fut D) → IsSound w → Settled (poll_pool poll n k w)
  unfolding poll_pool increment_counter
  poll_pool-Settled k w s =
      let (w1, e, s1, i) = drain-IsSound w s in
      rw e (pool_loop-Settled k _ (s1.0, s1.1, IsPool-frame w1.pool _ _ _ _ _ _ s1.2))

-- After a run: the box is empty, the mark of `enter` is gone and no task waits in the incoming
-- queue. After a panic the box still holds the parameter of the run.
abbrev pub AfterRun : {Fut D : Type 0} → Run Fut D D → Type 0
AfterRun (ok d w) = IsSound w × (w.incoming ≡ []) × (w.heap_ptr ≡ none) × (w.thread.entered ≡ false)
AfterRun (panic w) = IsSound w × (is_some w.heap_ptr ≡ true) × (w.thread.entered ≡ false)
AfterRun fault = ⊥
AfterRun out_of_fuel = Unit

module _ {Fut D : Type 0} where
  pub leave-AfterRun :
      {A : Type 0} (r : Run Fut D A) → Drained r → Keeps IsOpen r → AfterRun (leave r)
  unfolding leave exit
  leave-AfterRun (ok a w) (s, i) (keeps_ok o) = ground (arith, s, i, o)
  leave-AfterRun (panic w) s (keeps_panic o) = rw (o.0, AfterRun) (s, o.1, refl)
  leave-AfterRun fault s k = s
  leave-AfterRun out_of_fuel s k = tt

  -- `run` of a `Cosync` with a valid pool, on a thread that is in no executor, never ends in
  -- undefined behaviour. When it returns the pool is valid, the incoming queue is empty, the box
  -- holds no pointer and the mark of `enter` is gone. When a task panics the mark is gone too and
  -- the pool is valid, but the box still holds a pointer.
  pub run-AfterRun :
      (poll : Fut → Script Fut D) (n k : ℕ) (d : D) (w : World Fut D)
      → IsSound w
      → w.thread.entered ≡ false
      → AfterRun (run poll n k d w)
  unfolding run run_with enter
  run-AfterRun poll n k d w s e =
      let open_world = record w {
        heap_ptr = some d;
        thread = record w.thread { entered = true };
      } in
      rw e (
        leave-AfterRun (poll_pool poll n k open_world)
          (Settled-Drained _ (poll_pool-Settled poll n k open_world s))
          (poll_pool-Keeps poll n k open_world (refl, refl)))
