-- ===== src/Serial/Single.antt =====
-- How many tasks the pool of a `SerialCosync` of src/serial.rs has.
use cosync.Base.{ℕ, zero, suc, ◌≡◌, refl, List, [], ◌∷◌, arith, Ptr, length}
use cosync.FuturesUnordered.{increment_counter}
use cosync.FuturesUnordered.Wakes.{push-IsPool}
use cosync.FuturesUnordered.Valid.{IsPool-frame}
use cosync.Executor.{
  World, Script, FutureObject, Poll, poll_ready, poll_pending, Run, ok, panic, fault, out_of_fuel,
  Cmd, and_then, with_pool, poll_next,
}
use cosync.Executor.Turns.{IsValid}
use cosync.Executor.Safety.{SomeValid, IsSafe, poll_next-IsSafe}
use cosync.Serial.{next_task, serial_poll_pool}

-- Pending means that one task runs; ready means that no task runs or waits.
abbrev pub OneAtATime : {Fut D : Type 0} → Run Fut D Poll → Type 0
OneAtATime (ok poll_pending w) =
    (xs : List Ptr) × (ys : List Ptr) × IsValid w xs ys × (length ys ≡ 1)
OneAtATime (ok poll_ready w) = SomeValid 0 w × (w.incoming ≡ [])
OneAtATime (panic w) = SomeValid 1 w
OneAtATime fault = ⊥
OneAtATime out_of_fuel = Unit

module _ {Fut D : Type 0} where
  increment-SomeValid :
      (w : World Fut D) → SomeValid 1 w → SomeValid 1 (with_pool w (increment_counter w.pool))
  unfolding increment_counter
  increment-SomeValid w (xs, ys, v, h) = (xs, ys, IsPool-frame w.pool xs ys ys _ _ _ v, h)

  next_task-OneAtATime :
      (rerun : Cmd Fut D Poll)
      → ((w : World Fut D) → SomeValid 1 w → OneAtATime (rerun w))
      → (fs : List (FutureObject Fut)) (w : World Fut D) (xs : List Ptr) → IsValid w xs []
      → w.incoming ≡ fs
      → OneAtATime (next_task fs rerun w)
  unfolding next_task
  next_task-OneAtATime rerun rec [] w xs v e = ((xs, [], v, omega arith), e)
  next_task-OneAtATime rerun rec (f ∷ fs) w xs v e =
      let (p, r, v', ef, el, ec, en) = push-IsPool w.pool xs [] [] v f in
      rw (r, OneAtATime) (rec (record w { pool = p; incoming = fs }) (_, _, v', omega arith))

  after-OneAtATime :
      (rerun : Cmd Fut D Poll)
      → ((w : World Fut D) → SomeValid 1 w → OneAtATime (rerun w))
      → (r : Run Fut D Poll) → IsSafe 1 r
      → OneAtATime (
          and_then r λ ret w1. elim ret [
            | poll_pending ↦ ok poll_pending w1
            | poll_ready ↦ next_task w1.incoming rerun w1
          ])
  after-OneAtATime rerun rec (ok poll_pending w) (xs, [], v, h, o) = cc
  after-OneAtATime rerun rec (ok poll_pending w) (xs, y ∷ ys, v, h, o) =
      (xs, y ∷ ys, v, omega arith)
  after-OneAtATime rerun rec (ok poll_ready w) (xs, [], v, h, o) =
      next_task-OneAtATime rerun rec w.incoming w xs v refl
  after-OneAtATime rerun rec (ok poll_ready w) (xs, y ∷ ys, v, h, o) = cc
  after-OneAtATime rerun rec (panic w) s = s
  after-OneAtATime rerun rec fault s = s
  after-OneAtATime rerun rec out_of_fuel s = tt

module _ {Fut D : Type 0} (poll : Fut → Script Fut D) (n : ℕ) where
  -- On a valid pool of at most one task, whatever the futures do, `poll_pool` of a `SerialCosync` is
  -- no undefined behaviour. When it returns pending the pool is valid and has exactly one task, when
  -- it returns ready no task is in the pool or in the incoming queue, and when a task panics the
  -- pool is valid and has at most one task.
  pub serial_poll_pool-OneAtATime :
      (k : ℕ) (w : World Fut D) → SomeValid 1 w → OneAtATime (serial_poll_pool poll n k w)
  unfolding serial_poll_pool
  serial_poll_pool-OneAtATime zero w s = tt
  serial_poll_pool-OneAtATime (suc k) w s =
      after-OneAtATime (serial_poll_pool poll n k) (serial_poll_pool-OneAtATime k)
        (poll_next poll n (with_pool w (increment_counter w.pool)))
        (poll_next-IsSafe poll 1 n _ (increment-SomeValid w s))
