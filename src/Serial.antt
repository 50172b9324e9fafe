-- ===== src/Serial.antt =====
-- src/serial.rs: `SerialCosync`, which runs one task at a time. It is a `Cosync` in another use, so that
-- its state is that of `Cosync`.
pub mod Single
pub mod Order
pub mod Views
use cosync.Base.{
  ℕ, zero, suc, ◌+◌, Bool, true, false, Option, none, some, List, [], ◌∷◌, ◌++◌, length,
  if◌then◌else◌, ◌>>=◌,
}
use cosync.Iter.{iter, next}
use cosync.FuturesUnordered.{u64, push, increment_counter}
use cosync.Executor.{
  World, Script, FutureObject, create_future_object, Poll, poll_ready, poll_pending, Run, ok, fault,
  out_of_fuel, Cmd, and_then, with_pool, poll_next,
}
use cosync.Notify.{Thread}
use cosync.Driver.{
  new, is_running_any, cosync_is_empty, remove_id, clear_all, next_cosync_task_id, clear_running,
  run_with, run_until_ready,
}

module _ {Fut D : Type 0} where
  unfoldable pub serial_len : World Fut D → ℕ
  serial_len w = (if is_running_any w then 1 else 0) + length w.incoming

  unfoldable pub serial_new : Thread → World Fut D
  serial_new th = new th

  unfoldable pub serial_is_empty : World Fut D → Bool
  serial_is_empty w = cosync_is_empty w

  unfoldable pub serial_is_running_any : World Fut D → Bool
  serial_is_running_any w = is_running_any w

  -- `current_task_id`: the first task of the iterator.
  unfoldable pub current_task_id : World Fut D → Option (Option ℕ)
  current_task_id w = do
    it ← iter w.pool
    r ← next w.pool it
    some (elim r.0 [ none ↦ none | some (t, f) ↦ some f.id ])

  -- `stop_running_task` clears the pool.
  unfoldable pub stop_current_task : ℕ → Cmd Fut D (Unit {0})
  stop_current_task n = clear_running n

  unfoldable pub serial_unqueue_task : ℕ → World Fut D → Bool × World Fut D
  serial_unqueue_task id w = elim (remove_id id w.incoming) [
    | none ↦ (false, w)
    | some fs ↦ (true, record w { incoming = fs })
  ]

  unfoldable pub serial_clear_queue : World Fut D → World Fut D
  serial_clear_queue w = record w { incoming = [] }

  unfoldable pub serial_clear : ℕ → Cmd Fut D (Unit {0})
  serial_clear n = clear_all n

  -- `queue` puts the task at the end of the incoming queue.
  unfoldable pub serial_queue : Fut → World Fut D → ℕ × World Fut D
  serial_queue f w =
      let r = next_cosync_task_id w in
      (r.0, record (r.1) { incoming = (r.1).incoming ++ create_future_object f (r.0) ∷ [] })

  -- The next task of the incoming queue goes into the pool, if there is one.
  unfoldable pub next_task : List (FutureObject Fut) → Cmd Fut D Poll → Cmd Fut D Poll
  next_task [] rerun w = ok poll_ready w
  next_task (f ∷ fs) rerun w = elim (push w.pool f) [
    | none ↦ fault
    | some p ↦ rerun (record w { pool = p; incoming = fs })
  ]

-- `poll_pool`. `n` is the fuel of one call of `poll_next`, the other number that of the loop.
module _ {Fut D : Type 0} (poll : Fut → Script Fut D) (n : ℕ) where
  unfoldable pub serial_poll_pool : ℕ → Cmd Fut D Poll
  serial_poll_pool zero w = out_of_fuel
  serial_poll_pool (suc k) w =
      and_then (poll_next poll n (with_pool w (increment_counter w.pool))) λ ret w1. elim ret [
        | poll_pending ↦ ok poll_pending w1
        | poll_ready ↦ next_task w1.incoming (serial_poll_pool k) w1
      ]

module _ {Fut D : Type 0} (poll : Fut → Script Fut D) (n k : ℕ) where
  unfoldable pub serial_run : D → Cmd Fut D D
  serial_run d = run_with (serial_poll_pool poll n k) d

  unfoldable pub serial_run_until_stall : D → Cmd Fut D D
  unfolding serial_run
  serial_run_until_stall d = serial_run d

  unfoldable pub serial_run_blocking : ℕ → D → Cmd Fut D D
  serial_run_blocking m d = run_until_ready (serial_poll_pool poll n k) m d
