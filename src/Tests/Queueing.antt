-- ===== src/Tests/Queueing.antt =====
-- The unit tests of src/lib.rs and src/serial.rs in which tasks are queued by tasks or by handles, or
-- are stopped, as programs.
use cosync.Base.{ℕ, ◌+◌, Bool, true, none, some, []}
use cosync.Executor.{Script, ready, get, put, queue, World, Cmd, ok, fault, ◌>>=◌, ◌>>◌, input_get}
use cosync.Driver.{
  cosync_queue, handle_queue, run, run_blocking, stop_running_task, unqueue_task, cosync_is_empty,
}
use cosync.Serial.{serial_queue, serial_run, serial_len, stop_current_task}
use cosync.Driver.Handles.{Handles, shared_get, perform, free_box, drop_queue}
use cosync.Tests.Sequences.{give_way, expect}

-- A call that does not fail.
abbrev pub total : {Fut D A : Type 0} → (World Fut D → A × World Fut D) → Cmd Fut D A
total f w = ok (f w).0 (f w).1

pub data Nested : Type 0 where
  outer middle inner : Nested

abbrev poll_nested : Nested → Script Nested ℕ
poll_nested outer = get λ d. put 10 (queue middle λ i. ready)
poll_nested middle = get λ d. put 20 (queue inner λ i. ready)
poll_nested inner = get λ d. put 30 ready

abbrev pub pool_remains_sequential_multi : Cmd Nested ℕ ℕ
pool_remains_sequential_multi = do cosync_queue outer; run poll_nested 20 5 0

pub data Spawn : Type 0 where
  spawns spawned after_spawn : Spawn

abbrev poll_spawn : Spawn → Script Spawn (ℕ × ℕ)
poll_spawn spawns = get λ d. put (10, d.1) (queue spawned λ i. give_way after_spawn)
poll_spawn spawned = get λ d. put (d.0, 20) ready
poll_spawn after_spawn = ready

abbrev pub multi_sequential_on_spawn : Cmd Spawn (ℕ × ℕ) (ℕ × ℕ)
multi_sequential_on_spawn = do cosync_queue spawns; run poll_spawn 20 5 (0, 0)

pub data Still : Type 0 where
  sets_ten sets_twenty sets_thirty : Still

abbrev poll_still : Still → Script Still ℕ
poll_still sets_ten = get λ d. put 10 (queue sets_thirty λ i. ready)
poll_still sets_twenty = get λ d. put 20 ready
poll_still sets_thirty = get λ d. expect d 20 (put 30 ready)

abbrev pub pool_is_still_sequential : Cmd Still ℕ ℕ
pool_is_still_sequential = do cosync_queue sets_ten; cosync_queue sets_twenty; run poll_still 20 5 0

-- The input of a task was sent out of it: `get` after the `Cosync` is dropped, when no thread has a
-- reference to the queue, and when it is not running.
pub data Sends : Type 0 where
  sends yields_first : Sends

abbrev poll_sends : Sends → Script Sends ℕ
poll_sends sends = ready
poll_sends yields_first = give_way sends

abbrev as_handles : World Sends ℕ → Handles Sends ℕ
as_handles w = record {
  world = w;
  boxed = true;
  alive = true;
  upgraded = 0;
  numbered = [];
  finished = 0;
  issued = w.counter;
}

-- `drop(executor)`
abbrev get_after_drop : Cmd Sends ℕ ℕ
get_after_drop w = elim (perform free_box (as_handles w)) [
  | none ↦ fault
  | some s ↦ elim (perform drop_queue s) [ none ↦ fault | some t ↦ shared_get t ]
]

abbrev pub ub_on_move_is_prevented : Cmd Sends ℕ ℕ
ub_on_move_is_prevented = do cosync_queue sends; run_blocking poll_sends 20 5 5 0; get_after_drop

abbrev pub ub2_on_move_is_prevented : Cmd Sends ℕ ℕ
ub2_on_move_is_prevented = do cosync_queue yields_first; run_blocking poll_sends 20 5 5 0; input_get

abbrev poll_sets : ℕ → Script ℕ ℕ
poll_sets n = get λ d. put n ready

-- The other thread is joined before the run.
abbrev pub threading : Cmd ℕ ℕ ℕ
threading = do total (handle_queue 20); run_blocking poll_sets 20 5 5 1

abbrev pub task_id_numbers : Cmd ℕ ℕ (ℕ × ℕ)
task_id_numbers = do id ← cosync_queue 0; second_task ← cosync_queue 0; ok (id, second_task)

pub data Adds : Type 0 where
  adds adds_again does_nothing : Adds

abbrev poll_adds : Adds → Script Adds ℕ
poll_adds adds = get λ d. put (d + 1) (give_way adds_again)
poll_adds adds_again = get λ d. put (d + 1) ready
poll_adds does_nothing = ready

-- The value after the first run, what stopping the task returned, and the value after the second.
abbrev pub stop_a_running_task : Cmd Adds ℕ (ℕ × Bool × ℕ)
stop_a_running_task = do
  id ← cosync_queue adds
  a ← run poll_adds 20 5 0
  success ← stop_running_task 5 id
  b ← run poll_adds 20 5 a
  ok (a, success, b)

-- The values after both runs of a `SerialCosync`; whether it is empty; the length with one more task,
-- and whether that is taken out again.
abbrev pub cancelling_a_task : Cmd Adds ℕ ((ℕ × ℕ) × (Bool × ℕ × Bool × Bool))
cancelling_a_task = do
  total (serial_queue adds)
  a ← serial_run poll_adds 20 5 0
  stop_current_task 5
  b ← serial_run poll_adds 20 5 a
  e ← λ w. ok (cosync_is_empty w) w
  id ← total (serial_queue does_nothing)
  n ← λ w. ok (serial_len w) w
  success ← total (unqueue_task id)
  e2 ← λ w. ok (cosync_is_empty w) w
  ok ((a, b), (e, n, success, e2))
