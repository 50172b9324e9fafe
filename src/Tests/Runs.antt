-- ===== src/Tests/Runs.antt =====
-- Runs of the code.
use cosync.Base.{[], ◌∷◌, ℕ, ◌≡◌, refl, Bool, true, false, Option, none, some}
use cosync.Notify.{Thread}
use cosync.Executor.{
  Cmd, Script, ready, pending, waker, wake, World, Run, ok, panic, fault, out_of_fuel,
}
use cosync.Driver.{new, cosync_queue, run, run_blocking}
use cosync.Tests.Sequences.{
  pool_is_sequential, multi_pool_is_parallel, run_stalls, run_multiple, run_concurrent_weird,
  sleep_ticker,
}
use cosync.Tests.Queueing.{
  pool_remains_sequential_multi, multi_sequential_on_spawn, pool_is_still_sequential,
  ub_on_move_is_prevented, ub2_on_move_is_prevented, threading, task_id_numbers,
  stop_a_running_task, cancelling_a_task,
}
use cosync.Tests.Moves.{
  ordering, cosync_can_be_moved, dynamic_dispatch, text, unsized_type, can_move_non_copy,
  poll_pushes,
}
use cosync.Tests.Games.{basic, serial, pool_remains_sequential}
use cosync.Tests.{ticking, two_tasks, two_incoming, main_thread}

abbrev returned : Run ℕ ℕ ℕ → Option ℕ
returned (ok d w) = some d
returned r = none

-- The run after a run, with the parameter that came back.
abbrev run_again : Run ℕ ℕ ℕ → Run ℕ ℕ ℕ
run_again (ok d w) = run ticking 20 5 d w
run_again r = r

-- A future that is pending for ever, and wakes itself or does not.
abbrev waiting : Bool → Script Bool ℕ
waiting false = pending false
waiting true = waker λ p. wake p (pending true)

-- The two such tasks queued one after the other, and a run with fuel for 100 rounds.
abbrev queue_both : Bool → Bool → Run Bool ℕ ℕ
queue_both a b = elim (cosync_queue a (new main_thread)) [
  | ok i w ↦ elim (cosync_queue b w) [ ok j w' ↦ run waiting 100 5 10 w' | _ ↦ fault ]
  | _ ↦ fault
]

abbrev is_over : Run Bool ℕ ℕ → Bool
is_over (ok d w) = true
is_over r = false

abbrev value_of : {Fut D A : Type 0} → Cmd Fut D A → Option A
value_of m = elim (m (new main_thread)) [ ok a w ↦ some a | _ ↦ none ]

abbrev panics_at_end : {Fut D A : Type 0} → Cmd Fut D A → Bool
panics_at_end m = elim (m (new main_thread)) [ panic w ↦ true | _ ↦ false ]

-- Runs of a task that sleeps two ticks and one that is done at once; of two tasks that are pending
-- for ever, where the run has no end if the one that never wakes itself is queued first and the
-- other second; and the unit tests.
runs :
    (returned (run ticking 20 5 10 two_tasks) ≡ some 11)
    × (returned (run_again (run ticking 20 5 10 two_tasks)) ≡ some 11)
    × (returned (run_again (run_again (run ticking 20 5 10 two_incoming))) ≡ some 12)
    × (returned (run_blocking ticking 20 5 9 10 two_incoming) ≡ some 12)
    × (is_over (queue_both true false) ≡ true)
    × (is_over (queue_both false false) ≡ true)
    × (is_over (queue_both true true) ≡ true)
    × (queue_both false true ≡ out_of_fuel)
    × (value_of pool_is_sequential ≡ some 0)
    × (value_of multi_pool_is_parallel ≡ some (30, 20))
    × (value_of run_stalls ≡ some (10, 20))
    × (value_of run_multiple ≡ some ((30, 20), (40, 40)))
    × (value_of run_concurrent_weird ≡ some ((30, 20, 20), ((40, 40, 30), (40, 40, 40))))
    × (value_of sleep_ticker ≡ some (0, 10))
    × (value_of pool_remains_sequential_multi ≡ some 30)
    × (value_of multi_sequential_on_spawn ≡ some (10, 20))
    × (value_of pool_is_still_sequential ≡ some 30)
    × (panics_at_end ub_on_move_is_prevented ≡ true)
    × (panics_at_end ub2_on_move_is_prevented ≡ true)
    × (value_of threading ≡ some 20)
    × (value_of task_id_numbers ≡ some (0, 1))
    × (value_of stop_a_running_task ≡ some (1, true, 1))
    × (value_of cancelling_a_task ≡ some ((1, 1), (true, 1, true, true)))
    × (value_of ordering ≡ some 0)
    × (value_of cosync_can_be_moved ≡ some (10, 20))
    × (value_of (dynamic_dispatch (λ s. s) 3) ≡ some (text 3))
    × (value_of (unsized_type {Text = ℕ}) ≡ some 0)
    × (value_of can_move_non_copy ≡ some 0)
    × (poll_pushes (10 ∷ []) ≡ ready)
    × (value_of pool_remains_sequential ≡ some 10)
    × (value_of serial
        ≡ some (record { first_position = 300; second_position = 3; cancel_game = true }))
    × (value_of basic
        ≡ some (record { first_position = 2; second_position = 2; cancel_game = true }))
unfolding cosync.Driver.run cosync.Driver.run_with cosync.Driver.new cosync.Driver.leave
    cosync.Driver.poll_pool cosync.Driver.drain cosync.Driver.push_all cosync.Driver.pool_loop
    cosync.Driver.block_loop cosync.Driver.run_blocking cosync.Notify.enter cosync.Notify.exit
    cosync.Notify.park_or_continue cosync.Notify.wake_by_ref cosync.Notify.wake_thread
    cosync.Executor.poll_next cosync.Executor.poll_loop cosync.Executor.turn
    cosync.Executor.register_waker cosync.Executor.after_dequeue cosync.Executor.after_poll
    cosync.Executor.exec cosync.Executor.input_get cosync.Executor.poll_task
    cosync.Executor.poll_future cosync.Executor.raw_queue cosync.Executor.requeue
    cosync.Executor.run_task cosync.Executor.wake_cmd cosync.FuturesUnordered.dequeue_task
    cosync.FuturesUnordered.increment_counter cosync.FuturesUnordered.push
    cosync.FuturesUnordered.alloc cosync.FuturesUnordered.enqueue_task
    cosync.FuturesUnordered.is_empty cosync.FuturesUnordered.link_all cosync.FuturesUnordered.new
    cosync.FuturesUnordered.release_task cosync.FuturesUnordered.unlink_all
    cosync.FuturesUnordered.wake_task cosync.ReadyToRunQueue.dequeue
    cosync.ReadyToRunQueue.dequeue_from cosync.ReadyToRunQueue.dequeue_last
    cosync.ReadyToRunQueue.enqueue cosync.ReadyToRunQueue.link_prev cosync.ReadyToRunQueue.swap_head
    cosync.AllTasks.len_before cosync.AllTasks.link cosync.AllTasks.spin_next_all
    cosync.AllTasks.unlink cosync.AtomicWaker.fetch_or_waking cosync.AtomicWaker.finish_register
    cosync.AtomicWaker.finish_take cosync.AtomicWaker.new cosync.AtomicWaker.register
    cosync.AtomicWaker.set_waker cosync.AtomicWaker.take cosync.AtomicWaker.take_waker
    cosync.AtomicWaker.try_register cosync.Driver.cosync_queue cosync.Driver.next_cosync_task_id
    cosync.Driver.handle_queue cosync.Driver.stop_running_task cosync.Driver.unqueue_task
    cosync.Driver.remove_id cosync.Driver.cosync_is_empty cosync.Driver.is_running_any
    cosync.Driver.clear_running cosync.Driver.Handles.perform cosync.Driver.Handles.shared_get
    cosync.Serial.serial_queue cosync.Serial.serial_run cosync.Serial.serial_poll_pool
    cosync.Serial.next_task cosync.Serial.serial_len cosync.Serial.stop_current_task
    cosync.FuturesUnordered.clear cosync.FuturesUnordered.clear_head_all
    cosync.FuturesUnordered.clear_queue cosync.Iter.iter_mut cosync.Iter.next_mut
    cosync.Iter.find_task
runs = (
  refl, refl, refl, refl, refl, refl, refl, refl, refl, refl, refl, refl, refl, refl, refl, refl,
  refl, refl, refl, refl, refl, refl, refl, refl, refl, refl, refl, refl, refl, refl, refl, refl,
)
