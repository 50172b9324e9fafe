-- ===== src/Tests/Handles.antt =====
-- The theorems on queue handles, on the parked thread and on a whole cycle at concrete states.
use cosync.Base.{
  ℕ, ◌+◌, ◌≡◌, ◌<◌, refl, true, false, not, ◌||◌, some, [], ◌∷◌, ◌++◌, arith, has, IsDistinct,
}
use cosync.FuturesUnordered.{u64}
use cosync.FuturesUnordered as Pool
use cosync.Executor.{fault, poll_next, raw_queue}
use cosync.Executor.Cycle.{Progresses, poll_next-Progresses}
use cosync.Executor.Once.{Once}
use cosync.Executor.Interleaved.{woken, queued, poll_next_among, poll_next_among-IsSafe}
use cosync.Executor.Safety.{IsSafe}
use cosync.Driver
use cosync.Driver.{next_cosync_task_id, unqueue_task, run}
use cosync.Driver.Cycle.{Catches, run-Catches}
use cosync.Driver.Handles.{
  Handles, upgrade, take_id, free_box, drop_queue, start_with, perform, shared_get, Reachable,
  starts, step,
}
use cosync.Driver.Handles.Strong.{shared_get-Reachable}
use cosync.Driver.Handles.Ids.{ids}
use cosync.Driver.Handles.Numbered.{Reachable-IsDistinct, unqueue_task-raw_queue}
use cosync.Notify.Threads as Park
use cosync.Tests.{ticking, silent, two_tasks, two_tasks-IsValid, main_thread}

poll_next-Progresses_example :
    Progresses two_tasks (2 ∷ 3 ∷ []) (3 ∷ 2 ∷ []) (poll_next ticking 9 two_tasks)
poll_next-Progresses_example =
    poll_next-Progresses ticking 9 two_tasks (2 ∷ 3 ∷ []) (3 ∷ 2 ∷ []) two_tasks-IsValid

run-Catches_example :
    Catches (λ s. has s (2 ∷ 3 ∷ []) || not (has s (3 ∷ 2 ∷ []))) 2 (run ticking 9 9 5 two_tasks)
unfolding Driver.new
run-Catches_example =
    run-Catches ticking 9 9 5 two_tasks (2 ∷ 3 ∷ []) (3 ∷ 2 ∷ []) two_tasks-IsValid refl

poll_next_among-IsSafe_example :
    IsSafe 2
      (poll_next_among silent ((woken 3 ∷ queued 1 ∷ []) ∷ [] ∷ (woken 2 ∷ []) ∷ []) two_tasks)
poll_next_among-IsSafe_example =
    poll_next_among-IsSafe silent 2 ((woken 3 ∷ queued 1 ∷ []) ∷ [] ∷ (woken 2 ∷ []) ∷ []) two_tasks
      (2 ∷ 3 ∷ [], 3 ∷ 2 ∷ [], two_tasks-IsValid, omega arith)

-- A thread has upgraded its handle and taken an id.
abbrev fresh : Handles ℕ ℕ
fresh = start_with main_thread

abbrev upgraded : Handles ℕ ℕ
upgraded = record fresh { world = record fresh.world { strong = 2 }; upgraded = 1 }

abbrev numbered : Handles ℕ ℕ
numbered = record fresh {
  world = record fresh.world { strong = 2; counter = 1 };
  numbered = 0 ∷ [];
  issued = 1;
}

numbered-Reachable : Reachable numbered
unfolding perform Driver.new next_cosync_task_id
numbered-Reachable = step take_id (step {s' = upgraded} upgrade (starts main_thread) refl) refl

-- Then the box of the `Cosync` is freed, and its reference goes, while that thread holds the queue.
abbrev unboxed : Handles ℕ ℕ
unboxed = record numbered { boxed = false }

abbrev dropped : Handles ℕ ℕ
dropped = record unboxed { world = record numbered.world { strong = 1 }; alive = false }

dropped-Reachable : Reachable dropped
unfolding perform Driver.new
dropped-Reachable = step drop_queue (step {s' = unboxed} free_box numbered-Reachable refl) refl

shared_get-Reachable_example : shared_get dropped ≡ fault
shared_get-Reachable_example = shared_get-Reachable dropped dropped-Reachable

Reachable-IsDistinct_example :
    IsDistinct (numbered.numbered ++ ids numbered.world.incoming)
    × ((i : ℕ) → has i (numbered.numbered ++ ids numbered.world.incoming) ≡ true → i < 1)
Reachable-IsDistinct_example = Reachable-IsDistinct numbered numbered-Reachable (omega arith)

unqueue_task-raw_queue_example :
    unqueue_task (raw_queue 5 numbered.world).0 (raw_queue 5 numbered.world).1
    ≡ (true, record numbered.world { counter = u64 (1 + 1) })
unqueue_task-raw_queue_example = unqueue_task-raw_queue numbered 5 numbered-Reachable (omega arith)

-- A wake came before `park`, and has set the mark only.
abbrev late : Park.Parker
late = record { unparked = true; token = false; phase = Park.parking; waking = 1; owed = true }

late-Reachable : Park.Reachable late
unfolding Park.perform
late-Reachable =
    Park.step Park.swap_unparked
      (Park.step {s' = record Park.start_state { phase = Park.parking }} Park.end_poll Park.starts
        refl)
      refl

performs-to_poll_example :
    (s : Park.Parker) × (Park.performs (Park.to_poll late) late ≡ some s)
    × (s.phase ≡ Park.polling)
    × (s.owed ≡ false)
performs-to_poll_example = Park.performs-to_poll late late-Reachable refl
