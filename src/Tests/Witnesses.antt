-- ===== src/Tests/Witnesses.antt =====
-- The theorems at concrete pools, queues and worlds.
use cosync.Base.{
  ◌++◌, ℕ, zero, suc, ◌≡◌, refl, Bool, true, false, Option, none, some, [], ◌∷◌, arith, Ptr, update,
  ◌==◌, if◌then◌else◌,
}
use cosync.ReadyToRunQueue.{ReadyToRunQueue, enqueue, swap_head, link_prev, dequeue}
use cosync.ReadyToRunQueue.Chain.{IsQueue}
use cosync.ReadyToRunQueue.Fifo.{Dequeues, take_next, dequeue-take_next}
use cosync.AllTasks.{len_before, spin_next_all, AllTasks, link, unlink}
use cosync.AllTasks.Linked.{IsAll}
use cosync.AllTasks.Edits.{link-cons, unlink-erase}
use cosync.FuturesUnordered.{FuturesUnordered, push, wake_task, alloc, link_all, enqueue_task}
use cosync.FuturesUnordered as Pool
use cosync.FuturesUnordered.{clear, aborts, clear_queue}
use cosync.FuturesUnordered.Abort.{clear_queue-clear_list}
use cosync.FuturesUnordered.Clear.{clear-IsPool}
use cosync.FuturesUnordered.Valid.{IsPool}
use cosync.FuturesUnordered.Wakes.{IsSame, push-IsPool, wake_task-IsPool}
use cosync.Executor.{World, FutureObject, out_of_fuel, poll_next, poll_loop, exec, turn, script}
use cosync.Executor.Polled.{AfterPoll, turn-AfterPoll}
use cosync.Executor.Wakeful.{WakesSelf}
use cosync.Executor.Halts.{Halts}
use cosync.Executor.Termination.{poll_next-Halts}
use cosync.Executor.Safety.{IsSafe, poll_next-IsSafe}
use cosync.Executor.Livelock.{livelock}
use cosync.AtomicWaker.{new}
use cosync.Driver
use cosync.Driver.{is_running, stop_running_task, unqueue_task, remove_id, run, poll_pool}
use cosync.Driver.Safety.{AfterRun, run-AfterRun}
use cosync.Tests.{
  ticking, silent, two_tasks, two_tasks-IsValid, seen_tasks, seen_tasks-IsValid, idle_pool,
  idle_pool-IsPool, second_task,
}

ticking-WakesSelf : (f : ℕ) (t : Ptr) → WakesSelf t false (ticking f)
ticking-WakesSelf zero t = λ d. tt
ticking-WakesSelf (suc n) t = ground arith

poll_next-Halts_example : Halts (λ n. poll_next ticking n two_tasks)
poll_next-Halts_example =
    poll_next-Halts ticking ticking-WakesSelf two_tasks (2 ∷ 3 ∷ []) (3 ∷ 2 ∷ []) two_tasks-IsValid

poll_next-IsSafe_example : IsSafe 2 (poll_next silent 9 two_tasks)
poll_next-IsSafe_example =
    poll_next-IsSafe silent 2 9 two_tasks (2 ∷ 3 ∷ [], 3 ∷ 2 ∷ [], two_tasks-IsValid, omega arith)

run-AfterRun_example : AfterRun (run ticking 9 9 5 two_tasks)
unfolding Driver.new
run-AfterRun_example =
    run-AfterRun ticking 9 9 5 two_tasks (2 ∷ 3 ∷ [], 3 ∷ 2 ∷ [], two_tasks-IsValid) refl

-- A producer has put task 7 at the head, and not yet behind task 5.
abbrev half_queue : ReadyToRunQueue
half_queue = record { next_ready_to_run = λ p. if p == 1 then 5 else 0; head = 7; tail = 1 }

abbrev behind_five : Ptr → Bool
behind_five p = p == 5

half_queue-IsQueue : IsQueue half_queue behind_five (1 ∷ 5 ∷ 7 ∷ [])
half_queue-IsQueue = record { chain = ground arith; starts = refl; gaps = λ p g. ground arith }

dequeue-take_next_example :
    Dequeues behind_five (dequeue half_queue) (take_next behind_five (1 ∷ 5 ∷ 7 ∷ []))
dequeue-take_next_example =
    dequeue-take_next half_queue behind_five (1 ∷ 5 ∷ 7 ∷ []) half_queue-IsQueue

-- `clear` meets the gap behind task 5.
clear_queue-clear_list_example :
    clear_queue 3 (record idle_pool { ready_to_run_queue = half_queue }) ≡ some aborts
clear_queue-clear_list_example =
    clear_queue-clear_list behind_five 3 (record idle_pool { ready_to_run_queue = half_queue })
      (1 ∷ 5 ∷ 7 ∷ []) half_queue-IsQueue (omega arith)

abbrev idle_all : AllTasks
idle_all = idle_pool.all

link-cons_example : (a : AllTasks) × (link idle_all 3 ≡ some a) × IsAll a (3 ∷ 2 ∷ [])
link-cons_example =
    link-cons idle_all (2 ∷ []) 3 (idle_pool-IsPool.tasks) (omega arith) (omega arith) refl

unlink-erase_example : (a : AllTasks) × (unlink two_tasks.pool.all 2 ≡ some a) × IsAll a (3 ∷ [])
unlink-erase_example = unlink-erase two_tasks.pool.all (3 ∷ 2 ∷ []) 2 (two_tasks-IsValid.tasks) refl

push-IsPool_example :
    (p : FuturesUnordered (FutureObject ℕ)) × (push idle_pool second_task ≡ some p)
    × IsPool p (3 ∷ []) (3 ∷ 2 ∷ []) (3 ∷ 2 ∷ [])
    × (p.future ≡ update idle_pool.future 3 (some second_task))
    × (p.last_polled ≡ update idle_pool.last_polled 3 0)
    × (p.poll_counter ≡ 1)
    × (p.fresh ≡ 4)
push-IsPool_example = push-IsPool idle_pool [] (2 ∷ []) (2 ∷ []) idle_pool-IsPool second_task

wake_task-IsPool_example :
    (r : Option ℕ) × (p : FuturesUnordered (FutureObject ℕ)) × (wake_task idle_pool 2 ≡ some (r, p))
    × IsPool p (2 ∷ []) (2 ∷ []) (2 ∷ [])
    × IsSame idle_pool p
    × (p.queued 2 ≡ true)
wake_task-IsPool_example = wake_task-IsPool idle_pool [] (2 ∷ []) (2 ∷ []) idle_pool-IsPool 2

turn-AfterPoll_example :
    (w1 : World ℕ ℕ) × (f : FutureObject ℕ) × (two_tasks.pool.future 2 ≡ some f)
    × (w1 ≡ record two_tasks { pool = w1.pool; polled = two_tasks.polled ++ 2 ∷ [] })
    × (w1.pool.future ≡ two_tasks.pool.future)
    × IsPool w1.pool (3 ∷ []) (3 ∷ []) (3 ∷ 2 ∷ [])
    × AfterPoll none two_tasks 2 f.id
        (3 ∷ [])
        (3 ∷ 2 ∷ [])
        (exec 2 (script ticking f.body) w1)
        (turn ticking none two_tasks)
unfolding new Pool.new push alloc link_all enqueue_task link len_before spin_next_all enqueue
    swap_head link_prev
turn-AfterPoll_example =
    turn-AfterPoll ticking none two_tasks 2 (3 ∷ []) (3 ∷ 2 ∷ []) two_tasks-IsValid refl refl

livelock_example : poll_loop silent 100 (some 4) seen_tasks ≡ out_of_fuel
unfolding new Pool.new push alloc link_all enqueue_task link len_before spin_next_all enqueue
    swap_head link_prev
livelock_example =
    livelock silent 4 100 seen_tasks 2 (3 ∷ []) (3 ∷ 2 ∷ []) seen_tasks-IsValid
      (refl, refl, (refl, refl, tt)) refl

clear-IsPool_example :
    (p : FuturesUnordered (FutureObject ℕ)) × (clear 3 two_tasks.pool ≡ some p) × IsPool p [] [] []
clear-IsPool_example =
    clear-IsPool 3 two_tasks.pool (2 ∷ 3 ∷ []) (3 ∷ 2 ∷ []) two_tasks-IsValid (omega arith)
      (omega arith)
