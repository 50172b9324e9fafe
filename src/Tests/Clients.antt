-- ===== src/Tests/Clients.antt =====
-- The theorems on `SerialCosync`, cancelling, sleeping and the atomic waker at concrete states.
use cosync.Driver.{run_blocking}
use cosync.Driver.Blocking.{AfterBlocking, run_blocking-AfterBlocking}
use cosync.ReadyToRunQueue.{ReadyToRunQueue, Outcome, again, consume, swap_head, link_prev}
use cosync.ReadyToRunQueue.Consumer
use cosync.ReadyToRunQueue.Consumes.{Gives}
use cosync.ReadyToRunQueue.Fifo.{gap_behind}
use cosync.ReadyToRunQueue.Chain.{no_gap}
use cosync.ReadyToRunQueue.Gives.{Reachable-Gives}
use cosync.Base.{
  zero, suc, false, Option, is_some, update, ◌≤◌, ◌+◌, ℕ, ◌≡◌, refl, Bool, true, false, some, [],
  ◌∷◌, arith,
}
use cosync.Executor.{World, ok}
use cosync.Executor.Frame.{Obeys}
use cosync.Executor.Turns.{IsValid}
use cosync.AtomicWaker.{AtomicWaker, new, try_register, set_waker, finish_register, fetch_or_waking}
use cosync.AtomicWaker.Threads.{
  Threads, Reachable, start, next, lock, write, start_take, Reachable-exclusive, Reachable-owed,
}
use cosync.FuturesUnordered.Valid.{new-IsPool}
use cosync.Driver.Cancel.{
  Stopped, Unqueued, unqueued, stop_running_task-is_running, unqueue_task-Unqueued,
}
use cosync.Serial.{serial_poll_pool, serial_is_running_any, current_task_id}
use cosync.Serial.Order.{InOrder, starts_of, serial_poll_pool-InOrder}
use cosync.Serial.Views.{names, current_task_id-is_running}
use cosync.Iter as Walk
use cosync.Iter.{iter, iter_mut, next_mut, size_hint, size_hint_mut}
use cosync.Iter.Exact.{Exact, advance-size_hint}
use cosync.Serial.Single.{OneAtATime, serial_poll_pool-OneAtATime}
use cosync.Ticks.{poll_sleep, polls}
use cosync.Ticks.Sleep.{polls-sleep}
use cosync.Driver
use cosync.Driver.{
  cosync_len, is_running, stop_running_task, unqueue_task, remove_id, run, poll_pool,
}
use cosync.Tests.{
  ticking, two_tasks, two_tasks-IsValid, two_incoming, main_thread, idle_pool, idle_pool-IsPool,
  second_task,
}

serial_poll_pool-OneAtATime_example : OneAtATime (serial_poll_pool ticking 9 9 two_incoming)
unfolding Driver.new
serial_poll_pool-OneAtATime_example =
    serial_poll_pool-OneAtATime ticking 9 9 two_incoming ([], [], new-IsPool, omega arith)

ticking-Obeys : (n : ℕ) → Obeys false (ticking n)
ticking-Obeys zero = λ d. tt
ticking-Obeys (suc n) = λ p. tt

serial_poll_pool-InOrder_example :
    InOrder two_incoming.incoming
      (starts_of ticking 9 9 two_incoming)
      (serial_poll_pool ticking 9 9 two_incoming)
unfolding Driver.new
serial_poll_pool-InOrder_example =
    serial_poll_pool-InOrder ticking 9 ticking-Obeys 9 two_incoming
      ([], [], new-IsPool, omega arith)

-- One task runs and one waits.
abbrev serial_world : World ℕ ℕ
serial_world = record (Driver.new main_thread) { pool = idle_pool; incoming = second_task ∷ [] }

current_task_id-is_running_example :
    (c : Option ℕ) × (current_task_id serial_world ≡ some c)
    × (is_some c ≡ serial_is_running_any serial_world)
    × (is_running 2 0 serial_world ≡ some (names c 0))
current_task_id-is_running_example =
    current_task_id-is_running serial_world [] (2 ∷ []) 0 idle_pool-IsPool (omega arith)

advance-size_hint_example :
    Exact two_tasks.pool
      (3 ∷ [])
      (2 ∷ [])
      (Walk.next two_tasks.pool)
      size_hint
      (iter two_tasks.pool)
    × Exact two_tasks.pool
        (3 ∷ [])
        (2 ∷ [])
        (next_mut two_tasks.pool)
        size_hint_mut
        (some (iter_mut two_tasks.pool))
advance-size_hint_example =
    advance-size_hint two_tasks.pool (2 ∷ 3 ∷ []) (3 ∷ []) (2 ∷ []) two_tasks-IsValid

polls-sleep_example : (w : World ℕ ℕ) × (polls poll_sleep 2 1 2 two_tasks ≡ ok (some 1) w)
polls-sleep_example =
    polls-sleep 2 1 2 two_tasks (2 ∷ 3 ∷ []) (3 ∷ 2 ∷ []) (3 ∷ 2 ∷ []) two_tasks-IsValid

abbrev no_tasks : World Bool ℕ
no_tasks = Driver.new main_thread

stop_running_task-is_running_example :
    (r : Bool) × (w : World ℕ ℕ) × (stop_running_task 3 1 two_tasks ≡ ok r w)
    × Stopped 1 two_tasks (2 ∷ 3 ∷ []) (3 ∷ 2 ∷ []) two_tasks-IsValid r w
    × IsValid w (2 ∷ 3 ∷ []) (3 ∷ 2 ∷ [])
    × (is_running 3 1 two_tasks ≡ some r)
    × (is_running 3 1 w ≡ some r)
stop_running_task-is_running_example =
    stop_running_task-is_running 1 two_tasks (2 ∷ 3 ∷ []) (3 ∷ 2 ∷ []) two_tasks-IsValid

unqueue_task-Unqueued_example :
    Unqueued 1 two_incoming.incoming (unqueued (unqueue_task 1 two_incoming))
    × ((unqueue_task 1 two_incoming).1
        ≡ record two_incoming { incoming = (unqueue_task 1 two_incoming).1.incoming })
unqueue_task-Unqueued_example = unqueue_task-Unqueued 1 two_incoming

-- A take came while a thread that registers waker 7 had written it.
abbrev interrupted : Threads ℕ
interrupted = record {
  cell = record { registering = true; waking = true; waker = some 7 };
  writing = 0;
  closing = 1;
  inside = 0;
  leaving = 0;
  owed = true;
}

interrupted-Reachable : Reachable interrupted
unfolding new try_register set_waker fetch_or_waking
interrupted-Reachable =
    next _ _ (next _ _ (next _ _ start (lock _ _ refl)) (write _ 7 0 refl)) (start_take _)

Reachable-exclusive_example :
    interrupted.writing + interrupted.closing + interrupted.inside + interrupted.leaving ≤ 1
Reachable-exclusive_example = Reachable-exclusive interrupted interrupted-Reachable

Reachable-owed_example :
    (w : ℕ) × (c : AtomicWaker ℕ) × (interrupted.cell.waker ≡ some w)
    × (finish_register interrupted.cell ≡ (some w, c))
    × (c ≡ new)
Reachable-owed_example = Reachable-owed interrupted 0 interrupted-Reachable refl refl

-- The consumer found task 5 last and has put the stub behind it, but a producer was faster: task 6 is
-- behind task 5, and not yet linked.
abbrev one_task : ReadyToRunQueue
one_task = record { next_ready_to_run = update (update (λ p. 0) 5 0) 1 5; head = 5; tail = 5 }

abbrev raced : Consumer.Threads
raced = record {
  producers = record {
    queue = record {
      next_ready_to_run = update (update (update one_task.next_ready_to_run 6 0) 1 0) 6 1;
      head = 1;
      tail = 5;
    };
    gap = update (gap_behind (gap_behind (update (gap_behind no_gap 1 5) 1 false) 5 6) 6 1) 6 false;
    owes = update (update (update (λ p. 0) 1 5) 5 6) 6 1;
    waiting = 5 ∷ 6 ∷ [];
  };
  phase = again 5;
}

raced-Reachable : Consumer.Reachable raced
unfolding swap_head link_prev consume
raced-Reachable =
    Consumer.next _ _
      (Consumer.next _ _
        (Consumer.next _ _
          (Consumer.next _ _
            (Consumer.next _ _
              (Consumer.next _ _
                (Consumer.next _ _
                  (Consumer.next _ _ Consumer.start
                    (Consumer.swap _ 5 1 _ (omega arith) (omega arith) refl refl))
                  (Consumer.link_up _ 1 _ refl (omega arith) refl))
                (Consumer.consumes _ _ _ refl))
              (Consumer.consumes _ _ _ refl))
            (Consumer.consumes _ _ _ refl))
          (Consumer.swap _ 6 5 _ (omega arith) (omega arith) refl refl))
        (Consumer.consumes _ _ _ refl))
      (Consumer.consumes _ _ _ refl)

Reachable-Gives_example :
    (o : Outcome) × (q : ReadyToRunQueue) × (consume raced.phase raced.producers.queue
      ≡ some (o, q))
    × Gives raced.producers o
    × Consumer.Reachable (Consumer.consumed raced o q)
Reachable-Gives_example = Reachable-Gives raced raced-Reachable

run_blocking-AfterBlocking_example : AfterBlocking (run_blocking ticking 9 9 9 5 two_tasks)
unfolding Driver.new
run_blocking-AfterBlocking_example =
    run_blocking-AfterBlocking ticking 9 9 9 5 two_tasks (2 ∷ 3 ∷ [], 3 ∷ 2 ∷ [], two_tasks-IsValid)
      refl
