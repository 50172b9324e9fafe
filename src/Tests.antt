-- ===== src/Tests.antt =====
-- Futures and pools of two tasks on which the code is run, and such runs.
pub mod Witnesses
pub mod Clients
pub mod Threads
pub mod Handles
pub mod Sequences
pub mod Queueing
pub mod Games
pub mod Runs
pub mod Endings
pub mod Moves
use cosync.Base.{
  ◌==◌, if◌then◌else◌, not, arith, ℕ, zero, suc, ◌+◌, ◌≡◌, refl, Bool, true, false, Option, none,
  some, List, [], ◌∷◌, ◌++◌, Ptr,
}
use cosync.Notify.{Thread}
use cosync.AtomicWaker
use cosync.AllTasks.{link, len_before, spin_next_all}
use cosync.ReadyToRunQueue.{enqueue, swap_head, link_prev}
use cosync.FuturesUnordered.{FuturesUnordered, push, alloc, link_all, enqueue_task}
use cosync.FuturesUnordered as Pool
use cosync.FuturesUnordered.Valid.{IsPool, IsPool-frame, new-IsPool}
use cosync.FuturesUnordered.Wakes.{push-IsPool}
use cosync.Executor.{
  World, Script, FutureObject, user, Run, ok, panic, fault, out_of_fuel, ready, pending, panics,
  waker, wake, get, put,
}
use cosync.Executor.Turns.{IsValid}
use cosync.Driver.{new, run}

-- A future that sleeps for some ticks, and then adds one to the parameter.
abbrev pub ticking : ℕ → Script ℕ ℕ
ticking zero = get λ d. put (suc d) ready
ticking (suc n) = waker λ p. wake p (pending n)

-- One that never ends and never wakes itself.
abbrev pub silent : ℕ → Script ℕ ℕ
silent n = pending n

abbrev pub with_task :
    FutureObject ℕ → FuturesUnordered (FutureObject ℕ) → FuturesUnordered (FutureObject ℕ)
with_task f p = elim (push p f) [ none ↦ p | some q ↦ q ]

pub with_task-IsPool :
    (f : FutureObject ℕ) (p : FuturesUnordered (FutureObject ℕ)) (xs ys live : List Ptr)
    → IsPool p xs ys live
    → IsPool (with_task f p) (xs ++ p.fresh ∷ []) (p.fresh ∷ ys) (p.fresh ∷ live)
with_task-IsPool f p xs ys live v =
    let (p', e, v', ef, el, ec, en) = push-IsPool p xs ys live v f in rw (e, with_task) v'

abbrev pub first_task : FutureObject ℕ
first_task = record { body = user 2; id = 0 }

abbrev pub second_task : FutureObject ℕ
second_task = record { body = user 0; id = 1 }

abbrev pub one_pool : FuturesUnordered (FutureObject ℕ)
one_pool = with_task first_task Pool.new

abbrev pub two_pool : FuturesUnordered (FutureObject ℕ)
two_pool = with_task second_task one_pool

abbrev pub main_thread : Thread
main_thread = record { id = 0; unparked = false; token = false; entered = false }

-- Two tasks in the pool, and the counter of a first run.
abbrev pub two_tasks : World ℕ ℕ
two_tasks = record (new main_thread) { pool = record two_pool { poll_counter = 1 }; counter = 2 }

pub two_tasks-IsValid : IsValid two_tasks (2 ∷ 3 ∷ []) (3 ∷ 2 ∷ [])
unfolding new Pool.new push alloc link_all enqueue_task AtomicWaker.new link len_before
    spin_next_all enqueue swap_head link_prev
two_tasks-IsValid = IsPool-frame two_pool (2 ∷ 3 ∷ []) (3 ∷ 2 ∷ []) (3 ∷ 2 ∷ []) _ _ _ (
    with_task-IsPool second_task one_pool (2 ∷ []) (2 ∷ []) (2 ∷ [])
      (with_task-IsPool first_task Pool.new [] [] [] new-IsPool))

-- The same two tasks in a cycle in which both were polled.
abbrev pub seen_tasks : World ℕ ℕ
seen_tasks = record (new main_thread) { pool = two_pool; counter = 2 }

pub seen_tasks-IsValid : IsValid seen_tasks (2 ∷ 3 ∷ []) (3 ∷ 2 ∷ [])
unfolding new
seen_tasks-IsValid =
    IsPool-frame two_tasks.pool (2 ∷ 3 ∷ []) (3 ∷ 2 ∷ []) (3 ∷ 2 ∷ []) _ _ _ two_tasks-IsValid

-- A pool with one task, which was polled and waits for a wake.
abbrev pub idle_pool : FuturesUnordered (FutureObject ℕ)
idle_pool = record {
  future = λ p. if p == 2 then some first_task else none;
  queued = λ p. not (p == 2);
  last_polled = λ p. 1;
  all = record {
    next_all = λ p. if p == 2 then 0 else 1;
    prev_all = λ p. 0;
    len_all = λ p. 1;
    head_all = 2;
  };
  ready_to_run_queue = record { next_ready_to_run = λ p. 0; head = 1; tail = 1 };
  waker = record { registering = false; waking = false; waker = some 0 };
  poll_counter = 1;
  fresh = 3;
}

pub idle_pool-IsPool : IsPool idle_pool [] (2 ∷ []) (2 ∷ [])
idle_pool-IsPool = record {
  waiting = (1 ∷ [], record { chain = ground arith; starts = refl; gaps = λ t g. cc }, refl);
  tasks = record {
    linked = (refl, omega arith, omega arith, refl, refl, refl);
    counted = refl;
    outside = λ t o. ground arith;
  };
  linked_live = λ t i. i;
  futures = λ t. ground arith;
  marked = λ t. ground arith;
  waiting_used = λ t i. cc;
  live_used = λ t i. ground arith;
  room = omega arith;
}

-- Two tasks that wait in the incoming queue.
abbrev pub two_incoming : World ℕ ℕ
two_incoming = record (new main_thread) { incoming = first_task ∷ second_task ∷ []; counter = 2 }
