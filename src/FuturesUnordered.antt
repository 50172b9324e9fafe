-- ===== src/FuturesUnordered.antt =====
-- src/futures/futures_unordered.rs and src/futures/task.rs: the pool of tasks. Every field of `Task` is a
-- map from pointers; those of the two lists are in `all` and `ready_to_run_queue`.
pub mod Turns
pub mod Clear
pub mod Abort
pub mod Wakes
pub mod Valid
use cosync.Base.{
  ℕ, suc, ◌+◌, ◌%◌, ◌^◌, Bool, true, false, ◌&&◌, Option, none, some, Ptr, null, stub, update, ◌==◌,
  if◌then◌else◌, ◌>>=◌,
}
use cosync.AtomicWaker
use cosync.AtomicWaker.{AtomicWaker}
use cosync.AllTasks.{AllTasks, link, unlink, atomic_load_head_and_len_all}
use cosync.ReadyToRunQueue.{ReadyToRunQueue, Dequeue, enqueue, dequeue}

-- Addresses from `fresh` on are not in use. A waker is the id of the thread that it wakes.
pub record FuturesUnordered (Fut : Type 0) : Type 0 where
  pub future : Ptr → Option Fut
  pub queued : Ptr → Bool
  pub last_polled : Ptr → ℕ
  pub all : AllTasks
  pub ready_to_run_queue : ReadyToRunQueue
  pub waker : AtomicWaker ℕ
  pub poll_counter : ℕ
  pub fresh : Ptr

abbrev pub u64 : ℕ → ℕ
u64 n = n % 2 ^ 64

-- How `ReadyToRunQueue::clear` ends.
pub data Cleared (Fut : Type 0) : Type 0 where
  cleared : FuturesUnordered Fut → Cleared Fut
  aborts : Cleared Fut

module _ {Fut : Type 0} where
  -- The stub is a task that is queued and holds no future. So is an address not in use.
  unfoldable pub new : FuturesUnordered Fut
  unfolding AtomicWaker.new
  new = record {
    future = λ p. none;
    queued = λ p. true;
    last_polled = λ p. 1;
    all = record { next_all = λ p. stub; prev_all = λ p. null; len_all = λ p. 0; head_all = null };
    ready_to_run_queue = record { next_ready_to_run = λ p. null; head = stub; tail = stub };
    waker = AtomicWaker.new;
    poll_counter = 0;
    fresh = 2;
  }

  unfoldable pub len : FuturesUnordered Fut → Option ℕ
  len p = do (head, n) ← atomic_load_head_and_len_all p.all; some n

  unfoldable pub is_empty : FuturesUnordered Fut → Bool
  is_empty p = p.all.head_all == null

  -- `Arc::new(Task { … })` in `push`
  unfoldable pub alloc : FuturesUnordered Fut → Fut → FuturesUnordered Fut
  alloc p f =
      let t = p.fresh in
      record p {
        future = update p.future t (some f);
        queued = update p.queued t true;
        last_polled = update p.last_polled t 0;
        all = record {
          next_all = update p.all.next_all t stub;
          prev_all = update p.all.prev_all t null;
          len_all = update p.all.len_all t 0;
          head_all = p.all.head_all;
        };
        ready_to_run_queue = record {
          next_ready_to_run = update p.ready_to_run_queue.next_ready_to_run t null;
          head = p.ready_to_run_queue.head;
          tail = p.ready_to_run_queue.tail;
        };
        fresh = suc t;
      }

  unfoldable pub link_all : FuturesUnordered Fut → Ptr → Option (FuturesUnordered Fut)
  link_all p t = do a ← link p.all t; some (record p { all = a })

  unfoldable pub unlink_all : FuturesUnordered Fut → Ptr → Option (FuturesUnordered Fut)
  unlink_all p t = do a ← unlink p.all t; some (record p { all = a })

  unfoldable pub enqueue_task : FuturesUnordered Fut → Ptr → Option (FuturesUnordered Fut)
  enqueue_task p t = do
    q ← enqueue p.ready_to_run_queue t
    some (record p { ready_to_run_queue = q })

  unfoldable pub push : FuturesUnordered Fut → Fut → Option (FuturesUnordered Fut)
  push p f = do p1 ← link_all (alloc p f) p.fresh; enqueue_task p1 p.fresh

  unfoldable pub dequeue_task : FuturesUnordered Fut → Option (Dequeue × FuturesUnordered Fut)
  dequeue_task p = do
    (d, q) ← dequeue p.ready_to_run_queue
    some (d, record p { ready_to_run_queue = q })

  -- `Task::wake_by_ref`. It returns the waker of the executor, if that is to be woken.
  unfoldable pub wake_task : FuturesUnordered Fut → Ptr → Option (Option ℕ × FuturesUnordered Fut)
  wake_task p t = if p.queued t then some (none, p) else (do
    p1 ← enqueue_task (record p { queued = update p.queued t true }) t
    let r = AtomicWaker.wake p1.waker
    some (r.0, record p1 { waker = r.1 }))

  -- The task must be unlinked. The future is dropped. The last reference to the task goes, or is
  -- left to the queue: a task stays allocated in the model, so that this makes no difference here.
  unfoldable pub release_task : FuturesUnordered Fut → Ptr → Option (FuturesUnordered Fut)
  release_task p t =
      if p.all.next_all t == stub && p.all.prev_all t == null
      then some (record p { queued = update p.queued t true; future = update p.future t none })
      else none

  -- The arithmetic of a release build.
  unfoldable pub increment_counter : FuturesUnordered Fut → FuturesUnordered Fut
  increment_counter p = record p { poll_counter = u64 (p.poll_counter + 1) }

  -- The loop of `clear_head_all`. `none` is also the end of the fuel.
  unfoldable pub clear_head_all : ℕ → FuturesUnordered Fut → Option (FuturesUnordered Fut)
  clear_head_all ℕ.zero p = none
  clear_head_all (suc n) p = if p.all.head_all == null then some p else (do
    p1 ← unlink_all p p.all.head_all
    p2 ← release_task p1 p.all.head_all
    clear_head_all n p2)

  -- The loop of `ReadyToRunQueue::clear`. `none` is also the end of the fuel; the abort of the process
  -- is a result of its own.
  unfoldable pub clear_queue : ℕ → FuturesUnordered Fut → Option (Cleared Fut)
  clear_queue ℕ.zero p = none
  clear_queue (suc n) p = do
    (d, p1) ← dequeue_task p
    elim d [
      | Dequeue.empty ↦ some (cleared p1)
      | Dequeue.inconsistent ↦ some aborts
      | Dequeue.task t ↦ clear_queue n p1
    ]

  abbrev pub survives : Cleared Fut → Option (FuturesUnordered Fut)
  survives (cleared p) = some p
  survives aborts = none

  -- After an abort there is no state: that is `none`, too.
  unfoldable pub clear : ℕ → FuturesUnordered Fut → Option (FuturesUnordered Fut)
  clear n p = clear_head_all n p >>= clear_queue n >>= survives
