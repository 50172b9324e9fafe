-- ===== src/WakerRef.antt =====
-- src/futures/waker_ref.rs, `ArcWake` of src/futures/mod.rs, the drop of src/futures/task.rs, and the
-- operations of src/futures/futures_unordered.rs with the reference counts of the tasks. `none` is a
-- use of freed memory, a failed assertion or `abort`.
pub mod Counts
pub mod Rounds
pub mod Drops
pub mod Upgrades
pub mod Uses
pub mod Seen
pub mod Flying
pub mod Performed
pub mod Owner
pub mod Freed
use cosync.Base.{
  ℕ, zero, suc, ◌+◌, Bool, true, false, ◌&&◌, Option, none, some, List, [], ◌∷◌, Ptr, null, stub,
  update, leb, ◌==◌, if◌then◌else◌, ◌>>=◌,
}
use cosync.ReadyToRunQueue.{Dequeue}
use cosync.FuturesUnordered.{
  FuturesUnordered, push, dequeue_task, link_all, unlink_all, enqueue_task, wake_task, release_task,
}
use cosync.FuturesUnordered as Pool

-- The pool, the strong count of the `Arc` of every task, and `refs`, that of the ready to run queue.
-- A task with the count 0 is freed, or not allocated.
pub record Counted (Fut : Type 0) : Type 0 where
  pub pool : FuturesUnordered Fut
  pub strong : Ptr → ℕ
  pub refs : ℕ

-- The four functions of a `RawWakerVTable`, on the data pointer of the waker.
pub record WakerVtable (Fut : Type 0) : Type 0 where
  pub clone_raw : Ptr → Counted Fut → Option (Ptr × Counted Fut)
  pub wake_raw : Ptr → Counted Fut → Option (Counted Fut)
  pub wake_by_ref_raw : Ptr → Counted Fut → Option (Counted Fut)
  pub drop_raw : Ptr → Counted Fut → Option (Counted Fut)

module _ {Fut : Type 0} where
  abbrev pub with_pool : Counted Fut → FuturesUnordered Fut → Counted Fut
  with_pool s p = record s { pool = p }

  abbrev pub with_count : Counted Fut → Ptr → ℕ → Counted Fut
  with_count s t n = record s { strong = update s.strong t n }

  unfoldable pub new : Counted Fut
  unfolding Pool.new
  new = record { pool = Pool.new; strong = λ p. 0; refs = 1 }

  -- `drop` of an `Arc<Task>`: the last one drops the task, which must hold no future.
  unfoldable pub drop_arc : Ptr → Counted Fut → Option (Counted Fut)
  drop_arc t s = elim (s.strong t) [
    | zero ↦ none
    | suc n ↦
        if n == 0
        then (elim (s.pool.future t) [ none ↦ some (with_count s t 0) | some f ↦ none ])
        else some (with_count s t n)
  ]

  unfoldable pub increase_refcount : Ptr → Counted Fut → Option (Counted Fut)
  increase_refcount t s = if s.strong t == 0 then none else some (with_count s t (s.strong t + 1))

  unfoldable pub clone_arc_raw : Ptr → Counted Fut → Option (Ptr × Counted Fut)
  clone_arc_raw t s = do s1 ← increase_refcount t s; some (t, s1)

  -- `ReadyToRunQueue::clear` drops what it takes.
  unfoldable pub clear_queue : ℕ → Counted Fut → Option (Counted Fut)
  clear_queue zero s = none
  clear_queue (suc n) s = do
    (d, p) ← dequeue_task s.pool
    elim d [
      | Dequeue.empty ↦ some (with_pool s p)
      | Dequeue.inconsistent ↦ none
      | Dequeue.task t ↦ drop_arc t (with_pool s p) >>= clear_queue n
    ]

  -- `upgrade` of the weak reference to the queue, which every task has: `none` once the queue is gone.
  unfoldable pub upgrade : Counted Fut → Option (Counted Fut)
  upgrade s = if s.refs == 0 then none else some (record s { refs = s.refs + 1 })

  -- The drop of an `Arc` of the queue. The last one clears the queue, on whichever thread.
  unfoldable pub drop_queue_ref : Counted Fut → Option (Counted Fut)
  drop_queue_ref s = elim s.refs [
    | zero ↦ none
    | suc k ↦
        if k == 0
        then (do s1 ← clear_queue (suc s.pool.fresh) s; some (record s1 { refs = 0 }))
        else some (record s { refs = k })
  ]

  -- What `Task::wake_by_ref` does with the upgraded reference, which it drops at the end.
  unfoldable pub finish_wake : Ptr → Counted Fut → Option (Counted Fut)
  finish_wake t s = do (w, p) ← wake_task s.pool t; drop_queue_ref (with_pool s p)

  -- `Task::wake_by_ref`
  unfoldable pub wake_by_ref : Ptr → Counted Fut → Option (Counted Fut)
  wake_by_ref t s = elim (upgrade s) [ none ↦ some s | some s1 ↦ finish_wake t s1 ]

  -- `ArcWake::wake` drops the reference that it was called with.
  unfoldable pub wake : Ptr → Counted Fut → Option (Counted Fut)
  wake t s = wake_by_ref t s >>= drop_arc t

  unfoldable pub wake_arc_raw : Ptr → Counted Fut → Option (Counted Fut)
  wake_arc_raw t s = if s.strong t == 0 then none else wake t s

  unfoldable pub wake_by_ref_arc_raw : Ptr → Counted Fut → Option (Counted Fut)
  wake_by_ref_arc_raw t s = if s.strong t == 0 then none else wake_by_ref t s

  unfoldable pub drop_arc_raw : Ptr → Counted Fut → Option (Counted Fut)
  drop_arc_raw t s = drop_arc t s

  unfoldable pub waker_vtable : WakerVtable Fut
  waker_vtable = record {
    clone_raw = clone_arc_raw;
    wake_raw = wake_arc_raw;
    wake_by_ref_raw = wake_by_ref_arc_raw;
    drop_raw = drop_arc_raw;
  }

  -- `push`: the reference of the new task belongs to the list of all tasks.
  unfoldable pub push_task : Fut → Counted Fut → Option (Counted Fut)
  push_task f s = do p ← push s.pool f; some (with_count (with_pool s p) s.pool.fresh 1)

  -- `release_task`: a task that was marked as queued leaves its reference to the queue.
  unfoldable pub release : Ptr → Counted Fut → Option (Counted Fut)
  release t s = do
    p ← release_task s.pool t
    if s.pool.queued t then some (with_pool s p) else drop_arc t (with_pool s p)

  -- The branch of `poll_next` for a task without a future.
  unfoldable pub discard : Ptr → Counted Fut → Option (Counted Fut)
  discard t s =
      if s.pool.all.next_all t == stub && s.pool.all.prev_all t == null then drop_arc t s else none

  -- The branch for a task that was polled in this cycle.
  unfoldable pub put_back : Ptr → Counted Fut → Option (Counted Fut)
  put_back t s = do
    p1 ← link_all (record s.pool { queued = update s.pool.queued t true }) t
    p2 ← enqueue_task p1 t
    some (with_pool s p2)

  -- The start of a round for a task with a future. The result is the task that is to be polled now,
  -- which `Bomb` holds.
  unfoldable pub start : Ptr → Counted Fut → Option (Option Ptr × Counted Fut)
  start t s = do
    p ← unlink_all s.pool t
    p1 ← if p.queued t then some (record p { queued = update p.queued t false }) else none
    if leb p1.poll_counter (p1.last_polled t)
        then (do s1 ← put_back t (with_pool s p1); some (none, s1))
        else some (
          some t,
          with_pool s (record p1 { last_polled = update p1.last_polled t p1.poll_counter }),
        )

  -- One round of `poll_next` until the poll of the task.
  unfoldable pub round : Counted Fut → Option (Option Ptr × Counted Fut)
  round s = do
    (d, p) ← dequeue_task s.pool
    let s1 = with_pool s p
    elim d [
      | Dequeue.empty ↦ some (none, s1)
      | Dequeue.inconsistent ↦ some (none, s1)
      | Dequeue.task t ↦ elim (p.future t) [
        | none ↦ (do s2 ← discard t s1; some (none, s2))
        | some f ↦ start t s1
      ]
    ]

  -- The poll was pending: the reference of `Bomb` goes back to the list of all tasks.
  unfoldable pub finish_pending : Ptr → Fut → Counted Fut → Option (Counted Fut)
  finish_pending t f s = do
    p ← link_all (record s.pool { future = update s.pool.future t (some f) }) t
    some (with_pool s p)

  unfoldable pub clear_head_all : ℕ → Counted Fut → Option (Counted Fut)
  clear_head_all zero s = none
  clear_head_all (suc n) s = if s.pool.all.head_all == null then some s else (do
    p ← unlink_all s.pool s.pool.all.head_all
    s1 ← release s.pool.all.head_all (with_pool s p)
    clear_head_all n s1)

  unfoldable pub clear : ℕ → Counted Fut → Option (Counted Fut)
  clear n s = clear_head_all n s >>= clear_queue n

  -- The drop of `FuturesUnordered`, with its reference to the queue.
  unfoldable pub drop_pool : ℕ → Counted Fut → Option (Counted Fut)
  drop_pool n s = clear_head_all n s >>= drop_queue_ref
