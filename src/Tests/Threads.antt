-- ===== src/Tests/Threads.antt =====
-- The theorems on reference counts, queue handles and the parked thread at concrete states.
use cosync.Base.{ℕ, ◌+◌, ◌≡◌, ◌≤◌, refl, false, none, some, arith, inr, is_some}
use cosync.AtomicWaker
use cosync.AllTasks.{link, unlink, len_before, spin_next_all}
use cosync.ReadyToRunQueue.{enqueue, dequeue, dequeue_from, dequeue_last, swap_head, link_prev}
use cosync.FuturesUnordered.{
  push, alloc, link_all, unlink_all, enqueue_task, dequeue_task, release_task, increment_counter,
  wake_task,
}
use cosync.FuturesUnordered as Pool
use cosync.WakerRef.{
  new, push_task, round, start, put_back, release, drop_arc, drop_pool, clear_head_all, clear_queue,
  waker_vtable, clone_arc_raw, increase_refcount, upgrade, finish_wake, drop_queue_ref,
  wake_by_ref_arc_raw, wake_by_ref,
}
use cosync.WakerRef.Counts.{bit}
use cosync.WakerRef.Uses.{
  Shared, push_op, increment_op, round_op, clone_op, release_op, drop_pool_op, wake_by_ref_op,
  upgrade_op, finish_op, start_state, perform, Reachable, idle, polling, step,
}
use cosync.WakerRef.Uses as Uses
use cosync.WakerRef.Freed.{Reachable-Performs, Reachable-strong, dropped-strong}

abbrev pushed : Shared ℕ
pushed = elim (perform (push_op 7) start_state) [ none ↦ start_state | some s ↦ s ]

pushed-Reachable : Reachable pushed
unfolding perform push_task new Pool.new AtomicWaker.new push alloc link_all enqueue_task link
    len_before spin_next_all enqueue swap_head link_prev
pushed-Reachable = step (push_op 7) Uses.start tt refl

-- The first cycle begins.
abbrev counted : Shared ℕ
counted = elim (perform increment_op pushed) [ none ↦ pushed | some s ↦ s ]

counted-Reachable : Reachable counted
unfolding perform push_task new Pool.new AtomicWaker.new push alloc link_all enqueue_task link
    len_before spin_next_all enqueue swap_head link_prev increment_counter
counted-Reachable = step increment_op pushed-Reachable tt refl

abbrev polled : Shared ℕ
polled = elim (perform round_op counted) [ none ↦ counted | some s ↦ s ]

polled-Reachable : Reachable polled
unfolding perform push_task new Pool.new AtomicWaker.new push alloc link_all enqueue_task link
    len_before spin_next_all enqueue swap_head link_prev round dequeue_task dequeue dequeue_from
    dequeue_last start unlink_all unlink put_back increment_counter
polled-Reachable = step round_op counted-Reachable tt refl

-- The poll keeps a clone of its waker.
abbrev cloned : Shared ℕ
cloned = elim (perform (clone_op 2) polled) [ none ↦ polled | some s ↦ s ]

cloned-Reachable : Reachable cloned
unfolding perform push_task new Pool.new AtomicWaker.new push alloc link_all enqueue_task link
    len_before spin_next_all enqueue swap_head link_prev round dequeue_task dequeue dequeue_from
    dequeue_last start unlink_all unlink put_back increment_counter waker_vtable clone_arc_raw
    increase_refcount
cloned-Reachable = step (clone_op 2) polled-Reachable (inr refl) refl

Reachable-Performs_example : (s : Shared ℕ) × (perform release_op cloned ≡ some s) × Reachable s
unfolding perform push_task new Pool.new AtomicWaker.new push alloc link_all enqueue_task link
    len_before spin_next_all enqueue swap_head link_prev round dequeue_task dequeue dequeue_from
    dequeue_last start unlink_all unlink put_back increment_counter waker_vtable clone_arc_raw
    increase_refcount
Reachable-Performs_example = Reachable-Performs cloned release_op cloned-Reachable tt

Reachable-strong_example :
    (cloned.wakers 2 + bit (is_some (cloned.counted.pool.future 2)) ≤ cloned.counted.strong 2)
    × (cloned.counted.strong 2 ≤ cloned.wakers 2 + 1)
Reachable-strong_example = Reachable-strong cloned 2 cloned-Reachable (omega arith)

-- The task is woken during its poll, and then done, so that only the queue has a reference to it.
abbrev rewoken : Shared ℕ
rewoken = elim (perform (wake_by_ref_op 2) cloned) [ none ↦ cloned | some s ↦ s ]

rewoken-Reachable : Reachable rewoken
unfolding perform push_task new Pool.new AtomicWaker.new push alloc link_all enqueue_task link
    len_before spin_next_all enqueue swap_head link_prev round dequeue_task dequeue dequeue_from
    dequeue_last start unlink_all unlink put_back increment_counter waker_vtable clone_arc_raw
    increase_refcount wake_by_ref_arc_raw wake_by_ref upgrade finish_wake drop_queue_ref wake_task
    AtomicWaker.take
rewoken-Reachable = step (wake_by_ref_op 2) cloned-Reachable (inr refl) refl

abbrev done : Shared ℕ
done = elim (perform release_op rewoken) [ none ↦ rewoken | some s ↦ s ]

done-Reachable : Reachable done
unfolding perform push_task new Pool.new AtomicWaker.new push alloc link_all enqueue_task link
    len_before spin_next_all enqueue swap_head link_prev round dequeue_task dequeue dequeue_from
    dequeue_last start unlink_all unlink put_back increment_counter waker_vtable clone_arc_raw
    increase_refcount wake_by_ref_arc_raw wake_by_ref upgrade finish_wake drop_queue_ref wake_task
    AtomicWaker.take release release_task drop_arc
done-Reachable = step release_op rewoken-Reachable tt refl

-- The pool is dropped while a wake has the queue, and the end of that wake clears it.
abbrev raised : Shared ℕ
raised = elim (perform (upgrade_op 2) done) [ none ↦ done | some s ↦ s ]

raised-Reachable : Reachable raised
unfolding perform push_task new Pool.new AtomicWaker.new push alloc link_all enqueue_task link
    len_before spin_next_all enqueue swap_head link_prev round dequeue_task dequeue dequeue_from
    dequeue_last start unlink_all unlink put_back increment_counter waker_vtable clone_arc_raw
    increase_refcount wake_by_ref_arc_raw wake_by_ref upgrade finish_wake drop_queue_ref wake_task
    AtomicWaker.take release release_task drop_arc
raised-Reachable = step (upgrade_op 2) done-Reachable (omega arith) refl

abbrev gone : Shared ℕ
gone = elim (perform drop_pool_op raised) [ none ↦ raised | some s ↦ s ]

gone-Reachable : Reachable gone
unfolding perform push_task new Pool.new AtomicWaker.new push alloc link_all enqueue_task link
    len_before spin_next_all enqueue swap_head link_prev round dequeue_task dequeue dequeue_from
    dequeue_last start unlink_all unlink put_back increment_counter waker_vtable clone_arc_raw
    increase_refcount wake_by_ref_arc_raw wake_by_ref upgrade finish_wake drop_queue_ref wake_task
    AtomicWaker.take release release_task drop_arc drop_pool clear_head_all clear_queue
gone-Reachable = step drop_pool_op raised-Reachable tt refl

abbrev ended : Shared ℕ
ended = elim (perform (finish_op 2) gone) [ none ↦ gone | some s ↦ s ]

ended-Reachable : Reachable ended
unfolding perform push_task new Pool.new AtomicWaker.new push alloc link_all enqueue_task link
    len_before spin_next_all enqueue swap_head link_prev round dequeue_task dequeue dequeue_from
    dequeue_last start unlink_all unlink put_back increment_counter waker_vtable clone_arc_raw
    increase_refcount wake_by_ref_arc_raw wake_by_ref upgrade finish_wake drop_queue_ref wake_task
    AtomicWaker.take release release_task drop_arc drop_pool clear_head_all clear_queue
ended-Reachable = step (finish_op 2) gone-Reachable refl refl

dropped-strong_example :
    (ended.counted.strong 2 ≡ ended.wakers 2)
    × (is_some (ended.counted.pool.future 2) ≡ false)
    × (ended.counted.refs ≡ 0)
unfolding perform push_task new Pool.new AtomicWaker.new push alloc link_all enqueue_task link
    len_before spin_next_all enqueue swap_head link_prev round dequeue_task dequeue dequeue_from
    dequeue_last start unlink_all unlink put_back increment_counter waker_vtable clone_arc_raw
    increase_refcount wake_by_ref_arc_raw wake_by_ref upgrade finish_wake drop_queue_ref wake_task
    AtomicWaker.take release release_task drop_arc drop_pool clear_head_all clear_queue
dropped-strong_example = dropped-strong ended 2 ended-Reachable (omega arith) refl refl
