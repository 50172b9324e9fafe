-- ===== src/WakerRef/Freed.antt =====
-- The counts in all states that uses of the references of src/futures/waker_ref.rs reach.
use cosync.Base.{◌+◌, ◌≤◌, ◌≡◌, refl, subst, false, some, [], arith, Ptr, is_some, length, ap, ◌∙◌}
use cosync.FuturesUnordered.Valid.{new-IsPool}
use cosync.WakerRef.{new}
use cosync.WakerRef.Counts.{bit}
use cosync.WakerRef.Uses.{
  dropped, Shared, Op, push_op, clone_op, wake_op, wake_by_ref_op, drop_op, upgrade_op, finish_op,
  round_op, increment_op, pending_op, release_op, clear_op, drop_pool_op, perform, IsAllowed,
  Reachable, start, step,
}
use cosync.WakerRef.Seen.{In, Stands, see}
use cosync.WakerRef.Performed.{
  Performed, clone_op-Performed, wake_by_ref_op-Performed, wake_op-Performed, drop_op-Performed,
  push_op-Performed, upgrade_op-Performed, finish_op-Performed,
}
use cosync.WakerRef.Owner.{
  increment_op-Performed, round_op-Performed, pending_op-Performed, release_op-Performed,
  clear_op-Performed, drop_pool_op-Performed,
}

module _ {Fut : Type 0} where
  perform-Performed : (o : Op Fut) (s : Shared Fut) → In s → IsAllowed o s → Performed o s
  perform-Performed (push_op f) s i h = push_op-Performed s i f h
  perform-Performed (clone_op t) s i h = clone_op-Performed s i t h
  perform-Performed (wake_op t) s i h = wake_op-Performed s i t h
  perform-Performed (wake_by_ref_op t) s i h = wake_by_ref_op-Performed s i t h
  perform-Performed (drop_op t) s i h = drop_op-Performed s i t h
  perform-Performed (upgrade_op t) s i h = upgrade_op-Performed s i t h
  perform-Performed (finish_op t) s i h = finish_op-Performed s i t h
  perform-Performed increment_op s i h =
      increment_op-Performed s.flying s.counted s.wakers (i.1) s.phase (i.0) h
  perform-Performed round_op s i h =
      round_op-Performed s.flying s.counted s.wakers (i.1) s.phase (i.0) h
  perform-Performed (pending_op f) s i h =
      pending_op-Performed s.flying s.counted s.wakers (i.1) f s.phase (i.0) h
  perform-Performed release_op s i h =
      release_op-Performed s.flying s.counted s.wakers (i.1) s.phase (i.0) h
  perform-Performed clear_op s i h =
      clear_op-Performed s.flying s.counted s.wakers (i.1) s.phase (i.0) h
  perform-Performed drop_pool_op s i h =
      drop_pool_op-Performed s.flying s.counted s.wakers (i.1) s.phase (i.0) h

  Reachable-In : (s : Shared Fut) → Reachable s → In s
  unfolding new
  Reachable-In s start = (
    (
      (
        [],
        [],
        record { pool = new-IsPool; count = λ t a. refl; owned = λ t o. absurd (omega (arith, o)) },
      ),
      refl,
    ),
    λ t o. cc,
  )
  Reachable-In s (step {s = s0} o r h e) =
      let k = perform-Performed o s0 (Reachable-In s0 r) h in
      let same : k.after ≡ s = ground (arith, e, k.performs) in subst (λ z. In z) same k.inside

  -- In every state that the owner of the pool and any number of wakers reach by whole calls, one
  -- after the other, where a waker is used only before it is dropped and a wake may also have
  -- upgraded its reference to the queue before other calls and end after them, each such call uses
  -- no freed memory, fails no assertion and does not abort on a future left in a dropped task, and
  -- the state after it is reached too. No call comes between the two writes of `enqueue`.
  pub Reachable-Performs :
      (s : Shared Fut) (o : Op Fut)
      → Reachable s
      → IsAllowed o s
      → (s' : Shared Fut) × (perform o s ≡ some s') × Reachable s'
  Reachable-Performs s o r h =
      let k = perform-Performed o s (Reachable-In s r) h in
      (k.after, k.performs, step o r h k.performs)

  -- In every state that the owner of the pool and any number of wakers reach the strong count of a
  -- task is at least the number of its wakers, and one more while the task holds a future; it is
  -- never more than the number of its wakers and one.
  pub Reachable-strong :
      (s : Shared Fut) (t : Ptr)
      → Reachable s
      → 2 ≤ t
      → (s.wakers t + bit (is_some (s.counted.pool.future t)) ≤ s.counted.strong t)
        × (s.counted.strong t ≤ s.wakers t + 1)
  Reachable-strong s t r a =
      let k = see s.flying s.wakers s.counted s.phase ((Reachable-In s r).0) in
      ground (arith, k.counted.count t a, k.counted.pool.futures t)

  gone :
      (s : Shared Fut) (t : Ptr)
      → Stands s.flying s.wakers dropped s.counted
      → 2 ≤ t
      → s.flying ≡ []
      → (s.counted.strong t ≡ s.wakers t)
        × (is_some (s.counted.pool.future t) ≡ false)
        × (s.counted.refs ≡ 0)
  gone s t (xs, v, d, z) a n =
      let none_flies : length s.flying ≡ 0 = ap length n in
      let empty : xs ≡ [] = z none_flies in
      (ground (arith, v.count t a, empty), v.pool.futures t, d ∙ none_flies)

  -- In every state after the drop of the pool that its owner and any number of wakers reach, in
  -- which no wake is under way, the strong count of every task is the number of its wakers, so that
  -- nothing else keeps it, the task holds no future, and the ready to run queue is freed. A wake may
  -- have been under way during the drop.
  pub dropped-strong :
      (s : Shared Fut) (t : Ptr)
      → Reachable s
      → 2 ≤ t
      → s.phase ≡ dropped
      → s.flying ≡ []
      → (s.counted.strong t ≡ s.wakers t)
        × (is_some (s.counted.pool.future t) ≡ false)
        × (s.counted.refs ≡ 0)
  dropped-strong s t r a e n =
      gone s t (subst (λ ph. Stands s.flying s.wakers ph s.counted) e ((Reachable-In s r).0)) a n
