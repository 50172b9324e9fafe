-- ===== src/WakerRef/Upgrades.antt =====
-- The references to the ready to run queue that `Task::wake_by_ref` of src/futures/task.rs upgrades,
-- and the drop of src/futures/futures_unordered.rs.
use cosync.Base.{
  ℕ, zero, suc, ◌<◌, ◌≡◌, refl, ◌∙◌, some, List, [], arith, Ptr, length, length-bound,
}
use cosync.ReadyToRunQueue.Contents.{Holds-IsDistinct}
use cosync.FuturesUnordered.Wakes.{woken}
use cosync.WakerRef.{Counted, with_pool, clear_queue, drop_pool, drop_queue_ref, finish_wake}
use cosync.WakerRef.Counts.{IsCounted, woken-IsCounted, with_refs-IsCounted}
use cosync.WakerRef.Drops.{clear_head_all-IsCounted, clear_queue-IsCounted}

module _ {Fut : Type 0} (s : Counted Fut) (wakers : Ptr → ℕ) (xs ys live : List Ptr)
    (v : IsCounted s wakers xs ys live) where
  -- Fewer tasks wait than there are addresses in use.
  pub queue-fits : length xs < suc s.pool.fresh
  queue-fits = omega (
    arith,
    length-bound s.pool.fresh xs (Holds-IsDistinct _ _ v.pool.waiting)
        (λ t i. (v.pool.waiting_used t i).1),
  )

module _ {Fut : Type 0} (wakers : Ptr → ℕ) where
  drop_queue_ref-last :
      (s s1 : Counted Fut)
      → s.refs ≡ 1
      → clear_queue (suc s.pool.fresh) s ≡ some s1
      → drop_queue_ref s ≡ some (record s1 { refs = 0 })
  unfolding drop_queue_ref
  drop_queue_ref-last s s1 h e = ground (arith, h, e)

  drop_queue_ref-more :
      (s : Counted Fut) (k : ℕ)
      → s.refs ≡ suc (suc k)
      → drop_queue_ref s ≡ some (record s { refs = suc k })
  unfolding drop_queue_ref
  drop_queue_ref-more s k h = ground (arith, h)

  -- After the drop of the pool. The last reference clears the queue.
  drop_queue_ref-IsCounted :
      (s : Counted Fut) (xs : List Ptr) (m : ℕ)
      → IsCounted s wakers xs [] []
      → s.refs ≡ suc m
      → (s' : Counted Fut) × (xs' : List Ptr) × (drop_queue_ref s ≡ some s')
        × IsCounted s' wakers xs' [] []
        × (s'.refs ≡ m)
        × (m ≡ 0 → xs' ≡ [])
  drop_queue_ref-IsCounted s xs zero v h =
      let (s1, e, v1, a) =
        clear_queue-IsCounted wakers (suc s.pool.fresh) s xs v (queue-fits s wakers xs [] [] v) in
      (
        record s1 { refs = 0 },
        [],
        drop_queue_ref-last s s1 h e,
        with_refs-IsCounted s1 wakers [] [] [] v1 0 0,
        refl,
        λ d. refl,
      )
  drop_queue_ref-IsCounted s xs (suc k) v h = (
    record s { refs = suc k },
    xs,
    drop_queue_ref-more s k h,
    with_refs-IsCounted s wakers xs [] [] v 0 (suc k),
    refl,
    λ d. absurd (omega (arith, d)),
  )

  -- The end of a wake that upgraded its reference before the drop of the pool.
  pub finish_late-IsCounted :
      (s : Counted Fut) (t : Ptr) (xs : List Ptr) (m : ℕ)
      → IsCounted s wakers xs [] []
      → s.refs ≡ suc m
      → (s' : Counted Fut) × (xs' : List Ptr) × (finish_wake t s ≡ some s')
        × IsCounted s' wakers xs' [] []
        × (s'.refs ≡ m)
        × (m ≡ 0 → xs' ≡ [])
  unfolding finish_wake
  finish_late-IsCounted s t xs m v h =
      let (w, p, r, v1, f) = woken-IsCounted s wakers xs [] [] v t in
      let (s', xs', e, v', a, z) =
        drop_queue_ref-IsCounted (with_pool s p) (woken s.pool xs t) m v1 h in
      (s', xs', rw r e, v', a, z)

  -- The end of a wake while the pool is there.
  pub finish_wake-IsCounted :
      (s : Counted Fut) (t : Ptr) (xs ys live : List Ptr) (m : ℕ)
      → IsCounted s wakers xs ys live
      → s.refs ≡ suc (suc m)
      → (s' : Counted Fut) × (finish_wake t s ≡ some s')
        × IsCounted s' wakers (woken s.pool xs t) ys live
        × (s'.refs ≡ suc m)
  unfolding finish_wake
  finish_wake-IsCounted s t xs ys live m v h =
      let (w, p, r, v1, f) = woken-IsCounted s wakers xs ys live v t in
      (
        record (with_pool s p) { refs = suc m },
        rw r (drop_queue_ref-more (with_pool s p) m h),
        with_refs-IsCounted (with_pool s p) wakers (woken s.pool xs t) ys live v1 0 (suc m),
        refl,
      )

  pub drop_pool-IsCounted :
      (n : ℕ) (s : Counted Fut) (xs ys : List Ptr) (m : ℕ)
      → IsCounted s wakers xs ys ys
      → length ys < n
      → s.refs ≡ suc m
      → (s' : Counted Fut) × (xs' : List Ptr) × (drop_pool n s ≡ some s')
        × IsCounted s' wakers xs' [] []
        × (s'.refs ≡ m)
        × (m ≡ 0 → xs' ≡ [])
  unfolding drop_pool
  drop_pool-IsCounted n s xs ys m v hy h =
      let (s1, e1, v1, a1) = clear_head_all-IsCounted wakers n s xs ys v hy in
      let (s', xs', e2, v2, a2, z) = drop_queue_ref-IsCounted s1 xs m v1 (a1 ∙ h) in
      (s', xs', rw e1 e2, v2, a2, z)
