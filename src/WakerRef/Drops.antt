-- ===== src/WakerRef/Drops.antt =====
-- The counts in `clear` and in the drop of `FuturesUnordered` of src/futures/futures_unordered.rs.
use cosync.Base.{
  ℕ, zero, suc, ◌<◌, ◌≡◌, ◌≢◌, refl, ◌∙◌, some, List, [], ◌∷◌, arith, Ptr, null, length,
}
use cosync.ReadyToRunQueue.Contents.{Holds-IsDistinct}
use cosync.FuturesUnordered.{FuturesUnordered, unlink_all}
use cosync.FuturesUnordered.Turns.{with_queue, with_queue-IsPool, dequeue_task_lem, discard-IsPool}
use cosync.FuturesUnordered.Clear.{unlink_first-IsPool, first_only}
use cosync.WakerRef.{Counted, with_pool, with_count, release, clear_head_all, clear_queue, clear}
use cosync.WakerRef.Counts.{IsCounted, drop_arc-IsCounted}
use cosync.WakerRef.Rounds.{same-IsCounted, release-IsCounted}

module _ {Fut : Type 0} (wakers : Ptr → ℕ) where
  clear_head_all-step :
      (n : ℕ) (s s1 : Counted Fut) (p : FuturesUnordered Fut) (t : Ptr)
      → s.pool.all.head_all ≡ t
      → t ≢ null
      → unlink_all s.pool t ≡ some p
      → release t (with_pool s p) ≡ some s1
      → clear_head_all (suc n) s ≡ clear_head_all n s1
  unfolding clear_head_all
  clear_head_all-step n s s1 p t h ne e1 e2 = ground (arith, h, e1, e2)

  pub clear_head_all-IsCounted :
      (n : ℕ) (s : Counted Fut) (xs ys : List Ptr)
      → IsCounted s wakers xs ys ys
      → length ys < n
      → (s' : Counted Fut) × (clear_head_all n s ≡ some s')
        × IsCounted s' wakers xs [] []
        × (s'.refs ≡ s.refs)
  unfolding clear_head_all
  clear_head_all-IsCounted zero s xs ys v h = absurd (omega arith)
  clear_head_all-IsCounted (suc n) s xs [] v h = (s, ground (arith, v.pool.tasks.linked), v, refl)
  clear_head_all-IsCounted (suc n) s xs (t ∷ ys) v h =
      let (p1, e1, v1, f) = unlink_first-IsPool s.pool xs t ys v.pool in
      let (apart, only) = first_only s.pool xs t ys v.pool in
      let (s1, e2, v2, a2) = release-IsCounted (with_pool s p1) wakers t (record {
        queue = xs;
        tasks = ys;
        live = t ∷ ys;
        counted = same-IsCounted s wakers p1 xs (t ∷ ys) (t ∷ ys) xs ys (t ∷ ys) v v1 (λ q. refl) f;
        holds = ground arith;
        unlinked = apart;
        only = only;
      }) in
      let (s', e, v', a) = clear_head_all-IsCounted n s1 xs ys v2 (omega arith) in
      let used = v.pool.live_used t (ground arith) in
      (
        s',
        clear_head_all-step n s s1 p1 t (v.pool.tasks.linked.0) (omega arith) e1 e2 ∙ e,
        v',
        a ∙ a2,
      )

  pub clear_queue-IsCounted :
      (n : ℕ) (s : Counted Fut) (xs : List Ptr)
      → IsCounted s wakers xs [] []
      → length xs < n
      → (s' : Counted Fut) × (clear_queue n s ≡ some s')
        × IsCounted s' wakers [] [] []
        × (s'.refs ≡ s.refs)
  unfolding clear_queue
  clear_queue-IsCounted zero s xs v h = absurd (omega arith)
  clear_queue-IsCounted (suc n) s [] v h =
      let (q, e, k) = dequeue_task_lem s.pool [] [] [] v.pool in
      let p = with_queue s.pool q in
      (
        with_pool s p,
        ground (arith, e),
        same-IsCounted s wakers p [] [] [] [] [] [] v (with_queue-IsPool s.pool [] [] [] v.pool q k)
            (λ t. refl) refl,
        refl,
      )
  clear_queue-IsCounted (suc n) s (t ∷ xs) v h =
      let (q, e, k) = dequeue_task_lem s.pool (t ∷ xs) [] [] v.pool in
      let s1 = with_pool s (with_queue s.pool q) in
      let used = v.pool.waiting_used t (ground arith) in
      let distinct = Holds-IsDistinct _ _ v.pool.waiting in
      let (c, d, v1) =
        drop_arc-IsCounted s1 wakers xs [] [] t (used.0)
          (discard-IsPool s.pool t xs [] v.pool q k refl)
          (λ p b. ground (arith, v.count p b, distinct.0)) v.owned in
      let (s', r, v', a) = clear_queue-IsCounted n (with_count s1 t c) xs v1 (omega arith) in
      (s', rw (e, d) r, v', a)

  pub clear-IsCounted :
      (n : ℕ) (s : Counted Fut) (xs ys : List Ptr)
      → IsCounted s wakers xs ys ys
      → length xs < n
      → length ys < n
      → (s' : Counted Fut) × (clear n s ≡ some s')
        × IsCounted s' wakers [] [] []
        × (s'.refs ≡ s.refs)
  unfolding clear
  clear-IsCounted n s xs ys v hx hy =
      let (s1, e1, v1, a1) = clear_head_all-IsCounted n s xs ys v hy in
      let (s2, e2, v2, a2) = clear_queue-IsCounted n s1 xs v1 hx in (s2, rw e1 e2, v2, a2 ∙ a1)
