-- ===== src/WakerRef/Counts.antt =====
-- The counts of src/futures/waker_ref.rs and src/futures/task.rs: what every reference belongs to.
use cosync.Base.{
  ℕ, suc, ◌+◌, ◌≤◌, ◌<◌, ◌≡◌, refl, subst, Bool, true, false, ◌||◌, some, List, [], ◌∷◌, ◌++◌, ◌∙◌,
  Option, ◌⊎◌, if◌then◌else◌, has-append, arith, Ptr, has, update, ◌==◌, Option-cases, Bool-cases,
  inl, inr,
}
use cosync.FuturesUnordered.{FuturesUnordered, wake_task}
use cosync.FuturesUnordered.Valid.{IsPool}
use cosync.FuturesUnordered.Wakes.{woken, wake_task-IsPool, push-IsPool}
use cosync.WakerRef.{
  Counted, with_pool, with_count, drop_arc, increase_refcount, clone_arc_raw, wake, wake_by_ref,
  upgrade, finish_wake, drop_queue_ref, wake_arc_raw, wake_by_ref_arc_raw, drop_arc_raw, push_task,
}

abbrev pub bit : Bool → ℕ
bit true = 1
bit false = 0

-- Every waker has a reference to its task, and the pool has one to every task that holds a future or
-- waits in the ready to run queue. `wakers` counts the wakers that are not dropped yet.
pub record IsCounted {Fut : Type 0} (s : Counted Fut) (wakers : Ptr → ℕ) (xs ys live : List Ptr)
    : Type 0 where
  pub pool : IsPool s.pool xs ys live
  pub count : (t : Ptr) → 2 ≤ t → s.strong t ≡ wakers t + bit (has t xs || has t live)
  pub owned : (t : Ptr) → 1 ≤ wakers t → (2 ≤ t) × (t < s.pool.fresh)

module _ {Fut : Type 0} (s : Counted Fut) (wakers : Ptr → ℕ) (xs ys live : List Ptr) where
  -- There is one reference more to `t`, which is dropped.
  pub drop_arc-IsCounted :
      (t : Ptr)
      → 2 ≤ t
      → IsPool s.pool xs ys live
      → ((q : Ptr) → 2 ≤ q → s.strong q ≡ wakers q + bit (has q xs || has q live) + bit (q == t))
      → ((q : Ptr) → 1 ≤ wakers q → (2 ≤ q) × (q < s.pool.fresh))
      → (n : ℕ) × (drop_arc t s ≡ some (with_count s t n))
        × IsCounted (with_count s t n) wakers xs ys live
  unfolding drop_arc
  drop_arc-IsCounted t a v c o =
      let n = wakers t + bit (has t xs || has t live) in
      let all : s.strong t ≡ suc n = ground (arith, c t a) in
      (
        n,
        rw (all, drop_arc)
            (elim (Option-cases (s.pool.future t)) [
              | inl e ↦ ground (arith, e)
              | inr (f, e) ↦ ground (arith, e, v.futures t)
            ]),
        record { pool = v; count = λ q b. ground (arith, c q b); owned = o },
      )

-- The pool may be asked for this task: a waker has a reference to it, or the pool itself.
abbrev pub IsHeld : (Ptr → ℕ) → List Ptr → Ptr → Type 0
IsHeld wakers live t = (1 ≤ wakers t) ⊎ (has t live ≡ true)

-- The ready to run queue after a wake.
abbrev pub after_wake : {Fut : Type 0} → Counted Fut → List Ptr → Ptr → List Ptr
after_wake s xs t = if s.refs == 0 then xs else woken s.pool xs t

module _ {Fut : Type 0} (s : Counted Fut) (wakers : Ptr → ℕ) (xs ys live : List Ptr)
    (v : IsCounted s wakers xs ys live) (t : Ptr) where
  pub held_used : IsHeld wakers live t → (2 ≤ t) × (t < s.pool.fresh) × (1 ≤ s.strong t)
  held_used (inl o) = let u = v.owned t o in (u.0, u.1, omega (arith, v.count t (u.0)))
  held_used (inr i) = let u = v.pool.live_used t i in (u.0, u.1, ground (arith, v.count t (u.0)))

  pub clone-IsCounted :
      IsHeld wakers live t
      → (s' : Counted Fut) × (clone_arc_raw t s ≡ some (t, s'))
        × IsCounted s' (update wakers t (wakers t + 1)) xs ys live
        × (s'.pool ≡ s.pool)
        × (s'.refs ≡ s.refs)
  unfolding clone_arc_raw increase_refcount
  clone-IsCounted h =
      let (a, b, c) = held_used h in
      (
        with_count s t (s.strong t + 1),
        ground arith,
        record {
          pool = v.pool;
          count = λ q b. ground (arith, v.count q b);
          owned = λ q o. ground (arith, v.owned q);
        },
        refl,
        refl,
      )

  pub with_refs-IsCounted : (k : ℕ) → IsCounted (record s { refs = k }) wakers xs ys live
  with_refs-IsCounted k = record { pool = v.pool; count = v.count; owned = v.owned }

  -- A wake with an upgraded reference, without the drop of that.
  pub woken-IsCounted :
      (r : Option ℕ) × (p : FuturesUnordered Fut) × (wake_task s.pool t ≡ some (r, p))
      × IsCounted (with_pool s p) wakers (woken s.pool xs t) ys live
      × (p.fresh ≡ s.pool.fresh)
  woken-IsCounted =
      let (w, p, r, k, same, m) = wake_task-IsPool s.pool xs ys live v.pool t in
      (
        w,
        p,
        r,
        record {
          pool = k;
          count = λ q b. ground (arith, v.count q b, v.pool.marked t, has-append q xs (t ∷ []));
          owned = λ q o. ground (arith, v.owned q o, same.fresh);
        },
        same.fresh,
      )

  wake_by_ref-IsCounted :
      (s' : Counted Fut) × (wake_by_ref t s ≡ some s')
      × IsCounted s' wakers (after_wake s xs t) ys live
      × (s'.strong ≡ s.strong)
      × (s'.refs ≡ s.refs)
      × (s'.pool.fresh ≡ s.pool.fresh)
  unfolding wake_by_ref upgrade finish_wake drop_queue_ref
  wake_by_ref-IsCounted = elim (Bool-cases (s.refs == 0)) [
    | inl e ↦
        let still : xs ≡ after_wake s xs t = ground (arith, e) in
        (
          s,
          ground (arith, e),
          subst (λ zs. IsCounted s wakers zs ys live) still v,
          refl,
          refl,
          refl,
        )
    | inr e ↦
        let (w, p, r, v', m) = woken-IsCounted in
        let then_woken : woken s.pool xs t ≡ after_wake s xs t = ground (arith, e) in
        (
          with_pool s p,
          ground (arith, e, r),
          subst (λ zs. IsCounted (with_pool s p) wakers zs ys live) then_woken v',
          refl,
          refl,
          m,
        )
  ]

  pub wake_by_ref_arc-IsCounted :
      IsHeld wakers live t
      → (s' : Counted Fut) × (wake_by_ref_arc_raw t s ≡ some s')
        × IsCounted s' wakers (after_wake s xs t) ys live
        × (s'.refs ≡ s.refs)
  unfolding wake_by_ref_arc_raw
  wake_by_ref_arc-IsCounted h =
      let (a, b, c) = held_used h in
      let (s', e, v', es, ea, ef) = wake_by_ref-IsCounted in (s', ground (arith, e), v', ea)

  pub drop_arc_raw-IsCounted :
      (n : ℕ)
      → wakers t ≡ suc n
      → (s' : Counted Fut) × (drop_arc_raw t s ≡ some s')
        × IsCounted s' (update wakers t n) xs ys live
        × (s'.pool ≡ s.pool)
        × (s'.refs ≡ s.refs)
  unfolding drop_arc_raw
  drop_arc_raw-IsCounted n h =
      let (a, b) = v.owned t (omega arith) in
      let (m, e, v') =
        drop_arc-IsCounted s (update wakers t n) xs ys live t a v.pool
          (λ q b. ground (arith, v.count q b)) (λ q o. ground (arith, v.owned q)) in
      (with_count s t m, e, v', refl, refl)

module _ {Fut : Type 0} (s : Counted Fut) (wakers : Ptr → ℕ) (xs ys live : List Ptr)
    (v : IsCounted s wakers xs ys live) (t : Ptr) where
  -- A waker that wakes by value is gone.
  pub wake_arc-IsCounted :
      (n : ℕ)
      → wakers t ≡ suc n
      → (s' : Counted Fut) × (wake_arc_raw t s ≡ some s')
        × IsCounted s' (update wakers t n) (after_wake s xs t) ys live
        × (s'.refs ≡ s.refs)
  unfolding wake_arc_raw wake drop_arc_raw
  wake_arc-IsCounted n h =
      let (a, b, c) = held_used s wakers xs ys live v t (inl (omega arith)) in
      let (s1, e1, v1, es, ea, ef) = wake_by_ref-IsCounted s wakers xs ys live v t in
      let (s2, e2, v2, ep, ea2) =
        drop_arc_raw-IsCounted s1 wakers (after_wake s xs t) ys live v1 t n h in
      (s2, ground (arith, e1, e2), v2, ea2 ∙ ea)

module _ {Fut : Type 0} (s : Counted Fut) (wakers : Ptr → ℕ) (xs ys live : List Ptr)
    (v : IsCounted s wakers xs ys live) where
  pub push_task-IsCounted :
      (f : Fut)
      → (s' : Counted Fut) × (push_task f s ≡ some s')
        × IsCounted s' wakers (xs ++ s.pool.fresh ∷ []) (s.pool.fresh ∷ ys) (s.pool.fresh ∷ live)
        × (s'.refs ≡ s.refs)
  unfolding push_task
  push_task-IsCounted f =
      let (p, e, v', ef, el, ec, en) = push-IsPool s.pool xs ys live v.pool f in
      let new = s.pool.fresh in
      (
        with_count (with_pool s p) new 1,
        rw e refl,
        record {
          pool = v';
          count = λ q b. ground (arith, v.count q b, v.owned q, has-append q xs (new ∷ []));
          owned = λ q o. ground (arith, v.owned q o, en);
        },
        refl,
      )
