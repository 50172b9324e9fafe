-- ===== src/WakerRef/Performed.antt =====
-- The uses of a waker of src/futures/waker_ref.rs and src/futures/task.rs, and `push`.
use cosync.Base.{
  ◌+◌, ◌-◌, ◌≤◌, ◌≡◌, ◌⊎◌, refl, some, ◌∷◌, erase, ◌==◌, Bool-cases, arith, Ptr, update, inl, inr,
}
use cosync.WakerRef.{waker_vtable, upgrade}
use cosync.WakerRef.Counts.{
  held_used, IsHeld, clone-IsCounted, wake_by_ref_arc-IsCounted, wake_arc-IsCounted,
  drop_arc_raw-IsCounted,
}
use cosync.WakerRef.Flying.{upgraded, upgraded-Stands, finished-Stands, finished-Borrows}
use cosync.WakerRef.Uses.{
  polling, Shared, Op, push_op, clone_op, wake_op, wake_by_ref_op, drop_op, upgrade_op, finish_op,
  perform, IsAllowed,
}
use cosync.WakerRef.Seen.{In, Seen, see, push-In}

pub record Performed {Fut : Type 0} (o : Op Fut) (s : Shared Fut) : Type 0 where
  pub after : Shared Fut
  pub performs : perform o s ≡ some after
  pub inside : In after

module _ {Fut : Type 0} (s : Shared Fut) (i : In s) where
  held :
      (t : Ptr) (k : Seen s.flying s.wakers s.phase s.counted)
      → (1 ≤ s.wakers t) ⊎ (s.phase ≡ polling t)
      → IsHeld s.wakers k.live t
  held t k (inl o) = inl o
  held t k (inr e) = inr (k.polled t e)

  pub clone_op-Performed : (t : Ptr) → IsAllowed (clone_op t) s → Performed (clone_op t) s
  unfolding perform waker_vtable
  clone_op-Performed t h =
      let k = see s.flying s.wakers s.counted s.phase (i.0) in
      let (c, e, v, p, a) =
        clone-IsCounted s.counted s.wakers k.queue k.tasks k.live k.counted t (held t k h) in
      record {
        after = record s { counted = c; wakers = update s.wakers t (s.wakers t + 1) };
        performs = rw e refl;
        inside = (k.back c _ k.queue v a (λ d. refl), λ q o. ground (arith, i.1 q o));
      }

  pub wake_by_ref_op-Performed :
      (t : Ptr) → IsAllowed (wake_by_ref_op t) s → Performed (wake_by_ref_op t) s
  unfolding perform waker_vtable
  wake_by_ref_op-Performed t h =
      let k = see s.flying s.wakers s.counted s.phase (i.0) in
      let (c, e, v, a) =
        wake_by_ref_arc-IsCounted s.counted s.wakers k.queue k.tasks k.live k.counted t
          (held t k h) in
      record {
        after = record s { counted = c };
        performs = rw e refl;
        inside = (k.back c s.wakers _ v a (λ d. ground (arith, d)), i.1);
      }

  pub wake_op-Performed : (t : Ptr) → IsAllowed (wake_op t) s → Performed (wake_op t) s
  unfolding perform waker_vtable
  wake_op-Performed t h =
      let k = see s.flying s.wakers s.counted s.phase (i.0) in
      let (c, e, v, a) =
        wake_arc-IsCounted s.counted s.wakers k.queue k.tasks k.live k.counted t (s.wakers t - 1)
          (omega (arith, h)) in
      record {
        after = record s { counted = c; wakers = update s.wakers t (s.wakers t - 1) };
        performs = rw e refl;
        inside = (k.back c _ _ v a (λ d. ground (arith, d)), λ q o. ground (arith, i.1 q o, h));
      }

  pub drop_op-Performed : (t : Ptr) → IsAllowed (drop_op t) s → Performed (drop_op t) s
  unfolding perform waker_vtable
  drop_op-Performed t h =
      let k = see s.flying s.wakers s.counted s.phase (i.0) in
      let (c, e, v, p, a) =
        drop_arc_raw-IsCounted s.counted s.wakers k.queue k.tasks k.live k.counted t
          (s.wakers t - 1) (omega (arith, h)) in
      record {
        after = record s { counted = c; wakers = update s.wakers t (s.wakers t - 1) };
        performs = rw e refl;
        inside = (k.back c _ k.queue v a (λ d. refl), λ q o. ground (arith, i.1 q o, h));
      }

  pub push_op-Performed : (f : Fut) → IsAllowed (push_op f) s → Performed (push_op f) s
  unfolding perform
  push_op-Performed f h =
      let (c, e, v) = push-In s.flying s.wakers s.counted s.phase f (i.0) h in
      record { after = record s { counted = c }; performs = rw e refl; inside = (v, i.1) }

-- The two steps of a wake under way.
module _ {Fut : Type 0} (s : Shared Fut) (i : In s) (t : Ptr) where
  pub upgrade_op-Performed : IsAllowed (upgrade_op t) s → Performed (upgrade_op t) s
  unfolding perform upgrade
  upgrade_op-Performed h =
      let k = see s.flying s.wakers s.counted s.phase (i.0) in
      let (a, b, n) = held_used s.counted s.wakers k.queue k.tasks k.live k.counted t (inl h) in
      elim (Bool-cases (s.counted.refs == 0)) [
        | inl e ↦ record { after = s; performs = ground (arith, e, n); inside = i }
        | inr e ↦ record {
          after = record s { counted = upgraded s.counted; flying = t ∷ s.flying };
          performs = ground (arith, e, n);
          inside = (
            upgraded-Stands s.flying s.wakers s.counted t s.phase (i.0) (ground (arith, e)),
            λ q o. ground (arith, i.1 q, o, h),
          );
        }
      ]

  pub finish_op-Performed : IsAllowed (finish_op t) s → Performed (finish_op t) s
  unfolding perform
  finish_op-Performed h =
      let k = see s.flying s.wakers s.counted s.phase (i.0) in
      let (a, b, n) =
        held_used s.counted s.wakers k.queue k.tasks k.live k.counted t (inl (i.1 t h)) in
      let (c, e, v) = finished-Stands s.flying s.wakers s.counted t h s.phase (i.0) in
      record {
        after = record s { counted = c; flying = erase t s.flying };
        performs = ground (arith, e, n);
        inside = (v, finished-Borrows s.flying s.wakers t (i.1));
      }
