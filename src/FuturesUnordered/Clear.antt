-- ===== src/FuturesUnordered/Clear.antt =====
-- `clear` and the invariant of the pool.
use cosync.Base.{
  ℕ, zero, suc, ◌<◌, ◌≡◌, ◌≢◌, ap, subst, ◌∙◌, refl, false, ◌&&◌, not, some, List, [], ◌∷◌, arith,
  Ptr, null, has, erase, length, ◌==◌,
}
use cosync.AllTasks.Linked.{IsAll}
use cosync.AllTasks.Edits.{unlink-erase}
use cosync.FuturesUnordered.{
  FuturesUnordered, unlink_all, release_task, clear_head_all, clear_queue, clear, cleared,
}
use cosync.FuturesUnordered.Valid.{IsPool}
use cosync.FuturesUnordered.Turns.{
  released, release-released, release-IsPool, with_queue, with_queue-IsPool, dequeue_task_lem,
  discard-IsPool,
}

module _ {Fut : Type 0} where
  pub unlink_first-IsPool :
      (p : FuturesUnordered Fut) (xs : List Ptr) (t : Ptr) (ys : List Ptr)
      → IsPool p xs (t ∷ ys) (t ∷ ys)
      → (p1 : FuturesUnordered Fut) × (unlink_all p t ≡ some p1)
        × IsPool p1 xs ys (t ∷ ys)
        × (p1.fresh ≡ p.fresh)
  unfolding unlink_all
  unlink_first-IsPool p xs t ys v =
      let (a, e, va) = unlink-erase p.all (t ∷ ys) t v.tasks (ground arith) in
      let gone : erase t (t ∷ ys) ≡ ys = ground arith in
      (
        record p { all = a },
        rw e,
        record {
          waiting = v.waiting;
          tasks = subst (λ zs. IsAll a zs) gone va;
          linked_live = λ s i. ground arith;
          futures = v.futures;
          marked = v.marked;
          waiting_used = v.waiting_used;
          live_used = v.live_used;
          room = v.room;
        },
        refl,
      )

  pub first_only :
      (p : FuturesUnordered Fut) (xs : List Ptr) (t : Ptr) (ys : List Ptr)
      → IsPool p xs (t ∷ ys) (t ∷ ys)
      → (has t ys ≡ false) × ((s : Ptr) → has s ys ≡ (not (s == t) && has s (t ∷ ys)))
  first_only p xs t ys v =
      let apart : has t ys ≡ false = v.tasks.linked.4 in (apart, λ s. ground arith)

  -- Unlinking the first task and dropping its future.
  unlink_first :
      (p : FuturesUnordered Fut) (xs : List Ptr) (t : Ptr) (ys : List Ptr)
      → IsPool p xs (t ∷ ys) (t ∷ ys)
      → (p1 : FuturesUnordered Fut) × (unlink_all p t ≡ some p1)
        × (release_task p1 t ≡ some (released p1 t))
        × IsPool (released p1 t) xs ys ys
  unlink_first p xs t ys v =
      let (p1, e, v1, f) = unlink_first-IsPool p xs t ys v in
      let (apart, only) = first_only p xs t ys v in
      (
        p1,
        e,
        release-released p1 t xs ys (t ∷ ys) v1 (ground arith) apart only,
        release-IsPool p1 t xs ys (t ∷ ys) v1 (ground arith) apart only,
      )

  clear_head_all-step :
      (n : ℕ) (p p1 p2 : FuturesUnordered Fut)
      → p.all.head_all ≢ null
      → unlink_all p p.all.head_all ≡ some p1
      → release_task p1 p.all.head_all ≡ some p2
      → clear_head_all (suc n) p ≡ clear_head_all n p2
  unfolding clear_head_all
  clear_head_all-step n p p1 p2 h e1 e2 = ground (arith, e1, e2)

  clear_head_all_lem :
      (n : ℕ) (p : FuturesUnordered Fut) (xs ys : List Ptr)
      → IsPool p xs ys ys
      → length ys < n
      → (p' : FuturesUnordered Fut) × (clear_head_all n p ≡ some p') × IsPool p' xs [] []
  unfolding clear_head_all
  clear_head_all_lem zero p xs ys v h = absurd (omega arith)
  clear_head_all_lem (suc n) p xs [] v h = (p, ground (arith, v.tasks.linked), v)
  clear_head_all_lem (suc n) p xs (t ∷ ys) v h =
      let (p1, e1, e2, v2) = unlink_first p xs t ys v in
      let (p', e, v') = clear_head_all_lem n (released p1 t) xs ys v2 (omega arith) in
      let head = v.tasks.linked.0 in
      (
        p',
        clear_head_all-step n p p1 (released p1 t) (ground (arith, v.tasks.linked))
              (ap (λ s. unlink_all p s) head ∙ e1) (ap (λ s. release_task p1 s) head ∙ e2)
            ∙ e,
        v',
      )

  clear_queue_lem :
      (n : ℕ) (p : FuturesUnordered Fut) (xs : List Ptr)
      → IsPool p xs [] []
      → length xs < n
      → (p' : FuturesUnordered Fut) × (clear_queue n p ≡ some (cleared p')) × IsPool p' [] [] []
  unfolding clear_queue
  clear_queue_lem zero p xs v h = absurd (omega arith)
  clear_queue_lem (suc n) p [] v h =
      let (q, e, k) = dequeue_task_lem p [] [] [] v in
      (with_queue p q, rw e, with_queue-IsPool p [] [] [] v q k)
  clear_queue_lem (suc n) p (t ∷ xs) v h =
      let (q, e, k) = dequeue_task_lem p (t ∷ xs) [] [] v in
      let v1 = discard-IsPool p t xs [] v q k refl in
      let (p', r, v') = clear_queue_lem n (with_queue p q) xs v1 (omega arith) in (p', rw e r, v')

  -- `clear` of a valid pool returns, with more fuel than there are tasks in the pool and in the
  -- queue: it unlinks and drops every future, empties the ready to run queue, and leaves a valid
  -- pool with no task.
  pub clear-IsPool :
      (n : ℕ) (p : FuturesUnordered Fut) (xs ys : List Ptr)
      → IsPool p xs ys ys
      → length xs < n
      → length ys < n
      → (p' : FuturesUnordered Fut) × (clear n p ≡ some p') × IsPool p' [] [] []
  unfolding clear
  clear-IsPool n p xs ys v hx hy =
      let (p1, e1, v1) = clear_head_all_lem n p xs ys v hy in
      let (p2, e2, v2) = clear_queue_lem n p1 xs v1 hx in (p2, rw e1 (rw e2 refl), v2)
