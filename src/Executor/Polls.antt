-- ===== src/Executor/Polls.antt =====
-- One poll of a task and the invariant of the pool.
use mathlib.Core.List.{append-nil, append_assoc}
use cosync.Base.{
  ◌≡◌, refl, sym, ap, ◌∙◌, ℕ, subst, true, some, List, [], ◌∷◌, ◌++◌, ◌⊎◌, arith, Ptr, Bool-cases,
  Option-cases, inl, inr, ◌==◌, if◌then◌else◌,
}
use cosync.Notify.{wake_thread}
use cosync.FuturesUnordered.{FuturesUnordered}
use cosync.FuturesUnordered.Valid.{IsPool}
use cosync.FuturesUnordered.Wakes.{IsSame, woken, wake_task-IsPool}
use cosync.Executor.{
  World, Script, FutureObject, Run, ok, panic, fault, out_of_fuel, ready, pending, panics, waker,
  wake, get, put, queue, unqueue, exec, wake_cmd, input_get, raw_queue, remove_id, unqueue_task,
  handle_unqueue_task,
}

-- The pool after a poll: some tasks went to the end of the queue, and nothing else changed.
pub record Polled {Fut : Type 0} (p : FuturesUnordered Fut) (xs ys live : List Ptr)
    (p' : FuturesUnordered Fut) : Type 0 where
  pub same : IsSame p p'
  pub more : List Ptr
  pub valid : IsPool p' (xs ++ more) ys live

module _ {Fut D : Type 0} where
  abbrev pub Polls :
      {A : Type 0}
      → FuturesUnordered (FutureObject Fut)
      → (xs ys live : List Ptr) → Run Fut D A
      → Type 0
  Polls p xs ys live (ok r w) = Polled p xs ys live w.pool
  Polls p xs ys live (panic w) = Polled p xs ys live w.pool
  Polls p xs ys live fault = ⊥
  Polls p xs ys live out_of_fuel = ⊥

Polled-refl :
    {Fut : Type 0} (p : FuturesUnordered Fut) (xs ys live : List Ptr)
    → IsPool p xs ys live
    → Polled p xs ys live p
Polled-refl p xs ys live v = record {
  same = record {
    future = refl;
    last_polled = refl;
    all = refl;
    poll_counter = refl;
    fresh = refl;
  };
  more = [];
  valid = rw append-nil v;
}

Polled-trans :
    {Fut : Type 0} (p p' p'' : FuturesUnordered Fut) (xs ys live : List Ptr)
    (s : Polled p xs ys live p')
    → Polled p' (xs ++ s.more) ys live p''
    → Polled p xs ys live p''
Polled-trans p p' p'' xs ys live s r = record {
  same = record {
    future = r.same.future ∙ s.same.future;
    last_polled = r.same.last_polled ∙ s.same.last_polled;
    all = r.same.all ∙ s.same.all;
    poll_counter = r.same.poll_counter ∙ s.same.poll_counter;
    fresh = r.same.fresh ∙ s.same.fresh;
  };
  more = s.more ++ r.more;
  valid = subst (λ zs. IsPool p'' zs ys live) (append_assoc xs s.more r.more) r.valid;
}

module _ {Fut D : Type 0} where
  Polls-trans :
      {A : Type 0} (p p' : FuturesUnordered (FutureObject Fut)) (xs ys live : List Ptr)
      (s : Polled p xs ys live p') (r : Run Fut D A)
      → Polls p' (xs ++ s.more) ys live r
      → Polls p xs ys live r
  Polls-trans p p' xs ys live s (ok a w) r = Polled-trans p p' w.pool xs ys live s r
  Polls-trans p p' xs ys live s (panic w) r = Polled-trans p p' w.pool xs ys live s r
  Polls-trans p p' xs ys live s fault r = r
  Polls-trans p p' xs ys live s out_of_fuel r = r

  -- A wake, as a list of tasks that go to the end.
  pub wake_cmd_lem :
      (t : Ptr) (w : World Fut D) (xs ys live : List Ptr)
      → IsPool w.pool xs ys live
      → (w' : World Fut D) × (wake_cmd t w ≡ ok tt w')
        × Polled w.pool xs ys live w'.pool
        × (w'.pool.queued t ≡ true)
  unfolding wake_cmd
  wake_cmd_lem t w xs ys live v =
      let (r, p, e, v', same, q) = wake_task-IsPool w.pool xs ys live v t in
      (
        record w { pool = p; thread = wake_thread w.thread r },
        rw (e, wake_cmd),
        record {
          same = same;
          more = if w.pool.queued t then [] else t ∷ [];
          valid = subst (λ zs. IsPool p zs ys live) split v';
        },
        q,
      )
    where
      split : woken w.pool xs t ≡ xs ++ (if w.pool.queued t then [] else t ∷ [])
      split = elim (Bool-cases (w.pool.queued t)) [ inl e ↦ rw (e, append-nil) | inr e ↦ rw e ]

  pub input_get-cases :
      (w : World Fut D) → (input_get w ≡ panic w) ⊎ ((d : D) × (input_get w ≡ ok d w))
  unfolding input_get
  input_get-cases w = ground arith

  -- To unqueue a task changes nothing but the incoming queue.
  pub handle_unqueue_task_lem :
      (id : ℕ) (w : World Fut D)
      → (fs : List (FutureObject Fut)) × ((handle_unqueue_task id w).1 ≡ record w { incoming = fs })
        × ((fs ≡ w.incoming) ⊎ (remove_id id w.incoming ≡ some fs))
  unfolding handle_unqueue_task unqueue_task
  handle_unqueue_task_lem id w = elim (Bool-cases (w.strong == 0)) [
    | inl gone ↦ (w.incoming, rw gone refl, inl refl)
    | inr here ↦ elim (Option-cases (remove_id id w.incoming)) [
      | inl e ↦ (w.incoming, rw (here, unqueue_task, e) refl, inl refl)
      | inr (fs, e) ↦ (fs, rw (here, unqueue_task, e) refl, inr e)
    ]
  ]

  pub handle_unqueue_task-pool :
      (id : ℕ) (w : World Fut D) → (handle_unqueue_task id w).1.pool ≡ w.pool
  handle_unqueue_task-pool id w = ap (λ v. v.pool) (handle_unqueue_task_lem id w).1

  -- One poll of a task, whatever its future does, and whether it returns or panics, keeps the pool
  -- valid: it puts some tasks at the end of the ready to run queue and changes no future, no list
  -- link and no mark of the last poll.
  pub exec-Polls :
      (t : Ptr) (s : Script Fut D) (w : World Fut D) (xs ys live : List Ptr)
      → IsPool w.pool xs ys live
      → Polls w.pool xs ys live (exec t s w)
  unfolding exec raw_queue
  exec-Polls t ready w xs ys live v = Polled-refl w.pool xs ys live v
  exec-Polls t (pending f) w xs ys live v = Polled-refl w.pool xs ys live v
  exec-Polls t panics w xs ys live v = Polled-refl w.pool xs ys live v
  exec-Polls t (waker k) w xs ys live v = exec-Polls t (k t) w xs ys live v
  exec-Polls t (wake p k) w xs ys live v =
      let (w', e, s, q) = wake_cmd_lem p w xs ys live v in
      rw e (
        Polls-trans w.pool w'.pool xs ys live s _
          (exec-Polls t k w' (xs ++ s.more) ys live s.valid))
  exec-Polls t (get k) w xs ys live v = elim (input_get-cases w) [
    | inl e ↦ rw e (Polled-refl w.pool xs ys live v)
    | inr (d, e) ↦ rw e (exec-Polls t (k d) w xs ys live v)
  ]
  exec-Polls t (put d k) w xs ys live v = elim (input_get-cases w) [
    | inl e ↦ rw e (Polled-refl w.pool xs ys live v)
    | inr (d', e) ↦ rw e (exec-Polls t k (record w { heap_ptr = some d }) xs ys live v)
  ]
  exec-Polls t (queue f k) w xs ys live v = elim (Bool-cases (w.strong == 0)) [
    | inl e ↦ rw e (Polled-refl w.pool xs ys live v)
    | inr e ↦ rw e (exec-Polls t (k w.counter) (raw_queue f w).1 xs ys live v)
  ]
  exec-Polls t (unqueue id k) w xs ys live v =
      let r = handle_unqueue_task id w in
      subst (λ p. Polls p xs ys live (exec t (k (r.0)) (r.1))) (handle_unqueue_task-pool id w)
        (exec-Polls t (k (r.0)) (r.1) xs ys live
          (subst (λ p. IsPool p xs ys live) (sym (handle_unqueue_task-pool id w)) v))
