-- ===== src/Executor/Wakeful.antt =====
-- Futures that wake their own task before they return pending.
use cosync.Base.{
  ℕ, ◌≡◌, sym, ap, ◌∙◌, subst, Bool, true, Option, some, List, ◌++◌, ◌||◌, arith, Ptr, has-append,
  ◌==◌, Bool-cases, inl, inr,
}
use cosync.FuturesUnordered.Valid.{IsPool}
use cosync.Executor.{
  World, Script, Run, ok, ready, pending, panics, waker, wake, get, put, queue, unqueue, exec,
  raw_queue, handle_unqueue_task,
}
use cosync.Executor.Polls.{wake_cmd_lem, input_get-cases, handle_unqueue_task-pool}

-- `woken` says that the task `t` was woken before.
abbrev pub WakesSelf : {Fut D : Type 0} → Ptr → Bool → Script Fut D → Type 0
WakesSelf t woken ready = Unit
WakesSelf t woken (pending f) = woken ≡ true
WakesSelf t woken panics = Unit
WakesSelf t woken (waker k) = WakesSelf t woken (k t)
WakesSelf t woken (wake p k) = WakesSelf t (woken || (p == t)) k
WakesSelf {D} t woken (get k) = (d : D) → WakesSelf t woken (k d)
WakesSelf t woken (put d k) = WakesSelf t woken k
WakesSelf t woken (queue f k) = (id : ℕ) → WakesSelf t woken (k id)
WakesSelf t woken (unqueue id k) = (r : Option Bool) → WakesSelf t woken (k r)

-- A pending result leaves `t` queued.
abbrev pub LeavesQueued : {Fut D : Type 0} → Ptr → Run Fut D (Option Fut) → Type 0
LeavesQueued t (ok (some f) w) = w.pool.queued t ≡ true
LeavesQueued t r = Unit

module _ {Fut D : Type 0} where
  pub exec-LeavesQueued :
      (t : Ptr) (woken : Bool) (s : Script Fut D) (w : World Fut D) (xs ys live : List Ptr)
      → IsPool w.pool xs ys live
      → WakesSelf t woken s
      → (woken ≡ true → w.pool.queued t ≡ true)
      → LeavesQueued t (exec t s w)
  unfolding exec raw_queue
  exec-LeavesQueued t b ready w xs ys live v h q = tt
  exec-LeavesQueued t b (pending f) w xs ys live v h q = q h
  exec-LeavesQueued t b panics w xs ys live v h q = tt
  exec-LeavesQueued t b (waker k) w xs ys live v h q =
      exec-LeavesQueued t b (k t) w xs ys live v h q
  exec-LeavesQueued t b (wake p k) w xs ys live v h q =
      let (w', e, s, marked) = wake_cmd_lem p w xs ys live v in
      rw e (
        exec-LeavesQueued t (b || (p == t)) k w' (xs ++ s.more) ys live s.valid h
          (λ g. ground (arith, v.marked t, s.valid.marked t, has-append t xs s.more, marked, q, g)))
  exec-LeavesQueued t b (get k) w xs ys live v h q = elim (input_get-cases w) [
    | inl e ↦ rw e tt
    | inr (d, e) ↦ rw e (exec-LeavesQueued t b (k d) w xs ys live v (h d) q)
  ]
  exec-LeavesQueued t b (put d k) w xs ys live v h q = elim (input_get-cases w) [
    | inl e ↦ rw e tt
    | inr (d', e) ↦ rw e (exec-LeavesQueued t b k (record w { heap_ptr = some d }) xs ys live v h q)
  ]
  exec-LeavesQueued t b (queue f k) w xs ys live v h q = elim (Bool-cases (w.strong == 0)) [
    | inl e ↦ rw e tt
    | inr e ↦
        rw e (exec-LeavesQueued t b (k w.counter) (raw_queue f w).1 xs ys live v (h w.counter) q)
  ]
  exec-LeavesQueued t b (unqueue id k) w xs ys live v h q =
      let r = handle_unqueue_task id w in
      let same = handle_unqueue_task-pool id w in
      exec-LeavesQueued t b (k (r.0)) (r.1) xs ys live
        (subst (λ p. IsPool p xs ys live) (sym same) v) (h (r.0))
        (λ g. ap (λ p. p.queued t) same ∙ q g)
