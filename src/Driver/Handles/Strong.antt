-- ===== src/Driver/Handles/Strong.antt =====
-- The strong count of the incoming queue of src/lib.rs, and `CosyncInput::get`.
use cosync.Base.{
  ◌&&◌, ℕ, suc, ◌+◌, ◌≡◌, refl, none, some, arith, length, length-erase, ◌==◌, if◌then◌else◌,
  Option-cases,
}
use cosync.Executor.{World, ok, panic, fault}
use cosync.Driver.{new, next_cosync_task_id, unqueue_task, clear_queue, remove_id}
use cosync.Driver.Handles.{
  Handles, Step, upgrade, take_id, push_back, unqueue, drop_ref, own_id, own_unqueue, own_drain,
  own_box, free_box, drop_queue, perform, shared_get, Reachable, starts, step,
}

-- The number of threads with a strong reference.
abbrev pub busy : {Fut D : Type 0} → Handles Fut D → ℕ
busy s = s.upgraded + length s.numbered + s.finished

abbrev pub refs : {Fut D : Type 0} → Handles Fut D → ℕ
refs s = if s.alive then suc (busy s) else busy s

-- The count is right, and the box is there only if the `Cosync` still has its reference.
abbrev IsReferenced : {Fut D : Type 0} → Handles Fut D → Type 0
IsReferenced s = (s.world.strong ≡ refs s) × ((s.boxed && s.alive) ≡ s.boxed)

module _ {Fut D : Type 0} where
  unqueue_task-strong : (id : ℕ) (w : World Fut D) → (unqueue_task id w).1.strong ≡ w.strong
  unfolding unqueue_task
  unqueue_task-strong id w = ground (arith, Option-cases (remove_id id w.incoming))

  perform-refs :
      (e : Step Fut D) (s s' : Handles Fut D)
      → IsReferenced s
      → perform e s ≡ some s'
      → IsReferenced s'
  unfolding perform next_cosync_task_id clear_queue
  perform-refs upgrade s s' h e = ground (arith, h, e)
  perform-refs take_id s s' h e = ground (arith, h, e)
  perform-refs (push_back id f) s s' h e = ground (arith, h, e, length-erase id s.numbered)
  perform-refs (unqueue id) s s' h e = ground (arith, h, e, unqueue_task-strong id s.world)
  perform-refs drop_ref s s' h e = ground (arith, h, e)
  perform-refs own_id s s' h e = ground (arith, h, e)
  perform-refs (own_unqueue id) s s' h e = ground (arith, h, e, unqueue_task-strong id s.world)
  perform-refs own_drain s s' h e = ground (arith, h, e)
  perform-refs (own_box b) s s' h e = ground (arith, h, e)
  perform-refs free_box s s' h e = ground (arith, h, e)
  perform-refs drop_queue s s' h e = ground (arith, h, e)

  Reachable-refs : (s : Handles Fut D) → Reachable s → IsReferenced s
  unfolding new
  Reachable-refs s (starts th) = (refl, refl)
  Reachable-refs s (step {s = s0} e r p) = perform-refs e s0 s (Reachable-refs s0 r) p

  -- In every state that queue handles on any number of threads and the owner of the `Cosync` reach,
  -- `CosyncInput::get` panics while the box is allocated if some thread is within a call of a
  -- handle, and otherwise gives the parameter, or panics if there is none. Once the box is freed it
  -- reads freed memory if the queue has exactly one strong reference left, the own one of the
  -- `Cosync` or that of one thread, and panics otherwise.
  pub shared_get-Reachable :
      (s : Handles Fut D)
      → Reachable s
      → shared_get s ≡ (
          if s.boxed
          then (if busy s == 0
              then (elim s.world.heap_ptr [ none ↦ panic s.world | some d ↦ ok d s.world ])
              else panic s.world)
          else if busy s == (if s.alive then 0 else 1)
          then fault
          else panic s.world)
  unfolding shared_get
  shared_get-Reachable s r = ground (arith, Reachable-refs s r)
