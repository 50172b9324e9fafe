-- ===== src/Executor/Yields.antt =====
-- Code of src/futures/futures_unordered.rs that does not panic, and the state that it leaves.
use cosync.Base.{
  ◌≡◌, subst, Bool, true, false, Option, none, some, Ptr, Option-cases, inl, inr, if◌then◌else◌,
}
use cosync.AllTasks.{AllTasks, link, unlink}
use cosync.ReadyToRunQueue.{ReadyToRunQueue, enqueue}
use cosync.FuturesUnordered.{FuturesUnordered, link_all, unlink_all, enqueue_task}
use cosync.Executor.{World, FutureObject, Run, ok, fault, out_of_fuel, Cmd, and_then, with_pool}

-- If the code returns, the property holds of the state that it leaves. It does not panic.
pub data Yields {Fut D A : Type 0} (P : World Fut D → Type 0) : Run Fut D A → Type 0 where
  yields_ok : {a : A} {w : World Fut D} → P w → Yields P (ok a w)
  yields_fault : Yields P fault
  yields_out : Yields P out_of_fuel

-- What `on_pool` makes of the pool's result.
abbrev pub pooled :
    {Fut D : Type 0}
    → World Fut D
    → Option (FuturesUnordered (FutureObject Fut))
    → Run Fut D (Unit {0})
pooled w r = elim r [ none ↦ fault | some p ↦ ok tt (with_pool w p) ]

module _ {Fut D : Type 0} {P : World Fut D → Type 0} where
  pub if-Yields :
      {A : Type 0} (b : Bool) {x y : Run Fut D A}
      → Yields P x
      → Yields P y
      → Yields P (if b then x else y)
  if-Yields true k l = k
  if-Yields false k l = l

  pub Yields-map :
      {A : Type 0} {Q : World Fut D → Type 0} {r : Run Fut D A}
      → ((w : World Fut D) → Q w → P w)
      → Yields Q r
      → Yields P r
  Yields-map h (yields_ok o) = yields_ok (h _ o)
  Yields-map h yields_fault = yields_fault
  Yields-map h yields_out = yields_out

  -- What the code leaves, when it returns.
  pub Yields-returns :
      {A : Type 0} {r : Run Fut D A} {a : A} {w : World Fut D} → Yields P r → r ≡ ok a w → P w
  Yields-returns {A} {r} {a} {w} y e = go (subst (Yields P) e y)
    where
      go : Yields P (ok a w) → P w
      go (yields_ok o) = o

  pub and_then-Yields :
      {A B : Type 0} {Q : World Fut D → Type 0} {r : Run Fut D A} {k : A → Cmd Fut D B}
      → Yields Q r
      → ((a : A) (w : World Fut D) → Q w → Yields P (k a w))
      → Yields P (and_then r k)
  and_then-Yields (yields_ok o) h = h _ _ o
  and_then-Yields yields_fault h = yields_fault
  and_then-Yields yields_out h = yields_out

  pub link-Yields :
      {A : Type 0} (w : World Fut D) (p : FuturesUnordered (FutureObject Fut)) (t : Ptr)
      (k : Unit {0} → Cmd Fut D A)
      → ((a : AllTasks) → Yields P (k tt (with_pool w (record p { all = a }))))
      → Yields P (and_then (pooled w (link_all p t)) k)
  unfolding link_all
  link-Yields w p t k h = elim (Option-cases (link p.all t)) [
    | inl e ↦ rw (e, and_then) yields_fault
    | inr (a, e) ↦ rw (e, and_then) (h a)
  ]

  pub unlink-Yields :
      {A : Type 0} (w : World Fut D) (p : FuturesUnordered (FutureObject Fut)) (t : Ptr)
      (k : Unit {0} → Cmd Fut D A)
      → ((a : AllTasks) → Yields P (k tt (with_pool w (record p { all = a }))))
      → Yields P (and_then (pooled w (unlink_all p t)) k)
  unfolding unlink_all
  unlink-Yields w p t k h = elim (Option-cases (unlink p.all t)) [
    | inl e ↦ rw (e, and_then) yields_fault
    | inr (a, e) ↦ rw (e, and_then) (h a)
  ]

  pub enqueue-Yields :
      {A : Type 0} (w : World Fut D) (p : FuturesUnordered (FutureObject Fut)) (t : Ptr)
      (k : Unit {0} → Cmd Fut D A)
      → ((q : ReadyToRunQueue)
          → Yields P (k tt (with_pool w (record p { ready_to_run_queue = q }))))
      → Yields P (and_then (pooled w (enqueue_task p t)) k)
  unfolding enqueue_task
  enqueue-Yields w p t k h = elim (Option-cases (enqueue p.ready_to_run_queue t)) [
    | inl e ↦ rw (e, and_then) yields_fault
    | inr (q, e) ↦ rw (e, and_then) (h q)
  ]

  pub pooled_if-Yields :
      {A : Type 0} (w : World Fut D) (b : Bool) (p : FuturesUnordered (FutureObject Fut))
      (k : Unit {0} → Cmd Fut D A)
      → Yields P (k tt (with_pool w p))
      → Yields P (and_then (pooled w (if b then some p else none)) k)
  pooled_if-Yields w true p k h = h
  pooled_if-Yields w false p k h = yields_fault
