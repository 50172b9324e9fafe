-- ===== src/WakerRef/Uses.antt =====
-- Who may call what: the wakers of src/futures/waker_ref.rs, on any thread, and the owner of the
-- pool of src/futures/futures_unordered.rs, one whole call after the other; a wake may also come in two
-- steps, with other calls in between, but no call comes between the two writes of `enqueue`.
use cosync.Base.{
  ℕ, suc, ◌+◌, ◌-◌, ◌≤◌, ◌≡◌, ◌⊎◌, Option, none, some, Ptr, update, has, erase, List, [], ◌∷◌, ◌==◌,
  if◌then◌else◌, true, ◌>>=◌,
}
use cosync.FuturesUnordered.{increment_counter}
use cosync.WakerRef.{
  with_pool, Counted, waker_vtable, push_task, round, finish_pending, release, clear, drop_pool,
  upgrade, finish_wake, new,
}
use cosync.WakerRef.Counts.{bit}

-- The pool is not polled, or it polls the task, or it is dropped.
pub data Phase : Type 0 where
  idle : Phase
  polling : Ptr → Phase
  dropped : Phase

-- `wakers` counts the wakers of every task that are not dropped. `flying` has the tasks for which a
-- `wake_by_ref` has upgraded the reference to the queue, and not come to its end.
pub record Shared (Fut : Type 0) : Type 0 where
  pub counted : Counted Fut
  pub wakers : Ptr → ℕ
  pub flying : List Ptr
  pub phase : Phase

pub data Op (Fut : Type 0) : Type 0 where
  push_op : Fut → Op Fut
  clone_op : Ptr → Op Fut
  wake_op : Ptr → Op Fut
  wake_by_ref_op : Ptr → Op Fut
  drop_op : Ptr → Op Fut
  upgrade_op : Ptr → Op Fut
  finish_op : Ptr → Op Fut
  increment_op : Op Fut
  round_op : Op Fut
  pending_op : Fut → Op Fut
  release_op : Op Fut
  clear_op : Op Fut
  drop_pool_op : Op Fut

abbrev pub IsIdle : Phase → Type 0
IsIdle idle = Unit
IsIdle (polling t) = ⊥
IsIdle dropped = ⊥

abbrev pub IsPolling : Phase → Type 0
IsPolling idle = ⊥
IsPolling (polling t) = Unit
IsPolling dropped = ⊥

abbrev pub IsThere : Phase → Type 0
IsThere idle = Unit
IsThere (polling t) = Unit
IsThere dropped = ⊥

abbrev pub phase_of : Option Ptr → Phase
phase_of none = idle
phase_of (some t) = polling t

module _ {Fut : Type 0} where
  abbrev pub start_state : Shared Fut
  start_state = record { counted = new; wakers = λ p. 0; flying = []; phase = idle }

  -- The fuel of the two loops of `clear`: there are fewer tasks than addresses in use.
  abbrev pub fuel : Counted Fut → ℕ
  fuel c = suc c.pool.fresh

  abbrev pub to_polled : (Ptr → Option (Counted Fut)) → Shared Fut → Option (Shared Fut)
  to_polled f s = elim s.phase [
    | idle ↦ none
    | polling t ↦ (do c ← f t; some (record s { counted = c; phase = idle }))
    | dropped ↦ none
  ]

  unfoldable pub perform : Op Fut → Shared Fut → Option (Shared Fut)
  perform (push_op f) s = do c ← push_task f s.counted; some (record s { counted = c })
  perform (clone_op t) s = do
    (u, c) ← waker_vtable.clone_raw t s.counted
    some (record s { counted = c; wakers = update s.wakers u (s.wakers u + 1) })
  perform (wake_op t) s = do
    c ← waker_vtable.wake_raw t s.counted
    some (record s { counted = c; wakers = update s.wakers t (s.wakers t - 1) })
  perform (wake_by_ref_op t) s = do
    c ← waker_vtable.wake_by_ref_raw t s.counted
    some (record s { counted = c })
  perform (drop_op t) s = do
    c ← waker_vtable.drop_raw t s.counted
    some (record s { counted = c; wakers = update s.wakers t (s.wakers t - 1) })
  perform (upgrade_op t) s = if s.counted.strong t == 0 then none else elim (upgrade s.counted) [
    | none ↦ some s
    | some c ↦ some (record s { counted = c; flying = t ∷ s.flying })
  ]
  perform (finish_op t) s = if s.counted.strong t == 0 then none else (do
    c ← finish_wake t s.counted
    some (record s { counted = c; flying = erase t s.flying }))
  perform increment_op s =
      some (record s { counted = with_pool s.counted (increment_counter s.counted.pool) })
  perform round_op s = do
    (r, c) ← round s.counted
    some (record s { counted = c; phase = phase_of r })
  perform (pending_op f) s = to_polled (λ t. finish_pending t f s.counted) s
  perform release_op s = to_polled (λ t. release t s.counted) s
  perform clear_op s = do c ← clear (fuel s.counted) s.counted; some (record s { counted = c })
  perform drop_pool_op s = do
    c ← drop_pool (fuel s.counted) s.counted
    some (record s { counted = c; phase = dropped })

  -- There is a waker of the task that no wake under way needs.
  abbrev pub IsSpare : Ptr → Shared Fut → Type 0
  IsSpare t s = 1 + bit (has t s.flying) ≤ s.wakers t

  -- A waker is used only before it is dropped. The poll of a task has the `WakerRef` of it too.
  abbrev pub IsAllowed : Op Fut → Shared Fut → Type 0
  IsAllowed (push_op f) s = IsThere s.phase
  IsAllowed (clone_op t) s = (1 ≤ s.wakers t) ⊎ (s.phase ≡ polling t)
  IsAllowed (wake_op t) s = IsSpare t s
  IsAllowed (wake_by_ref_op t) s = (1 ≤ s.wakers t) ⊎ (s.phase ≡ polling t)
  IsAllowed (drop_op t) s = IsSpare t s
  IsAllowed (upgrade_op t) s = 1 ≤ s.wakers t
  IsAllowed (finish_op t) s = has t s.flying ≡ true
  IsAllowed increment_op s = IsIdle s.phase
  IsAllowed round_op s = IsIdle s.phase
  IsAllowed (pending_op f) s = IsPolling s.phase
  IsAllowed release_op s = IsPolling s.phase
  IsAllowed clear_op s = IsIdle s.phase
  IsAllowed drop_pool_op s = IsIdle s.phase

pub data Reachable {Fut : Type 0} : Shared Fut → Type 0 where
  start : Reachable start_state
  step :
      {s s' : Shared Fut} (o : Op Fut)
      → Reachable s
      → IsAllowed o s
      → perform o s ≡ some s'
      → Reachable s'
