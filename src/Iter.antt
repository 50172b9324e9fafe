-- ===== src/Iter.antt =====
-- src/futures/iter.rs: the iterators over the tasks of a pool, and the loops over them.
pub mod Visits
pub mod Exact
use cosync.Base.{
  ℕ, zero, suc, Bool, true, false, Option, none, some, Ptr, null, ◌==◌, if◌then◌else◌, ◌>>=◌,
}
use cosync.AllTasks.{less_one, spin_next_all, atomic_load_head_and_len_all}
use cosync.FuturesUnordered.{FuturesUnordered}

-- `IterPinRef` and `IterPinMut`
pub record Iter : Type 0 where
  pub task : Ptr
  pub len : ℕ

module _ {Fut : Type 0} where
  -- `iter_pin_ref`
  unfoldable pub iter : FuturesUnordered Fut → Option Iter
  iter p = do (t, n) ← atomic_load_head_and_len_all p.all; some (record { task = t; len = n })

  -- `iter_pin_mut`
  unfoldable pub iter_mut : FuturesUnordered Fut → Iter
  iter_mut p = record {
    task = p.all.head_all;
    len = if p.all.head_all == null then 0 else p.all.len_all p.all.head_all;
  }

  -- `next`: the task, its future and the iterator behind it. A task that holds no future fails the
  -- `unwrap`, which is `none` outside.
  unfoldable pub next : FuturesUnordered Fut → Iter → Option (Option (Ptr × Fut) × Iter)
  next p it = if it.task == null then some (none, it) else (do
    f ← p.future it.task
    t ← spin_next_all p.all it.task
    n ← less_one it.len
    some (some (it.task, f), record { task = t; len = n }))

  -- `next` of the mutable iterator reads `next_all` with no wait.
  unfoldable pub next_mut : FuturesUnordered Fut → Iter → Option (Option (Ptr × Fut) × Iter)
  next_mut p it = if it.task == null then some (none, it) else (do
    f ← p.future it.task
    n ← less_one it.len
    some (some (it.task, f), record { task = p.all.next_all it.task; len = n }))

  -- `Iter` and `IterMut`, which `iter` and `iter_mut` make: they pass the calls on.
  abbrev pub iter_next : FuturesUnordered Fut → Iter → Option (Option (Ptr × Fut) × Iter)
  iter_next p it = next p it

  abbrev pub iter_mut_next : FuturesUnordered Fut → Iter → Option (Option (Ptr × Fut) × Iter)
  iter_mut_next p it = next_mut p it

  -- `iter().any(…)`. `none` is also the end of the fuel.
  unfoldable pub any_task : ℕ → (Fut → Bool) → FuturesUnordered Fut → Iter → Option Bool
  any_task zero test p it = none
  any_task (suc n) test p it = iter_next p it >>= λ r. elim r.0 [
    | none ↦ some false
    | some (t, f) ↦ elim (test f) [ true ↦ some true | false ↦ any_task n test p r.1 ]
  ]

  -- The loop of `for f in iter_mut()` that stops at the first future that passes.
  unfoldable pub find_task : ℕ → (Fut → Bool) → FuturesUnordered Fut → Iter → Option (Option Ptr)
  find_task zero test p it = none
  find_task (suc n) test p it = iter_mut_next p it >>= λ r. elim r.0 [
    | none ↦ some none
    | some (t, f) ↦ elim (test f) [ true ↦ some (some t) | false ↦ find_task n test p r.1 ]
  ]

-- `size_hint` of both iterators, which `ExactSizeIterator` rests on.
unfoldable pub size_hint : Iter → ℕ × Option ℕ
size_hint it = (it.len, some it.len)

unfoldable pub size_hint_mut : Iter → ℕ × Option ℕ
size_hint_mut it = (it.len, some it.len)
