-- ===== src/Serial/Views.antt =====
-- What a `SerialCosync` of src/serial.rs says of itself, next to the `Cosync` of src/lib.rs in it.
use cosync.Base.{
  ℕ, suc, ◌≤◌, ◌≡◌, refl, Bool, false, Option, none, some, List, [], ◌∷◌, arith, Ptr, ◌∙◌,
  Bool-cases, length, is_some, ◌==◌,
}
use cosync.AllTasks.{spin_next_all}
use cosync.AllTasks.Edits.{len-length}
use cosync.FuturesUnordered.{len, is_empty}
use cosync.Iter.{iter, next}
use cosync.Iter.Visits.{any_task-any_of}
use cosync.Executor.{World, FutureObject}
use cosync.Executor.Turns.{IsValid}
use cosync.Driver.{cosync_len, cosync_is_empty, no_incoming, is_running_any, is_running}
use cosync.Serial.{serial_len, serial_is_empty, serial_is_running_any, current_task_id}

abbrev pub names : Option ℕ → ℕ → Bool
names none id = false
names (some i) id = i == id

module _ {Fut D : Type 0} (w : World Fut D) where
  no_incoming-length : (fs : List (FutureObject Fut)) → no_incoming fs ≡ (length fs == 0)
  no_incoming-length [] = refl
  no_incoming-length (f ∷ fs) = ground arith

  -- On a valid pool of at most one task `len` of a `SerialCosync` is `len` of the `Cosync` in it,
  -- and it is 0 exactly if `is_empty` says so.
  pub serial_len-cosync_len :
      (xs ys : List Ptr)
      → IsValid w xs ys
      → length ys ≤ 1
      → (cosync_len w ≡ some (serial_len w)) × (serial_is_empty w ≡ (serial_len w == 0))
  unfolding cosync_len serial_len serial_is_empty cosync_is_empty is_running_any is_empty len
  serial_len-cosync_len xs [] v h = (
    ground (arith, len-length w.pool.all [] v.tasks, v.tasks.linked),
    ground (arith, v.tasks.linked, no_incoming-length w.incoming),
  )
  serial_len-cosync_len xs (t ∷ []) v h = (
    ground (arith, len-length w.pool.all (t ∷ []) v.tasks, v.tasks.linked),
    ground (arith, v.tasks.linked, no_incoming-length w.incoming),
  )
  serial_len-cosync_len xs (t ∷ u ∷ ys) v h = absurd (omega (arith, h))

  future_lem :
      (xs : List Ptr) (t : Ptr)
      → IsValid w xs (t ∷ [])
      → (f : FutureObject Fut) × (w.pool.future t ≡ some f)
  future_lem xs t v = ground (arith, v.futures t)

  -- On a valid pool of at most one task `current_task_id` of a `SerialCosync` gives an id exactly if
  -- a task is in the pool, and that id is the one for which `is_running` of the `Cosync` in it says
  -- true, with one call of the iterator's `next` more than there are tasks.
  pub current_task_id-is_running :
      (xs ys : List Ptr) (id : ℕ)
      → IsValid w xs ys
      → length ys ≤ 1
      → (c : Option ℕ) × (current_task_id w ≡ some c)
        × (is_some c ≡ serial_is_running_any w)
        × (is_running (suc (length ys)) id w ≡ some (names c id))
  unfolding current_task_id serial_is_running_any is_running is_running_any is_empty
  current_task_id-is_running xs [] id v h = (
    none,
    unfold iter in unfold next in ground (arith, len-length w.pool.all [] v.tasks, v.tasks.linked),
    ground (arith, v.tasks.linked),
    any_task-any_of (λ f. f.id == id) w.pool xs [] v,
  )
  current_task_id-is_running xs (t ∷ []) id v h =
      let (f, e) = future_lem xs t v in
      (
        some f.id,
        unfold iter in
            unfold next in
            unfold spin_next_all in
            ground (arith, len-length w.pool.all (t ∷ []) v.tasks, v.tasks.linked, e),
        ground (arith, v.tasks.linked),
        any_task-any_of (λ f. f.id == id) w.pool xs (t ∷ []) v
            ∙ ground (arith, e, Bool-cases (f.id == id)),
      )
  current_task_id-is_running xs (t ∷ u ∷ ys) id v h = absurd (omega (arith, h))
