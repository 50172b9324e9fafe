-- ===== src/Driver/Cancel.antt =====
-- `stop_running_task`, `is_running` and `unqueue_task` against the tasks of the pool and the queue.
use cosync.Base.{
  is_some, ℕ, suc, ◌≡◌, inl, inr, refl, ap, ◌∙◌, Bool, true, false, Option, none, some, List, [],
  ◌∷◌, ◌++◌, arith, Ptr, update, has, length, ◌==◌, if◌then◌else◌, Bool-cases, Option-cases,
}
use cosync.Iter.Visits.{passes, any_of, find_of, any_task-any_of, find_task-find_of}
use cosync.Executor.{World, FutureObject, empty_block, ok, with_pool}
use cosync.Executor.Turns.{IsValid}
use cosync.Driver.{is_running, stop_running_task, remove_id, unqueue_task}

abbrev has_id : {Fut : Type 0} → ℕ → FutureObject Fut → Bool
has_id id f = f.id == id

module _ {Fut : Type 0} (test : Fut → Bool) (future : Ptr → Option Fut) where
  find_of-any_of : (ys : List Ptr) → any_of test future ys ≡ is_some (find_of test future ys)
  find_of-any_of [] = refl
  find_of-any_of (t ∷ ys) = elim (Bool-cases (passes test (future t))) [
    | inl e ↦ rw e refl
    | inr e ↦ rw e (find_of-any_of ys)
  ]

  find_of-has :
      (ys : List Ptr) (t : Ptr)
      → find_of test future ys ≡ some t
      → (has t ys ≡ true) × (passes test (future t) ≡ true)
  find_of-has [] t e = cc
  find_of-has (y ∷ ys) t e = ground (arith, e, find_of-has ys t)

  any_of-update :
      (t : Ptr) (g : Fut) (ys : List Ptr)
      → passes test (future t) ≡ true
      → test g ≡ true
      → any_of test (update future t (some g)) ys ≡ any_of test future ys
  any_of-update t g [] h k = refl
  any_of-update t g (y ∷ ys) h k = elim (Bool-cases (y == t)) [
    | inl e ↦ ground (arith, h, k)
    | inr e ↦ ground (arith, any_of-update t g ys h k)
  ]

module _ {Fut D : Type 0} (id : ℕ) (w : World Fut D) (xs ys : List Ptr) (v : IsValid w xs ys) where
  is_running-any_of : is_running (suc (length ys)) id w ≡ some (any_of (has_id id) w.pool.future ys)
  unfolding is_running
  is_running-any_of = any_task-any_of (has_id id) w.pool xs ys v

  abbrev emptied : Ptr → World Fut D
  emptied t = with_pool w (record w.pool {
    future = update w.pool.future t (some (record { body = empty_block; id = id }));
  })

  emptied-IsValid : (t : Ptr) → has t ys ≡ true → IsValid (emptied t) xs ys
  emptied-IsValid t i = record {
    waiting = v.waiting;
    tasks = v.tasks;
    linked_live = v.linked_live;
    futures = λ s. ground (arith, v.futures s);
    marked = v.marked;
    waiting_used = v.waiting_used;
    live_used = v.live_used;
    room = v.room;
  }

module _ {Fut D : Type 0} (id : ℕ) (w : World Fut D) (xs ys : List Ptr) (v : IsValid w xs ys) where
  stop-run :
      (r : Option Ptr)
      → find_of (has_id id) w.pool.future ys ≡ r
      → stop_running_task (suc (length ys)) id w
        ≡ (elim r [ none ↦ ok false w | some t ↦ ok true (emptied id w xs ys v t) ])
  unfolding stop_running_task
  stop-run none e = rw (find_task-find_of (has_id id) w.pool xs ys v, e, stop_running_task) refl
  stop-run (some t) e = rw (find_task-find_of (has_id id) w.pool xs ys v, e, stop_running_task) refl

  -- A task of the pool with the id holds an empty block in place of its future, and nothing else is
  -- changed; if there is none, nothing is.
  abbrev pub Stopped : Bool → World Fut D → Type 0
  Stopped true w' =
      (t : Ptr) × (f : FutureObject Fut) × (has t ys ≡ true)
      × (w.pool.future t ≡ some f)
      × (f.id ≡ id)
      × (w'
          ≡ with_pool w (record w.pool {
            future = update w.pool.future t (some (record { body = empty_block; id = id }));
          }))
  Stopped false w' = w' ≡ w

  -- On a valid pool `stop_running_task` returns true exactly if `is_running` says so for that id,
  -- with one call of `next` more than there are tasks. If it returns true, a task of the pool with
  -- that id holds an empty block with the id in place of its future, and nothing else is changed; if
  -- it returns false nothing is. The pool stays valid with the same queue and list of tasks, and
  -- `is_running` gives the same answer after it.
  pub stop_running_task-is_running :
      (r : Bool) × (w' : World Fut D) × (stop_running_task (suc (length ys)) id w ≡ ok r w')
      × Stopped r w'
      × IsValid w' xs ys
      × (is_running (suc (length ys)) id w ≡ some r)
      × (is_running (suc (length ys)) id w' ≡ some r)
  stop_running_task-is_running = elim (Option-cases (find_of (has_id id) w.pool.future ys)) [
    | inl e ↦
        let told =
          is_running-any_of id w xs ys v
          ∙ ap some (find_of-any_of (has_id id) w.pool.future ys ∙ ap is_some e) in
        (false, w, stop-run none e, refl, v, told, told)
    | inr (t, e) ↦
        let (i, h) = find_of-has (has_id id) w.pool.future ys t e in
        let same =
          any_of-update (has_id id) w.pool.future t (record { body = empty_block; id = id }) ys h
            (ground arith) in
        let found = find_of-any_of (has_id id) w.pool.future ys ∙ ap is_some e in
        let v' = emptied-IsValid id w xs ys v t i in
        (
          true,
          emptied id w xs ys v t,
          stop-run (some t) e,
          holder t i h,
          v',
          is_running-any_of id w xs ys v ∙ ap some found,
          is_running-any_of id (emptied id w xs ys v t) xs ys v' ∙ ap some (same ∙ found),
        )
  ]
    where
      holder :
          (t : Ptr)
          → has t ys ≡ true
          → passes (has_id id) (w.pool.future t) ≡ true
          → Stopped true (emptied id w xs ys v t)
      holder t i h = elim (Option-cases (w.pool.future t)) [
        | inl n ↦ ground (arith, h, n)
        | inr (f, e) ↦ (t, f, i, e, ground (arith, h, e), refl)
      ]

-- No task of the list has the id.
abbrev pub lacks_id : {Fut : Type 0} → ℕ → List (FutureObject Fut) → Bool
lacks_id id [] = true
lacks_id id (f ∷ fs) = if f.id == id then false else lacks_id id fs

-- The first task with the id is gone, and the others keep their order.
abbrev pub Unqueued :
    {Fut : Type 0} → ℕ → List (FutureObject Fut) → Option (List (FutureObject Fut)) → Type 0
Unqueued id fs none = lacks_id id fs ≡ true
Unqueued {Fut} id fs (some gs) =
    (before : List (FutureObject Fut)) × (f : FutureObject Fut) × (after : List (FutureObject Fut))
    × (fs ≡ before ++ f ∷ after)
    × (gs ≡ before ++ after)
    × (f.id ≡ id)
    × (lacks_id id before ≡ true)

remove_id-Unqueued :
    {Fut : Type 0} (id : ℕ) (fs : List (FutureObject Fut)) → Unqueued id fs (remove_id id fs)
unfolding remove_id
remove_id-Unqueued id [] = refl
remove_id-Unqueued id (f ∷ fs) = elim (Bool-cases (f.id == id)) [
  | inl e ↦ rw e ([], f, fs, refl, refl, ground arith, refl)
  | inr e ↦ rw e (behind (remove_id id fs) (remove_id-Unqueued id fs) e)
]
  where
    behind :
        (r : Option (List (FutureObject _)))
        → Unqueued id fs r
        → (f.id == id) ≡ false
        → Unqueued id (f ∷ fs) (elim r [ none ↦ none | some gs ↦ some (f ∷ gs) ])
    behind none u e = rw e u
    behind (some gs) (before, g, after, p, q, i, l) e =
        (f ∷ before, g, after, ap (λ hs. f ∷ hs) p, ap (λ hs. f ∷ hs) q, i, rw e l)

-- The queue after `unqueue_task`.
abbrev pub unqueued : {Fut D : Type 0} → Bool × World Fut D → Option (List (FutureObject Fut))
unqueued (true, w) = some w.incoming
unqueued (false, w) = none

module _ {Fut D : Type 0} where
  abbrev with_removed : World Fut D → Option (List (FutureObject Fut)) → Bool × World Fut D
  with_removed w none = (false, w)
  with_removed w (some fs) = (true, record w { incoming = fs })

  -- `unqueue_task` returns true exactly if a task of the incoming queue has the id. Then it takes
  -- the first such task out and keeps the order of the others; otherwise the queue stays. It changes
  -- nothing but the queue.
  pub unqueue_task-Unqueued :
      (id : ℕ) (w : World Fut D)
      → Unqueued id w.incoming (unqueued (unqueue_task id w))
        × ((unqueue_task id w).1 ≡ record w { incoming = (unqueue_task id w).1.incoming })
  unfolding unqueue_task
  unqueue_task-Unqueued id w = go (remove_id id w.incoming) (remove_id-Unqueued id w.incoming)
    where
      go :
          (r : Option (List (FutureObject Fut)))
          → Unqueued id w.incoming r
          → Unqueued id w.incoming (unqueued (with_removed w r))
            × ((with_removed w r).1 ≡ record w { incoming = (with_removed w r).1.incoming })
      go none u = (u, refl)
      go (some fs) u = (u, refl)
