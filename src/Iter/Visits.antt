-- ===== src/Iter/Visits.antt =====
-- The loops over an iterator of src/futures/iter.rs against the list of tasks.
use cosync.Base.{
  ℕ, suc, ◌≡◌, ◌≢◌, Bool, true, false, Option, none, some, List, [], ◌∷◌, arith, Ptr, null, stub,
  has, length, if◌then◌else◌, Bool-cases, inl, inr, ◌>>=◌,
}
use cosync.AllTasks.{spin_next_all}
use cosync.AllTasks.Linked.{Linked, IsAll}
use cosync.AllTasks.Edits.{len-length}
use cosync.FuturesUnordered.{FuturesUnordered}
use cosync.FuturesUnordered.Valid.{IsPool}
use cosync.Iter.{iter, iter_mut, next, next_mut, any_task, find_task}

pub Linked-ne_stub : (n v : Ptr → Ptr) (b q : Ptr) (ys : List Ptr) → Linked n v b q ys → q ≢ stub
Linked-ne_stub n v b q [] k = ground arith
Linked-ne_stub n v b q (t ∷ ys) k = ground arith

module _ {Fut : Type 0} (p : FuturesUnordered Fut) (t : Ptr) (f : Fut) (n : ℕ)
    (e : p.future t ≡ some f) (ne : t ≢ null) where
  pub next_lem :
      p.all.next_all t ≢ stub
      → next p (record { task = t; len = suc n })
        ≡ some (some (t, f), record { task = p.all.next_all t; len = n })
  unfolding next spin_next_all
  next_lem ns = ground (arith, e)

  pub next_mut_lem :
      next_mut p (record { task = t; len = suc n })
      ≡ some (some (t, f), record { task = p.all.next_all t; len = n })
  unfolding next_mut
  next_mut_lem = ground (arith, e)

module _ {Fut : Type 0} (test : Fut → Bool) where
  abbrev pub passes : Option Fut → Bool
  passes none = false
  passes (some f) = test f

  -- Some task of the list passes, and the first that does.
  abbrev pub any_of : (Ptr → Option Fut) → List Ptr → Bool
  any_of future [] = false
  any_of future (t ∷ ys) = if passes (future t) then true else any_of future ys

  abbrev pub find_of : (Ptr → Option Fut) → List Ptr → Option Ptr
  find_of future [] = none
  find_of future (t ∷ ys) = if passes (future t) then some t else find_of future ys

  -- The futures of the linked tasks are there.
  abbrev pub Live : FuturesUnordered Fut → List Ptr → Type 0
  Live p ys = (t : Ptr) → has t ys ≡ true → (f : Fut) × (p.future t ≡ some f)

  any_task_lem :
      (p : FuturesUnordered Fut) (b q : Ptr) (ys : List Ptr)
      → Linked p.all.next_all p.all.prev_all b q ys
      → Live p ys
      → any_task (suc (length ys)) test p (record { task = q; len = length ys })
        ≡ some (any_of p.future ys)
  unfolding any_task
  any_task_lem p b q [] k live = unfold next in ground arith
  any_task_lem p b q (t ∷ ys) k live =
      let rest = any_task_lem p t (p.all.next_all t) ys k.5 (λ s i. live s (ground arith)) in
      let (f, e) = live t (ground arith) in
      let step = next_lem p t f (length ys) e k.1 (Linked-ne_stub _ _ _ _ ys k.5) in
      rw (k.0, step, e) (elim (Bool-cases (test f)) [ inl h ↦ rw h | inr h ↦ rw h rest ])

  find_task_lem :
      (p : FuturesUnordered Fut) (b q : Ptr) (ys : List Ptr)
      → Linked p.all.next_all p.all.prev_all b q ys
      → Live p ys
      → find_task (suc (length ys)) test p (record { task = q; len = length ys })
        ≡ some (find_of p.future ys)
  unfolding find_task
  find_task_lem p b q [] k live = unfold next_mut in ground arith
  find_task_lem p b q (t ∷ ys) k live =
      let rest = find_task_lem p t (p.all.next_all t) ys k.5 (λ s i. live s (ground arith)) in
      let (f, e) = live t (ground arith) in
      let step = next_mut_lem p t f (length ys) e k.1 in
      rw (k.0, step, e) (elim (Bool-cases (test f)) [ inl h ↦ rw h | inr h ↦ rw h rest ])

  module _ (p : FuturesUnordered Fut) (xs ys : List Ptr) (v : IsPool p xs ys ys) where
    pub IsPool-Live : Live p ys
    IsPool-Live t i = ground (arith, v.futures t)

    -- On a valid pool the iterator visits every task once, newest first: with one call of `next`
    -- more than there are tasks, `iter().any(test)` says whether some task's future passes the test.
    pub any_task-any_of : (iter p >>= any_task (suc (length ys)) test p) ≡ some (any_of p.future ys)
    unfolding iter
    any_task-any_of =
        rw (len-length p.all ys v.tasks)
          (any_task_lem p null p.all.head_all ys v.tasks.linked IsPool-Live)

    pub iter_mut_len : (zs : List Ptr) → IsAll p.all zs → (iter_mut p).len ≡ length zs
    unfolding iter_mut
    iter_mut_len [] k = ground (arith, k.linked)
    iter_mut_len (t ∷ zs) k = ground (arith, k.linked, k.counted)

    -- On a valid pool the loop over the mutable iterator that stops at the first future that passes
    -- a test finds the newest such task, or none, with one call of `next` more than there are tasks.
    pub find_task-find_of :
        find_task (suc (length ys)) test p (iter_mut p) ≡ some (find_of p.future ys)
    unfolding iter_mut
    find_task-find_of =
        rw (iter_mut_len ys v.tasks)
          (find_task_lem p null p.all.head_all ys v.tasks.linked IsPool-Live)
