-- ===== src/Driver/Spread.antt =====
-- `poll_pool` of src/lib.rs puts the incoming queue into the pool: what then holds of every task.
use cosync.Base.{
  ℕ, ◌≡◌, refl, Bool, true, Option, none, some, List, [], ◌∷◌, Ptr, ◌==◌, Bool-cases, Option-cases,
  ◌⊎◌, inl, inr,
}
use cosync.AllTasks.{AllTasks, link}
use cosync.ReadyToRunQueue.{ReadyToRunQueue, enqueue}
use cosync.FuturesUnordered.{FuturesUnordered, alloc, link_all, enqueue_task, push}
use cosync.Executor.{World, FutureObject, with_pool}
use cosync.Executor.Yields.{Yields, Yields-map, yields_ok, yields_fault}
use cosync.Driver.{push_all}

-- A property of the future of a task, its mark `queued` and the mark of its last poll.
abbrev pub Kind : Type 0 → Type 1
Kind Fut = Option (FutureObject Fut) → Bool → ℕ → Type 0

abbrev pub Each : {Fut D : Type 0} → Kind Fut → World Fut D → Type 0
Each P w = (s : Ptr) → P (w.pool.future s) (w.pool.queued s) (w.pool.last_polled s)

abbrev pub News : {Fut : Type 0} → Kind Fut → List (FutureObject Fut) → Type 0
News P [] = Unit
News P (f ∷ fs) = P (some f) true 0 × News P fs

-- Tasks were pushed: the property holds of all tasks, and nothing but the pool has changed.
pub record Spread {Fut D : Type 0} (P : Kind Fut) (w w' : World Fut D) : Type 0 where
  pub each : Each P w'
  pub waker : w'.pool.waker ≡ w.pool.waker
  pub poll_counter : w'.pool.poll_counter ≡ w.pool.poll_counter
  pub thread : w'.thread ≡ w.thread
  pub strong : w'.strong ≡ w.strong
  pub heap_ptr : w'.heap_ptr ≡ w.heap_ptr
  pub incoming : w'.incoming ≡ w.incoming

-- `push` fails, or adds the task and changes links and queue.
pub push-cases :
    {Fut : Type 0} (f : FutureObject Fut) (p : FuturesUnordered (FutureObject Fut))
    → (push p f ≡ none)
      ⊎ ((a : AllTasks) × (q : ReadyToRunQueue) × (push p f
            ≡ some (record (alloc p f) { all = a; ready_to_run_queue = q })))
unfolding push link_all enqueue_task
push-cases f p = elim (Option-cases (link (alloc p f).all p.fresh)) [
  | inl e ↦ inl (rw (e, push) refl)
  | inr (a, e) ↦ elim (Option-cases (enqueue (alloc p f).ready_to_run_queue p.fresh)) [
    | inl e' ↦ inl (rw (e, push) (rw e' refl))
    | inr (q, e') ↦ inr (a, q, rw (e, push) (rw e' refl))
  ]
]

module _ {Fut D : Type 0} (P : Kind Fut) where
  pub push-Each :
      (f : FutureObject Fut) (w : World Fut D) (a : AllTasks) (q : ReadyToRunQueue)
      → Each P w
      → P (some f) true 0
      → Each P (with_pool w (record (alloc w.pool f) { all = a; ready_to_run_queue = q }))
  unfolding alloc
  push-Each f w a q h n s = elim (Bool-cases (s == w.pool.fresh)) [
    | inl e ↦ rw e n
    | inr e ↦ rw e (h s)
  ]

  pushed-Spread :
      (f : FutureObject Fut) (w w' : World Fut D) (a : AllTasks) (q : ReadyToRunQueue)
      → Spread P (with_pool w (record (alloc w.pool f) { all = a; ready_to_run_queue = q })) w'
      → Spread P w w'
  unfolding alloc
  pushed-Spread f w w' a q k = record {
    each = k.each;
    waker = k.waker;
    poll_counter = k.poll_counter;
    thread = k.thread;
    strong = k.strong;
    heap_ptr = k.heap_ptr;
    incoming = k.incoming;
  }

  pub push_all-Spread :
      (fs : List (FutureObject Fut)) (w : World Fut D)
      → Each P w
      → News P fs
      → Yields (Spread P w) (push_all fs w)
  unfolding push_all
  push_all-Spread [] w h n = yields_ok (record {
    each = h;
    waker = refl;
    poll_counter = refl;
    thread = refl;
    strong = refl;
    heap_ptr = refl;
    incoming = refl;
  })
  push_all-Spread (f ∷ fs) w h n = elim (push-cases f w.pool) [
    | inl e ↦ rw (e, push_all) yields_fault
    | inr (a, q, e) ↦
        let pushed = with_pool w (record (alloc w.pool f) { all = a; ready_to_run_queue = q }) in
        rw (e, push_all)
          (Yields-map (λ w' k. pushed-Spread f w w' a q k)
            (push_all-Spread fs pushed (push-Each f w a q h (n.0)) (n.1)))
  ]
