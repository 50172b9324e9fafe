-- ===== src/Executor/Turns.antt =====
-- What one round of the loop in `poll_next` does, case by case.
use cosync.Base.{
  ◌≡◌, ◌≢◌, refl, ap, ◌∙◌, true, false, Option, none, some, List, [], ◌∷◌, ◌++◌, arith, Ptr, stub,
  has, erase, leb, if◌then◌else◌,
}
use cosync.ReadyToRunQueue.{Dequeue, ReadyToRunQueue, enqueue}
use cosync.ReadyToRunQueue.Contents.{Holds-IsDistinct}
use cosync.AllTasks.{AllTasks, unlink, link}
use cosync.FuturesUnordered.{FuturesUnordered, is_empty, link_all, unlink_all, enqueue_task}
use cosync.FuturesUnordered.Valid.{IsPool-frame, IsPool}
use cosync.FuturesUnordered.Turns.{
  with_queue, started, with_queue-IsPool, dequeue_task_lem, has-erase_iff, requeued, requeue-IsPool,
  discard-IsPool, start-IsPool,
}
use cosync.Executor.{
  World, Script, FutureObject, ok, Poll, poll_ready, poll_pending, done, again, came_round,
  with_pool, requeue, poll_task, run_task, after_dequeue, turn, register_waker,
}

abbrev pub IsValid : {Fut D : Type 0} → World Fut D → List Ptr → List Ptr → Type 0
IsValid w xs ys = IsPool w.pool xs ys ys

future-some :
    {Fut : Type 0} (p : FuturesUnordered Fut) (xs ys live : List Ptr)
    → IsPool p xs ys live
    → (t : Ptr) → has t live ≡ true
    → (f : Fut) × (p.future t ≡ some f)
future-some p xs ys live v t i = ground (arith, v.futures t)

-- The result of the loop for the tasks that are left.
abbrev pub outcome : List Ptr → Poll
outcome [] = poll_ready
outcome (t ∷ ys) = poll_pending

module _ {Fut D : Type 0} (poll : Fut → Script Fut D) (initial : Option Ptr) (w : World Fut D) where
  -- `Empty`: the loop ends, and says whether tasks are left.
  pub turn-nil :
      (ys : List Ptr)
      → IsValid w [] ys
      → (w' : World Fut D) × (turn poll initial w ≡ ok (done (outcome ys)) w')
        × IsValid w' [] ys
        × (w'.pool.last_polled ≡ w.pool.last_polled)
        × (w'.pool.poll_counter ≡ w.pool.poll_counter)
        × (w'.pool.fresh ≡ w.pool.fresh)
  unfolding turn after_dequeue is_empty
  turn-nil ys v =
      let (q, e, h) = dequeue_task_lem w.pool [] ys ys v in
      (
        with_pool w (with_queue w.pool q),
        rw (e, turn) (ap (λ r. ok (done r) (with_pool w (with_queue w.pool q))) (told ys v)),
        with_queue-IsPool w.pool [] ys ys v q h,
        refl,
        refl,
        refl,
      )
    where
      told :
          (zs : List Ptr)
          → IsValid w [] zs
          → (if is_empty w.pool then poll_ready else poll_pending) ≡ outcome zs
      told [] u = ground (arith, u.tasks.linked)
      told (z ∷ zs) u = ground (arith, u.tasks.linked)

  -- A task that was released while it was in the queue is dropped.
  pub turn-discard :
      (t : Ptr) (xs ys : List Ptr)
      → IsValid w (t ∷ xs) ys
      → has t ys ≡ false
      → (w' : World Fut D) × (turn poll initial w ≡ ok (again initial) w')
        × IsValid w' xs ys
        × (w'.pool.last_polled ≡ w.pool.last_polled)
        × (w'.pool.poll_counter ≡ w.pool.poll_counter)
        × (w'.pool.fresh ≡ w.pool.fresh)
  unfolding turn after_dequeue
  turn-discard t xs ys v o =
      let (q, e, h) = dequeue_task_lem w.pool (t ∷ xs) ys ys v in
      let gone : w.pool.future t ≡ none = ground (arith, v.futures t) in
      (
        with_pool w (with_queue w.pool q),
        rw (e, turn, gone, after_dequeue) (ground (arith, v.tasks.outside t o, v.waiting_used t)),
        discard-IsPool w.pool t xs ys v q h o,
        refl,
        refl,
        refl,
      )

  after_dequeue-run :
      (t : Ptr) (f : FutureObject Fut) (q : ReadyToRunQueue) (a : AllTasks)
      → w.pool.future t ≡ some f
      → unlink w.pool.all t ≡ some a
      → w.pool.queued t ≡ true
      → t ≢ stub
      → after_dequeue poll initial (Dequeue.task t) (with_pool w (with_queue w.pool q)) ≡ (
          let w1 = with_pool w (started w.pool q a t) in
          if leb w.pool.poll_counter (w.pool.last_polled t)
          then requeue initial t w1
          else poll_task poll initial t f w1)
  unfolding after_dequeue run_task unlink_all
  after_dequeue-run t f q a ef ea eq ns = ground (arith, ef, ea, eq)

  pub run_task_lem :
      (t : Ptr) (xs ys : List Ptr)
      → IsValid w (t ∷ xs) ys
      → has t ys ≡ true
      → (q : ReadyToRunQueue) × (a : AllTasks) × (f : FutureObject Fut) × (w.pool.future t ≡ some f)
        × IsPool (started w.pool q a t) xs (erase t ys) ys
        × (turn poll initial w ≡ (
            let w1 = with_pool w (started w.pool q a t) in
            if leb w.pool.poll_counter (w.pool.last_polled t)
            then requeue initial t w1
            else poll_task poll initial t f w1))
  unfolding turn
  run_task_lem t xs ys v i =
      let (q, e, h) = dequeue_task_lem w.pool (t ∷ xs) ys ys v in
      let (a, ea, va) = start-IsPool w.pool t xs ys v q h i in
      let (f, ef) = future-some w.pool (t ∷ xs) ys ys v t i in
      (
        q,
        a,
        f,
        ef,
        va,
        rw (e, turn)
            (after_dequeue-run t f q a ef ea (ground (arith, v.marked t))
              (ground (arith, v.waiting_used t))),
      )

  requeue-run :
      (t : Ptr) (p : FuturesUnordered (FutureObject Fut)) (q : ReadyToRunQueue) (a : AllTasks)
      → link p.all t ≡ some a
      → enqueue p.ready_to_run_queue t ≡ some q
      → requeue initial t (with_pool w p)
        ≡ ok (came_round initial t) (with_pool w (requeued p q a t))
  unfolding requeue link_all enqueue_task
  requeue-run t p q a ea eq = ground (arith, ea, eq)

  -- A round of `poll_next` that takes a task of the pool that was polled in this cycle polls
  -- nothing: the task goes to the end of the queue and to the front of the list, and the cycle ends
  -- if it is the remembered task.
  pub turn-requeue :
      (t : Ptr) (xs ys : List Ptr)
      → IsValid w (t ∷ xs) ys
      → has t ys ≡ true
      → leb w.pool.poll_counter (w.pool.last_polled t) ≡ true
      → (w' : World Fut D) × (turn poll initial w ≡ ok (came_round initial t) w')
        × IsValid w' (xs ++ t ∷ []) (t ∷ erase t ys)
        × (w'.pool.last_polled ≡ w.pool.last_polled)
        × (w'.pool.poll_counter ≡ w.pool.poll_counter)
        × (w'.pool.fresh ≡ w.pool.fresh)
  turn-requeue t xs ys v i b =
      let (q, a, f, ef, va, e) = run_task_lem t xs ys v i in
      let only = has-erase_iff w.pool (t ∷ xs) ys ys v t in
      let distinct = Holds-IsDistinct w.pool.ready_to_run_queue (t ∷ xs) v.waiting in
      let (a2, q2, ea, eq, v2) =
        requeue-IsPool (started w.pool q a t) t xs (erase t ys) ys va i (ground (arith, only t))
          (distinct.0) only in
      (
        with_pool w (requeued (started w.pool q a t) q2 a2 t),
        e ∙ rw b (requeue-run t (started w.pool q a t) q2 a2 ea eq),
        v2,
        refl,
        refl,
        refl,
      )

pub register_waker-IsValid :
    {Fut D : Type 0} (w : World Fut D) (xs ys : List Ptr)
    → IsValid w xs ys
    → IsValid (register_waker w) xs ys
unfolding register_waker
register_waker-IsValid w xs ys v = IsPool-frame w.pool xs ys ys _ _ _ v
