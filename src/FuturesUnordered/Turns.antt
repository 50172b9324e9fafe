-- ===== src/FuturesUnordered/Turns.antt =====
-- The parts of one turn of `poll_next` and the invariant of the pool: a task is taken from the
-- queue, and dropped, or unlinked; after its poll it is linked again or released.
use cosync.Base.{
  ◌≡◌, refl, true, false, ◌&&◌, not, List, [], ◌∷◌, ◌++◌, some, none, arith, Ptr, null, update, has,
  erase, has-append, has-erase, has-erase_self, ◌==◌,
}
use cosync.AllTasks.{AllTasks, link, unlink}
use cosync.AllTasks.Linked.{Linked-IsDistinct}
use cosync.AllTasks.Edits.{link-cons, unlink-erase}
use cosync.ReadyToRunQueue.{ReadyToRunQueue, enqueue}
use cosync.ReadyToRunQueue.Contents.{
  Holds, enqueue-Holds, dequeue-Holds, front, rest, Holds-IsDistinct,
}
use cosync.FuturesUnordered.{FuturesUnordered, link_all, dequeue_task, release_task}
use cosync.FuturesUnordered.Valid.{IsPool}

abbrev pub with_queue :
    {Fut : Type 0} → FuturesUnordered Fut → ReadyToRunQueue → FuturesUnordered Fut
with_queue p q = record p { ready_to_run_queue = q }

-- The state while `t` is polled: unlinked, and with the flag `queued` reset.
abbrev pub started :
    {Fut : Type 0} → FuturesUnordered Fut → ReadyToRunQueue → AllTasks → Ptr → FuturesUnordered Fut
started p q a t = record p { ready_to_run_queue = q; all = a; queued = update p.queued t false }

module _ {Fut : Type 0} (p : FuturesUnordered Fut) (xs ys live : List Ptr)
    (v : IsPool p xs ys live) where
  pub dequeue_task_lem :
      (q : ReadyToRunQueue) × (dequeue_task p ≡ some (front xs, with_queue p q)) × Holds q (rest xs)
  unfolding dequeue_task
  dequeue_task_lem = let (q, e, h) = dequeue-Holds v.waiting in (q, rw e, h)

  pub with_queue-IsPool : (q : ReadyToRunQueue) → Holds q xs → IsPool (with_queue p q) xs ys live
  with_queue-IsPool q h = record {
    waiting = h;
    tasks = v.tasks;
    linked_live = v.linked_live;
    futures = v.futures;
    marked = v.marked;
    waiting_used = v.waiting_used;
    live_used = v.live_used;
    room = v.room;
  }

  pub has-erase_iff : (t s : Ptr) → has s (erase t ys) ≡ (not (s == t) && has s ys)
  has-erase_iff t s = ground (
    arith,
    has-erase t s ys,
    has-erase_self t ys (Linked-IsDistinct _ _ null p.all.head_all ys v.tasks.linked),
  )

module _ {Fut : Type 0} (p : FuturesUnordered Fut) (t : Ptr) (xs ys : List Ptr)
    (v : IsPool p (t ∷ xs) ys ys) (q : ReadyToRunQueue) (h : Holds q xs) where
  -- A task without a future is dropped from the queue.
  pub discard-IsPool : has t ys ≡ false → IsPool (with_queue p q) xs ys ys
  discard-IsPool o = record {
    waiting = h;
    tasks = v.tasks;
    linked_live = v.linked_live;
    futures = v.futures;
    marked = λ s. ground (arith, v.marked s);
    waiting_used = λ s i. ground (arith, v.waiting_used s);
    live_used = v.live_used;
    room = v.room;
  }

  pub start-IsPool :
      has t ys ≡ true
      → (a : AllTasks) × (unlink p.all t ≡ some a) × IsPool (started p q a t) xs (erase t ys) ys
  start-IsPool i =
      let (a, e, va) = unlink-erase p.all ys t v.tasks i in
      let distinct = Holds-IsDistinct _ _ v.waiting in
      (
        a,
        e,
        record {
          waiting = h;
          tasks = va;
          linked_live = λ s j. ground (arith, has-erase_iff p (t ∷ xs) ys ys v t s);
          futures = v.futures;
          marked = λ s. ground (arith, v.marked s);
          waiting_used = λ s j. ground (arith, v.waiting_used s);
          live_used = v.live_used;
          room = v.room;
        },
      )

-- The state after the future of a task was dropped.
abbrev pub released : {Fut : Type 0} → FuturesUnordered Fut → Ptr → FuturesUnordered Fut
released p t = record p { queued = update p.queued t true; future = update p.future t none }

module _ {Fut : Type 0} (p : FuturesUnordered Fut) (t : Ptr) (xs zs live : List Ptr)
    (v : IsPool p xs zs live) (i : has t live ≡ true) (o : has t zs ≡ false)
    (only : (s : Ptr) → has s zs ≡ (not (s == t) && has s live)) where
  -- The task is pending: it is linked at the front, with the future's new state.
  pub pending-IsPool :
      (f : Fut)
      → (p' : FuturesUnordered Fut) × (link_all (record p { future = update p.future t (some f) }) t
          ≡ some p')
        × IsPool p' xs (t ∷ zs) (t ∷ zs)
        × (p' ≡ record p { future = update p.future t (some f); all = p'.all })
  unfolding link_all
  pending-IsPool f =
      let used = v.live_used t i in
      let (a, e, va) = link-cons p.all zs t v.tasks (omega arith) (omega arith) o in
      (
        record p { future = update p.future t (some f); all = a },
        rw e,
        record {
          waiting = v.waiting;
          tasks = va;
          linked_live = λ s j. j;
          futures = λ s. ground (arith, v.futures s, only s);
          marked = λ s. ground (arith, v.marked s, only s);
          waiting_used = v.waiting_used;
          live_used = λ s j. ground (arith, v.live_used s, only s);
          room = v.room;
        },
        refl,
      )

  -- The task is done, or its poll panicked: it is released.
  pub release-released : release_task p t ≡ some (released p t)
  unfolding release_task
  release-released = ground (arith, v.tasks.outside t o)

  pub release-IsPool : IsPool (released p t) xs zs zs
  release-IsPool = record {
    waiting = v.waiting;
    tasks = v.tasks;
    linked_live = λ s j. j;
    futures = λ s. ground (arith, v.futures s, only s);
    marked = λ s. ground (arith, v.marked s, only s);
    waiting_used = v.waiting_used;
    live_used = λ s j. ground (arith, v.live_used s, only s);
    room = v.room;
  }

-- The state after a task went straight back: queued, linked and enqueued again.
abbrev pub requeued :
    {Fut : Type 0} → FuturesUnordered Fut → ReadyToRunQueue → AllTasks → Ptr → FuturesUnordered Fut
requeued p q a t = record p { ready_to_run_queue = q; all = a; queued = update p.queued t true }

module _ {Fut : Type 0} (p : FuturesUnordered Fut) (t : Ptr) (xs zs live : List Ptr)
    (v : IsPool p xs zs live) (i : has t live ≡ true) (o : has t zs ≡ false) (n : has t xs ≡ false)
    (only : (s : Ptr) → has s zs ≡ (not (s == t) && has s live)) where
  pub requeue-IsPool :
      (a : AllTasks) × (q : ReadyToRunQueue) × (link p.all t ≡ some a)
      × (enqueue p.ready_to_run_queue t ≡ some q)
      × IsPool (requeued p q a t) (xs ++ t ∷ []) (t ∷ zs) (t ∷ zs)
  requeue-IsPool =
      let used = v.live_used t i in
      let (a, ea, va) = link-cons p.all zs t v.tasks (omega arith) (omega arith) o in
      let (q, eq, h) = enqueue-Holds t v.waiting (omega arith) (omega arith) n in
      (
        a,
        q,
        ea,
        eq,
        record {
          waiting = h;
          tasks = va;
          linked_live = λ s j. j;
          futures = λ s. ground (arith, v.futures s, only s);
          marked = λ s. ground (arith, v.marked s, only s, has-append s xs (t ∷ []));
          waiting_used = λ s j. ground (arith, v.waiting_used s, has-append s xs (t ∷ []));
          live_used = λ s j. ground (arith, v.live_used s, only s);
          room = v.room;
        },
      )
