-- ===== src/FuturesUnordered/Valid.antt =====
-- The invariant of the pool, over the tasks that wait in the ready to run queue (`xs`), the tasks
-- that are linked (`ys`) and those that hold a future (`live`): while a task is polled it is not
-- linked.
use cosync.Base.{
  is_some, ℕ, ◌≤◌, ◌<◌, ◌≡◌, refl, true, ◌||◌, not, List, [], ◌∷◌, arith, Ptr, stub, has,
}
use cosync.AtomicWaker.{AtomicWaker}
use cosync.AllTasks.Linked.{IsAll}
use cosync.ReadyToRunQueue.Contents.{Holds}
use cosync.FuturesUnordered.{FuturesUnordered, new}

pub record IsPool {Fut : Type 0} (p : FuturesUnordered Fut) (xs ys live : List Ptr) : Type 0 where
  pub waiting : Holds p.ready_to_run_queue xs
  pub tasks : IsAll p.all ys
  pub linked_live : (t : Ptr) → has t ys ≡ true → has t live ≡ true
  pub futures : (t : Ptr) → is_some (p.future t) ≡ has t live
  pub marked : (t : Ptr) → p.queued t ≡ (has t xs || not (has t live))
  pub waiting_used : (t : Ptr) → has t xs ≡ true → (2 ≤ t) × (t < p.fresh)
  pub live_used : (t : Ptr) → has t live ≡ true → (2 ≤ t) × (t < p.fresh)
  pub room : 2 ≤ p.fresh

module _ {Fut : Type 0} where
  -- The invariant says nothing of the polls and of the waker.
  pub IsPool-frame :
      (p : FuturesUnordered Fut) (xs ys live : List Ptr) (polled : Ptr → ℕ) (w : AtomicWaker ℕ)
      (c : ℕ)
      → IsPool p xs ys live
      → IsPool (record p { last_polled = polled; waker = w; poll_counter = c }) xs ys live
  IsPool-frame p xs ys live polled w c v = record {
    waiting = v.waiting;
    tasks = v.tasks;
    linked_live = v.linked_live;
    futures = v.futures;
    marked = v.marked;
    waiting_used = v.waiting_used;
    live_used = v.live_used;
    room = v.room;
  }

  pub new-IsPool : IsPool (new {Fut = Fut}) [] [] []
  unfolding new
  new-IsPool = record {
    waiting = (stub ∷ [], record { chain = ground arith; starts = refl; gaps = λ t g. cc }, refl);
    tasks = record { linked = refl; counted = tt; outside = λ t o. (refl, refl) };
    linked_live = λ t i. cc;
    futures = λ t. refl;
    marked = λ t. refl;
    waiting_used = λ t i. cc;
    live_used = λ t i. cc;
    room = omega arith;
  }
