-- ===== src/FuturesUnordered/Wakes.antt =====
-- `push` and `Task::wake_by_ref` and the invariant of the pool.
use cosync.Base.{
  ℕ, suc, ◌≤◌, ◌≡◌, ◌≢◌, refl, true, false, List, [], ◌∷◌, ◌++◌, some, none, Option, arith, Ptr,
  null, update, has, has-append, if◌then◌else◌, Bool-cases, inl, inr,
}
use cosync.AtomicWaker
use cosync.AllTasks.Linked.{IsAll, Linked-frame, Counted}
use cosync.AllTasks.Edits.{link-cons}
use cosync.ReadyToRunQueue.Contents.{enqueue-Holds, Holds-frame}
use cosync.FuturesUnordered.{FuturesUnordered, alloc, link_all, enqueue_task, push, wake_task}
use cosync.FuturesUnordered.Valid.{IsPool}

-- What a wake leaves alone.
pub record IsSame {Fut : Type 0} (p p' : FuturesUnordered Fut) : Type 0 where
  pub future : p'.future ≡ p.future
  pub last_polled : p'.last_polled ≡ p.last_polled
  pub all : p'.all ≡ p.all
  pub poll_counter : p'.poll_counter ≡ p.poll_counter
  pub fresh : p'.fresh ≡ p.fresh

abbrev pub woken : {Fut : Type 0} → FuturesUnordered Fut → List Ptr → Ptr → List Ptr
woken p xs t = if p.queued t then xs else xs ++ t ∷ []

module _ {Fut : Type 0} (p : FuturesUnordered Fut) (xs ys live : List Ptr)
    (v : IsPool p xs ys live) where
  -- `wake_by_ref` of any waker leaves a valid pool. It puts the task at the end of the ready to run
  -- queue unless its mark says that it is queued or done, changes neither the futures nor the list
  -- of all tasks, and leaves the mark set.
  pub wake_task-IsPool :
      (t : Ptr)
      → (r : Option ℕ) × (p' : FuturesUnordered Fut) × (wake_task p t ≡ some (r, p'))
        × IsPool p' (woken p xs t) ys live
        × IsSame p p'
        × (p'.queued t ≡ true)
  unfolding wake_task enqueue_task
  wake_task-IsPool t = elim (Bool-cases (p.queued t)) [
    | inl e ↦ rw e (
      none,
      p,
      refl,
      v,
      record { future = refl; last_polled = refl; all = refl; poll_counter = refl; fresh = refl },
      e,
    )
    | inr e ↦
        let idle : (has t xs ≡ false) × (has t live ≡ true) = ground (arith, v.marked t) in
        let used = v.live_used t (idle.1) in
        let (q, r, h) = enqueue-Holds t v.waiting (omega arith) (omega arith) (idle.0) in
        let (w, k) = AtomicWaker.take p.waker in
        rw (e, r)
          (
            w,
            record p { queued = update p.queued t true; ready_to_run_queue = q; waker = k },
            refl,
            record {
              waiting = h;
              tasks = v.tasks;
              linked_live = v.linked_live;
              futures = v.futures;
              marked = λ s. ground (arith, v.marked s, has-append s xs (t ∷ []));
              waiting_used = λ s i. ground (arith, v.waiting_used s, has-append s xs (t ∷ []));
              live_used = v.live_used;
              room = v.room;
            },
            record {
              future = refl;
              last_polled = refl;
              all = refl;
              poll_counter = refl;
              fresh = refl;
            },
            ground arith,
          )
  ]

  alloc-tasks : (f : Fut) → IsAll (alloc p f).all ys
  unfolding alloc
  alloc-tasks f = record {
    linked =
        Linked-frame _ _ (alloc p f).all.next_all (alloc p f).all.prev_all null p.all.head_all ys
          v.tasks.linked (λ q i. (ground (arith, new q i), ground (arith, new q i)));
    counted = counted ys v.tasks.counted new;
    outside = λ q o. (ground (arith, v.tasks.outside q o), ground (arith, v.tasks.outside q o));
  }
    where
      new : (q : Ptr) → has q ys ≡ true → q ≢ p.fresh
      new q i = omega (arith, v.live_used q (v.linked_live q i))

      counted :
          (zs : List Ptr)
          → Counted p.all.len_all zs
          → ((q : Ptr) → has q zs ≡ true → q ≢ p.fresh)
          → Counted (update p.all.len_all p.fresh 0) zs
      counted [] c n = tt
      counted (z ∷ zs) c n = ground (arith, n z)

  -- `push` on a valid pool succeeds and leaves a valid pool: the new task holds the future, is first
  -- in the list of all tasks and last in the ready to run queue, counts as not polled, and the other
  -- futures and marks stay as they are.
  pub push-IsPool :
      (f : Fut)
      → (p' : FuturesUnordered Fut) × (push p f ≡ some p')
        × IsPool p' (xs ++ p.fresh ∷ []) (p.fresh ∷ ys) (p.fresh ∷ live)
        × (p'.future ≡ update p.future p.fresh (some f))
        × (p'.last_polled ≡ update p.last_polled p.fresh 0)
        × (p'.poll_counter ≡ p.poll_counter)
        × (p'.fresh ≡ suc p.fresh)
  unfolding push link_all enqueue_task alloc
  push-IsPool f =
      let t = p.fresh in
      let out : (has t xs ≡ false) × (has t ys ≡ false) =
        (ground (arith, v.waiting_used t), ground (arith, v.linked_live t, v.live_used t)) in
      let room : 2 ≤ t = v.room in
      let (a, ea, va) =
        link-cons (alloc p f).all ys t (alloc-tasks f) (omega arith) (omega arith) (out.1) in
      let (q, eq, h) =
        enqueue-Holds t (Holds-frame p.ready_to_run_queue xs t null v.waiting (omega arith) (out.0))
          (omega arith) (omega arith) (out.0) in
      (
        record (alloc p f) { all = a; ready_to_run_queue = q },
        rw (ea, eq),
        record {
          waiting = h;
          tasks = va;
          linked_live = λ s i. ground (arith, v.linked_live s);
          futures = λ s. ground (arith, v.futures s);
          marked = λ s. ground (arith, v.marked s, has-append s xs (t ∷ []));
          waiting_used = λ s i. ground (arith, v.waiting_used s, has-append s xs (t ∷ []));
          live_used = λ s i. ground (arith, v.live_used s);
          room = omega arith;
        },
        refl,
        refl,
        refl,
        refl,
      )
