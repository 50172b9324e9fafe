-- ===== src/Executor/Onward.antt =====
-- `poll_next` of src/futures/futures_unordered.rs on futures that bring themselves nearer to their
-- end.
use cosync.Base.{
  ℕ, zero, suc, ◌≤◌, ◌≡◌, inl, inr, refl, subst, Bool, true, false, ◌&&◌, ◌||◌, Option, none, some,
  arith, Ptr, null, stub, is_some, update, ◌==◌, leb, Bool-cases, Option-cases,
}
use cosync.AllTasks.{AllTasks}
use cosync.ReadyToRunQueue.{ReadyToRunQueue, Dequeue, dequeue}
use cosync.Notify.{wake_by_ref}
use cosync.FuturesUnordered.{dequeue_task, release_task}
use cosync.Executor.{
  World, Script, Body, user, empty_block, FutureObject, Run, ok, panic, fault, out_of_fuel, Poll,
  Turn, done, again, and_then, with_pool, exec, script, guarded, requeue, after_poll, poll_future,
  poll_task, run_task, after_dequeue, turn, poll_loop,
}
use cosync.Executor.Rounds.{is_seen}
use cosync.Executor.Works.{
  every, other_than, Works, rank, Fits, Fits-mono, Fits-new, Tracked, Tracked-recorded,
}
use cosync.Executor.Yields.{
  Yields, yields_ok, yields_fault, yields_out, if-Yields, and_then-Yields, link-Yields,
  unlink-Yields, enqueue-Yields, pooled_if-Yields,
}
use cosync.Executor.Working.{Working, Ran, exec-Ran}

module _ {Fut D : Type 0} (measure : Fut → ℕ) (b c : ℕ) where
  -- A change of the pool that leaves its counter and its waker.
  Tracked-edit :
      (except except' : Ptr → Bool) (w : World Fut D) (a : AllTasks) (q : ReadyToRunQueue)
      (m : Ptr → Bool) (l : Ptr → ℕ) (fu : Ptr → Option (FutureObject Fut))
      → Tracked measure b c except w
      → ((s : Ptr)
          → except' s ≡ false
          → Fits measure b c (leb w.pool.poll_counter (l s)) (m s) w.thread.unparked (fu s))
      → ((s : Ptr) → (is_some (fu s) || except' s) ≡ true → l s ≤ w.pool.poll_counter)
      → Tracked measure b c except' (
          with_pool w (record w.pool {
            all = a;
            ready_to_run_queue = q;
            queued = m;
            last_polled = l;
            future = fu;
          }))
  Tracked-edit except except' w a q m l fu k h marks = record {
    fits = h;
    marks = marks;
    armed = record {
      registering = k.armed.registering;
      waking = k.armed.waking;
      alarm = k.armed.alarm;
    };
    strong = k.strong;
    input = k.input;
    incoming = k.incoming;
  }

  -- The links and the marks `queued` change.
  Tracked-queued :
      (except : Ptr → Bool) (w : World Fut D) (a : AllTasks) (q : ReadyToRunQueue) (m : Ptr → Bool)
      → Tracked measure b c except w
      → ((s : Ptr) → w.pool.queued s ≡ true → m s ≡ true)
      → Tracked measure b c except
          (with_pool w (record w.pool { all = a; ready_to_run_queue = q; queued = m }))
  Tracked-queued except w a q m k h =
      Tracked-edit except except w a q m w.pool.last_polled w.pool.future k
        (λ s o. Fits-mono measure b c _ _ _ _ _ _ (h s) (λ u. u) (k.fits s o)) k.marks

  -- The branch for a task that was polled in this cycle already.
  requeue-Yields :
      (i : Option Ptr) (t : Ptr) (w : World Fut D) (a : AllTasks) (q : ReadyToRunQueue)
      → Tracked measure b c every w
      → Yields (Tracked measure b c every) (
          requeue i t (
            with_pool w (record w.pool {
              all = a;
              ready_to_run_queue = q;
              queued = update w.pool.queued t false;
            })))
  unfolding requeue
  requeue-Yields i t w a q k = link-Yields w _ t _ λ a'. enqueue-Yields w _ t _ λ q'. yields_ok (
      Tracked-queued every w a' q' (update (update w.pool.queued t false) t true) k
        (λ s e. ground (arith, e)))

  -- After a poll.
  after_poll-Yields :
      (i : Option Ptr) (t : Ptr) (id m : ℕ) (r : Run Fut D (Option Fut))
      → m ≤ b
      → m ≤ suc c
      → Ran measure b c t m r
      → Yields (Tracked measure b c every) (and_then (guarded t r) (after_poll i t id))
  unfolding after_poll release_task
  after_poll-Yields i t id m (ok none w) l l' k =
      pooled_if-Yields w (w.pool.all.next_all t == stub && w.pool.all.prev_all t == null) _
        (λ _ w'. ok (again i) w')
        (yields_ok (
          Tracked-edit (other_than t) every w w.pool.all w.pool.ready_to_run_queue
            (update w.pool.queued t true) w.pool.last_polled (update w.pool.future t none) k
            (λ s o. elim (Bool-cases (s == t)) [
              | inl e ↦
                  let gone : update w.pool.future t none s ≡ none = ground (arith, e) in rw gone tt
              | inr e ↦
                  let old : update w.pool.future t none s ≡ w.pool.future s = ground (arith, e) in
                  let mark : update w.pool.queued t true s ≡ w.pool.queued s = ground (arith, e) in
                  rw (old, mark) (k.fits s e)
            ])
            (λ s i. ground (arith, k.marks s))))
  after_poll-Yields i t id m (ok (some f) w) l l' (k, q, u, h) = link-Yields w _ t _ λ a.
      yields_ok (
        Tracked-edit (other_than t) every w a w.pool.ready_to_run_queue w.pool.queued
          w.pool.last_polled (update w.pool.future t (some (record { body = user f; id = id }))) k
          (λ s o. elim (Bool-cases (s == t)) [
            | inl e ↦
                let same : s ≡ t = ground arith in
                let new : update w.pool.future t (some (record { body = user f; id = id })) s
                    ≡ some (record { body = user f; id = id }) =
                  ground (arith, e) in
                rw new (Fits-new measure b c _ _ _ _ (rw same q) u (omega arith) (omega arith))
            | inr e ↦
                let old : update w.pool.future t (some (record { body = user f; id = id })) s
                    ≡ w.pool.future s =
                  ground (arith, e) in
                rw old (k.fits s e)
          ])
          (λ s i. ground (arith, k.marks s)))
  after_poll-Yields i t id m (panic w) l l' k = absurd k
  after_poll-Yields i t id m fault l l' k = yields_fault
  after_poll-Yields i t id m out_of_fuel l l' k = yields_out

module _ {Fut D : Type 0} (measure : Fut → ℕ) (poll : Fut → Script Fut D)
    (works : (f : Fut) (t : Ptr) → Works measure t false (measure f) (poll f)) (b c : ℕ)
    (cb : c ≤ b) where
  exec_body-Ran :
      (t : Ptr) (f : Body Fut) (w : World Fut D)
      → rank measure f ≤ c
      → Working measure b c t false w
      → Ran measure b c t (rank measure f) (exec t (script poll f) w)
  exec_body-Ran t (user f) w l k =
      exec-Ran measure b c t (measure f) false (poll f) w l (works f t) k
  exec_body-Ran t empty_block w l k = exec-Ran measure b c t 0 false Script.ready w l tt k

  -- The dequeued task `t` was unlinked and its mark taken back.
  abbrev taken : World Fut D → AllTasks → ReadyToRunQueue → Ptr → World Fut D
  taken w a q t =
      with_pool w
        (record w.pool { all = a; ready_to_run_queue = q; queued = update w.pool.queued t false })

  poll_task-Yields :
      (i : Option Ptr) (t : Ptr) (f : FutureObject Fut) (w : World Fut D) (a : AllTasks)
      (q : ReadyToRunQueue)
      → Tracked measure b c every w
      → rank measure f.body ≤ c
      → Yields (Tracked measure b c every) (poll_task poll i t f (taken w a q t))
  unfolding poll_task poll_future
  poll_task-Yields i t f w a q k l =
      after_poll-Yields measure b c i t f.id (rank measure f.body) _ (omega arith) (omega arith) (
        exec_body-Ran t f.body _ l (record {
          tracked = Tracked-recorded measure b c _ _ _ (
              Tracked-edit measure b c every (other_than t) w a q (update w.pool.queued t false)
                (update w.pool.last_polled t w.pool.poll_counter) w.pool.future k
                (λ s o.
                  let mark : update w.pool.queued t false s ≡ w.pool.queued s = ground (arith, o) in
                  let last : update w.pool.last_polled t w.pool.poll_counter s
                      ≡ w.pool.last_polled s =
                    ground (arith, o) in
                  rw (mark, last) (k.fits s refl))
                (λ s i. ground (arith, k.marks s)));
          done = λ e. cc;
          fresh = inl (ground arith);
        }))

  unseen-bound :
      (seen q u : Bool) (f : FutureObject Fut)
      → seen ≡ false
      → Fits measure b c seen q u (some f)
      → rank measure f.body ≤ c
  unseen-bound true q u f e h = cc
  unseen-bound false q u f e h = h.1

  run_task-Yields :
      (i : Option Ptr) (t : Ptr) (f : FutureObject Fut) (w : World Fut D) (q : ReadyToRunQueue)
      → Tracked measure b c every w
      → w.pool.future t ≡ some f
      → Yields
          (Tracked measure b c every)
          (run_task poll i t f (with_pool w (record w.pool { ready_to_run_queue = q })))
  unfolding run_task
  run_task-Yields i t f w q k e = unlink-Yields w _ t _ λ a.
      pooled_if-Yields w (w.pool.queued t) _ _ (elim (Bool-cases (is_seen w t)) [
        | inl seen ↦ rw seen (requeue-Yields measure b c i t w a q k)
        | inr unseen ↦ rw unseen (
            poll_task-Yields i t f w a q k (
              unseen-bound _ _ _ f unseen (
                subst (Fits measure b c (is_seen w t) (w.pool.queued t) w.thread.unparked) e
                  (k.fits t refl))))
      ])

  Tracked-yielded :
      (w : World Fut D) (q : ReadyToRunQueue)
      → Tracked measure b c every w
      → Tracked measure b c every (record w {
        pool = record w.pool { ready_to_run_queue = q };
        thread = wake_by_ref w.thread;
      })
  unfolding wake_by_ref
  Tracked-yielded w q k = record {
    fits = λ s o. Fits-mono measure b c _ _ _ _ _ _ (λ m. m) (λ u. ground (arith, u)) (k.fits s o);
    marks = k.marks;
    armed = record {
      registering = k.armed.registering;
      waking = k.armed.waking;
      alarm = inl (ground arith);
    };
    strong = k.strong;
    input = k.input;
    incoming = k.incoming;
  }

  dequeued-Tracked :
      (w : World Fut D) (q : ReadyToRunQueue)
      → Tracked measure b c every w
      → Tracked measure b c every (with_pool w (record w.pool { ready_to_run_queue = q }))
  dequeued-Tracked w q k =
      Tracked-queued measure b c every w w.pool.all q w.pool.queued k (λ s e. e)

  after_dequeue-Yields :
      (i : Option Ptr) (d : Dequeue) (w : World Fut D) (q : ReadyToRunQueue)
      → Tracked measure b c every w
      → Yields
          (Tracked measure b c every)
          (after_dequeue poll i d (with_pool w (record w.pool { ready_to_run_queue = q })))
  unfolding after_dequeue
  after_dequeue-Yields i Dequeue.empty w q k = yields_ok (dequeued-Tracked w q k)
  after_dequeue-Yields i Dequeue.inconsistent w q k = yields_ok (Tracked-yielded w q k)
  after_dequeue-Yields i (Dequeue.task t) w q k = elim (Option-cases (w.pool.future t)) [
    | inl e ↦
        rw (e, after_dequeue)
          (if-Yields _ yields_fault (if-Yields _ (yields_ok (dequeued-Tracked w q k)) yields_fault))
    | inr (f, e) ↦ rw (e, after_dequeue) (if-Yields _ yields_fault (run_task-Yields i t f w q k e))
  ]

  turn-Yields :
      (i : Option Ptr) (w : World Fut D)
      → Tracked measure b c every w
      → Yields (Tracked measure b c every) (turn poll i w)
  unfolding turn dequeue_task
  turn-Yields i w k = elim (Option-cases (dequeue w.pool.ready_to_run_queue)) [
    | inl e ↦ rw (e, turn) yields_fault
    | inr ((d, q), e) ↦ rw (e, turn) (after_dequeue-Yields i d w q k)
  ]

  next_turn-Yields :
      (n : ℕ) (r : Turn) (w : World Fut D)
      → ((j : Option Ptr) (w' : World Fut D)
          → Tracked measure b c every w'
          → Yields (Tracked measure b c every) (poll_loop poll n j w'))
      → Tracked measure b c every w
      → Yields {A = Poll}
          (Tracked measure b c every)
          (elim r [ done p ↦ ok p w | again j ↦ poll_loop poll n j w ])
  next_turn-Yields n (done p) w rec k = yields_ok k
  next_turn-Yields n (again j) w rec k = rec j w k

  pub loop-Yields :
      (n : ℕ) (i : Option Ptr) (w : World Fut D)
      → Tracked measure b c every w
      → Yields (Tracked measure b c every) (poll_loop poll n i w)
  unfolding poll_loop
  loop-Yields zero i w k = yields_out
  loop-Yields (suc n) i w k =
      and_then-Yields (turn-Yields i w k) (λ r w' k'. next_turn-Yields n r w' (loop-Yields n) k')
