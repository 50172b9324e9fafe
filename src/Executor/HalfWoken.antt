-- ===== src/Executor/HalfWoken.antt =====
-- A wake by another thread whose `enqueue` stands between its two writes, and a `poll_next` of
-- src/futures/futures_unordered.rs at that moment.
use cosync.Base.{
  ℕ, suc, ◌≤◌, ◌≡◌, ◌≢◌, refl, ◌∙◌, ap, subst, true, false, Option, none, some, List, [], ◌∷◌,
  arith, Ptr, stub, has, update, inl, ◌>>=◌,
}
use cosync.AllTasks.Linked.{IsAll}
use cosync.AtomicWaker
use cosync.Notify.{wake_thread}
use cosync.ReadyToRunQueue.{ReadyToRunQueue, Dequeue, swap_head, link_prev, enqueue, dequeue}
use cosync.ReadyToRunQueue.Chain.{IsQueue, no_gap, Chain-frame}
use cosync.ReadyToRunQueue.Fifo.{gap_behind, swap_head_lem, link_prev_lem, dequeue-take_next}
use cosync.ReadyToRunQueue.Contents.{Holds}
use cosync.FuturesUnordered.{FuturesUnordered, wake_task, enqueue_task, dequeue_task, is_empty}
use cosync.Executor.{
  World, Script, ok, fault, poll_pending, done, Cmd, with_pool, wake_cmd, after_dequeue, turn,
  poll_loop, poll_next, register_waker,
}
use cosync.Executor.Turns.{IsValid}
use cosync.Executor.Works.{Armed}
use cosync.Executor.Working.{rings}
use cosync.Executor.Ends.{register_waker-Armed}

module _ {Fut D : Type 0} where
  -- The wake of a task that is not queued, up to the first write of `enqueue`, which gives the old
  -- head.
  unfoldable pub begin_wake : Ptr → World Fut D → Option (Ptr × World Fut D)
  begin_wake t w = do
    (prev, q) ← swap_head w.pool.ready_to_run_queue t
    some (
      prev,
      with_pool w (record w.pool { queued = update w.pool.queued t true; ready_to_run_queue = q }),
    )

  -- The rest: the second write, and the wake of the executor.
  unfoldable pub end_wake : Ptr → Ptr → Cmd Fut D (Unit {0})
  end_wake prev t w = elim (link_prev w.pool.ready_to_run_queue prev t) [
    | none ↦ fault
    | some q ↦
        let r = AtomicWaker.wake w.pool.waker in
        ok tt (record w {
          pool = record w.pool { ready_to_run_queue = q; waker = r.1 };
          thread = wake_thread w.thread r.0;
        })
  ]

  -- The two parts one after the other are the wake.
  whole_wake :
      (t : Ptr) (w : World Fut D) (q : ReadyToRunQueue)
      → w.pool.queued t ≡ false
      → swap_head w.pool.ready_to_run_queue t ≡ some (stub, q)
      → wake_cmd t w
        ≡ end_wake stub t (
            with_pool w
              (record w.pool { queued = update w.pool.queued t true; ready_to_run_queue = q }))
  unfolding wake_cmd wake_task enqueue_task enqueue end_wake
  whole_wake t w q e h = ground (arith, e, h)

  begin_wake_lem :
      (t : Ptr) (w : World Fut D) (q : ReadyToRunQueue)
      → swap_head w.pool.ready_to_run_queue t ≡ some (stub, q)
      → begin_wake t w
        ≡ some (
          stub,
          with_pool w
              (record w.pool { queued = update w.pool.queued t true; ready_to_run_queue = q }),
        )
  unfolding begin_wake
  begin_wake_lem t w q e = rw e refl

  abbrev rung : World Fut D → ReadyToRunQueue → World Fut D
  rung w q = record w {
    pool = record w.pool { ready_to_run_queue = q; waker = (AtomicWaker.take w.pool.waker).1 };
    thread = wake_thread w.thread (AtomicWaker.take w.pool.waker).0;
  }

  end_wake_lem :
      (t : Ptr) (w : World Fut D) (q : ReadyToRunQueue)
      → link_prev w.pool.ready_to_run_queue stub t ≡ some q
      → end_wake stub t w ≡ ok tt (rung w q)
  unfolding end_wake
  end_wake_lem t w q e = rw (e, end_wake) refl

-- An empty queue is the stub alone.
only_stub : (q : ReadyToRunQueue) → Holds q [] → IsQueue q no_gap (stub ∷ [])
only_stub q ([], v, e) = absurd v.chain
only_stub q (x ∷ [], v, e) =
    let same : x ≡ stub = ground (arith, e) in subst (λ y. IsQueue q no_gap (y ∷ [])) same v
only_stub q (x ∷ y ∷ c, v, e) = ground (arith, e, v.chain)

closed :
    (q : ReadyToRunQueue) (t : Ptr)
    → t ≢ stub
    → IsQueue q (update (gap_behind no_gap stub t) stub false) (stub ∷ t ∷ [])
    → Holds q (t ∷ [])
closed q t ns v = (
  stub ∷ t ∷ [],
  record {
    chain =
        Chain-frame q.next_ready_to_run (update (gap_behind no_gap stub t) stub false) q.head
          q.next_ready_to_run no_gap (stub ∷ t ∷ []) v.chain (λ p i. ground arith);
    starts = v.starts;
    gaps = λ p g. cc;
  },
  ground arith,
)

nonempty :
    {Fut : Type 0} (p : FuturesUnordered Fut) (t : Ptr) (ys : List Ptr)
    → IsAll p.all ys
    → has t ys ≡ true
    → is_empty p ≡ false
unfolding is_empty
nonempty p t [] v i = cc
nonempty p t (y ∷ ys) v i = ground (arith, v.linked)

-- The queue after `enqueue` with a `dequeue` between its two writes.
half_queue :
    (q : ReadyToRunQueue) (t : Ptr)
    → Holds q []
    → 2 ≤ t
    → (q1 : ReadyToRunQueue) × (q2 : ReadyToRunQueue) × (q3 : ReadyToRunQueue) × (swap_head q t
        ≡ some (stub, q1))
      × (dequeue q1 ≡ some (Dequeue.empty, q2))
      × (link_prev q2 stub t ≡ some q3)
      × Holds q3 (t ∷ [])
half_queue q t h used =
    let v = only_stub q h in
    let headed : q.head ≡ stub = v.chain.1 in
    let (q1, e1, v1, h1) = swap_head_lem t v (omega (arith, used)) (ground (arith, used)) in
    let gap = gap_behind no_gap stub t in
    let seen = subst (λ a. IsQueue q1 (gap_behind no_gap a t) (stub ∷ t ∷ [])) headed v1 in
    let (q2, e2, v2) = dequeue-take_next q1 gap (stub ∷ t ∷ []) seen in
    let (q3, e3, v3) = link_prev_lem stub t v2 (inl (refl, refl)) (omega arith) in
    (q1, q2, q3, e1 ∙ ap (λ a. some (a, q1)) headed, e2, e3, closed q3 t (omega (arith, used)) v3)

module _ {Fut D : Type 0} (poll : Fut → Script Fut D) where
  -- Nothing is seen behind the stub.
  half_turn :
      (w : World Fut D) (q : ReadyToRunQueue)
      → dequeue w.pool.ready_to_run_queue ≡ some (Dequeue.empty, q)
      → is_empty w.pool ≡ false
      → turn poll none w
        ≡ ok (done poll_pending) (with_pool w (record w.pool { ready_to_run_queue = q }))
  unfolding turn after_dequeue dequeue_task is_empty
  half_turn w q e h = ground (arith, e, h)

  half_poll :
      (n : ℕ) (w : World Fut D) (q : ReadyToRunQueue)
      → dequeue w.pool.ready_to_run_queue ≡ some (Dequeue.empty, q)
      → is_empty w.pool ≡ false
      → poll_next poll (suc n) w
        ≡ ok poll_pending
            (let r = register_waker w in with_pool r (record r.pool { ready_to_run_queue = q }))
  unfolding poll_next poll_loop register_waker is_empty
  half_poll n w q e h = rw (half_turn (register_waker w) q e h) refl

  -- On a valid pool whose ready to run queue is empty, let another thread wake a task of the pool,
  -- and let `poll_next` run when that wake stands between the two writes of `enqueue`, with no
  -- thread within the atomic waker. The two parts of the wake one after the other are `wake_by_ref`.
  -- Still `poll_next` sees no task and returns pending. When the wake has ended, the pool is valid,
  -- the task stands in the ready to run queue, and the thread of the executor is told to go on: no
  -- wake is lost.
  pub poll_next-end_wake :
      (n : ℕ) (w : World Fut D) (t : Ptr) (ys : List Ptr)
      → IsValid w [] ys
      → has t ys ≡ true
      → w.pool.waker.registering ≡ false
      → w.pool.waker.waking ≡ false
      → (prev : Ptr) × (w1 : World Fut D) × (w2 : World Fut D) × (w3 : World Fut D) × (begin_wake t
            w
          ≡ some (prev, w1))
        × (wake_cmd t w ≡ end_wake prev t w1)
        × (poll_next poll (suc n) w1 ≡ ok poll_pending w2)
        × (end_wake prev t w2 ≡ ok tt w3)
        × IsValid w3 (t ∷ []) ys
        × (w3.thread.unparked ≡ true)
  unfolding register_waker
  poll_next-end_wake n w t ys v i free idle =
      let used = v.live_used t i in
      let (q1, q2, q3, e1, e2, e3, h) = half_queue w.pool.ready_to_run_queue t v.waiting (used.0) in
      let w1 =
        with_pool w
          (record w.pool { queued = update w.pool.queued t true; ready_to_run_queue = q1 }) in
      let r = register_waker w1 in
      let w2 = with_pool r (record r.pool { ready_to_run_queue = q2 }) in
      let a = register_waker-Armed w1 free idle in
      let armed : Armed w2 = record {
        registering = a.registering;
        waking = a.waking;
        alarm = a.alarm;
      } in
      (
        stub,
        w1,
        w2,
        rung w2 q3,
        begin_wake_lem t w q1 e1,
        whole_wake t w q1 (ground (arith, v.marked t, i)) e1,
        half_poll n w1 q2 e2 (nonempty w1.pool t ys v.tasks i),
        end_wake_lem t w2 q3 e3,
        record {
          waiting = h;
          tasks = v.tasks;
          linked_live = v.linked_live;
          futures = v.futures;
          marked = λ s. ground (arith, v.marked s, i);
          waiting_used = λ s k. ground (arith, used, k);
          live_used = v.live_used;
          room = v.room;
        },
        rings w2 armed,
      )
