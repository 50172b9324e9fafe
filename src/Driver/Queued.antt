-- ===== src/Driver/Queued.antt =====
-- Queueing in src/lib.rs between runs, for futures that bring themselves nearer to their end.
use cosync.Base.{
  ℕ, suc, ◌≤◌, ◌<◌, ◌^◌, ◌≡◌, refl, sym, subst, ap, ◌∙◌, false, none, List, [], ◌∷◌, arith, Ptr,
  inl, inr,
}
use cosync.Notify.{Thread}
use cosync.FuturesUnordered.{alloc}
use cosync.FuturesUnordered as Pool
use cosync.AtomicWaker
use cosync.FuturesUnordered.Valid.{new-IsPool}
use cosync.Executor.{World, Script, FutureObject, create_future_object, raw_queue}
use cosync.Executor.Works.{Works, Below-append}
use cosync.Executor.Yields.{Yields, yields_ok, yields_fault}
use cosync.Executor.Ends.{Ends}
use cosync.Driver.Blocking.{NoTasks}
use cosync.Driver.Completes.{run_blocking-Ends}
use cosync.Driver.{new, handle_queue, run_blocking, next_cosync_task_id, cosync_queue}
use cosync.Driver.Spread.{push-cases, push-Each}
use cosync.Driver.Rest.{AtRest, Rested}

module _ {Fut D : Type 0} (measure : Fut → ℕ) (b : ℕ) where
  pub new-Rested : (th : Thread) → Rested {D = D} measure b (new th)
  unfolding new Pool.new AtomicWaker.new
  new-Rested th = record {
    each = λ s. tt;
    registering = refl;
    waking = refl;
    strong = refl;
    incoming = tt;
  }

  pub cosync_queue-Rested :
      (f : Fut) (w : World Fut D)
      → measure f ≤ b
      → Rested measure b w
      → Yields (Rested measure b) (cosync_queue f w)
  unfolding cosync_queue next_cosync_task_id alloc
  cosync_queue-Rested f w h r =
      let g = create_future_object f w.counter in
      elim (push-cases g w.pool) [
        | inl e ↦ rw (e, cosync_queue) yields_fault
        | inr (a, q, e) ↦
            rw (e, cosync_queue)
              (yields_ok (record {
                each =
                    push-Each (AtRest measure b w.pool.poll_counter) g w a q r.each
                      (refl, h, omega arith);
                registering = r.registering;
                waking = r.waking;
                strong = r.strong;
                incoming = r.incoming;
              }))
      ]

  pub raw_queue-Rested :
      (f : Fut) (w : World Fut D)
      → measure f ≤ b
      → Rested measure b w
      → Rested measure b (raw_queue f w).1
  unfolding raw_queue
  raw_queue-Rested f w h r = record {
    each = r.each;
    registering = r.registering;
    waking = r.waking;
    strong = r.strong;
    incoming =
        Below-append measure (suc b) w.incoming (create_future_object f w.counter ∷ []) r.incoming
          (omega (arith, h), tt);
  }

abbrev pub AtMost : {Fut : Type 0} → (Fut → ℕ) → ℕ → List Fut → Type 0
AtMost measure b [] = Unit
AtMost measure b (f ∷ fs) = (measure f ≤ b) × AtMost measure b fs

module _ {Fut D : Type 0} where
  -- Tasks are queued by a queue handle, one after the other.
  abbrev pub queue_all : List Fut → World Fut D → World Fut D
  queue_all [] w = w
  queue_all (f ∷ fs) w = queue_all fs (handle_queue f w).1

  handle_queue-open :
      (f : Fut) (w : World Fut D) → w.strong ≡ 1 → (handle_queue f w).1 ≡ (raw_queue f w).1
  unfolding handle_queue
  handle_queue-open f w e = rw e refl

  pub queue_all-Rested :
      (measure : Fut → ℕ) (b : ℕ) (fs : List Fut) (w : World Fut D)
      → AtMost measure b fs
      → Rested measure b w
      → Rested measure b (queue_all fs w)
        × ((queue_all fs w).pool ≡ w.pool)
        × ((queue_all fs w).thread ≡ w.thread)
  unfolding raw_queue
  queue_all-Rested measure b [] w h r = (r, refl, refl)
  queue_all-Rested measure b (f ∷ fs) w h r =
      subst
        (λ u.
          Rested measure b (queue_all fs u)
          × ((queue_all fs u).pool ≡ w.pool)
          × ((queue_all fs u).thread ≡ w.thread))
        (sym (handle_queue-open f w r.strong))
        (queue_all-Rested measure b fs (raw_queue f w).1 (h.1)
          (raw_queue-Rested measure b f w (h.0) r))

  -- Let every future have a measure such that its polls do not panic, a poll that is pending has
  -- woken its own task and leaves a smaller measure, and what it queues has a smaller measure than
  -- it. On a new `Cosync` and a thread in no executor, if a queue handle queues any tasks of
  -- measures at most `b` and `b + 1` is below `2 ^ 64`, then `run_blocking` returns: from some fuel
  -- of `poll_next` on, and with `b + 1` rounds for the other two loops, the result is always the
  -- same, without a panic. No task is left in the pool or in the incoming queue, the box holds no
  -- pointer and the mark of `enter` is gone.
  pub new-Ends :
      (measure : Fut → ℕ) (poll : Fut → Script Fut D)
      → ((f : Fut) (t : Ptr) → Works measure t false (measure f) (poll f))
      → (b : ℕ) (fs : List Fut) (th : Thread) (d : D) → AtMost measure b fs
      → th.entered ≡ false
      → suc b < 2 ^ 64
      → Ends
          (suc b)
          (λ n k j. run_blocking poll n k j d (queue_all fs (new th)))
          (λ d' w'. NoTasks w' × (w'.heap_ptr ≡ none) × (w'.thread.entered ≡ false))
  unfolding new Pool.new
  new-Ends measure poll works b fs th d h e small =
      let (r, pool, thread) = queue_all-Rested measure b fs (new th) h (new-Rested measure b th) in
      run_blocking-Ends measure poll works b d (queue_all fs (new th)) [] [] (rw pool new-IsPool) r
        (ap (λ (t : Thread). t.entered) thread ∙ e)
        (omega (
          arith,
          ap (λ (p : Pool.FuturesUnordered (FutureObject Fut)). p.poll_counter) pool,
          small,
        ))
