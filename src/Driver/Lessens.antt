-- ===== src/Driver/Lessens.antt =====
-- One `run` of src/lib.rs on futures that bring themselves nearer to their end.
use cosync.Base.{
  ℕ, zero, suc, ◌+◌, ◌<◌, ◌≡◌, ◌^◌, refl, ap, ◌∙◌, false, true, none, some, List, [], ◌∷◌, arith,
  Ptr, has,
}
use cosync.Notify.{enter}
use cosync.Executor.{World, Script, ok, Poll}
use cosync.Executor.Turns.{IsValid}
use cosync.Executor.Works.{Works}
use cosync.Executor.Ends.{Ends}
use cosync.Driver.{poll_pool, leave, run_with, run}
use cosync.Driver.Ends.{Stalled}
use cosync.Driver.Rest.{Rested, poll_pool-Ends}
use cosync.Driver.Between.{Stalled-Rested, Stalled-live, left_world, leave-ok, returned-IsOpen}
use cosync.Driver.Open.{poll_pool-Keeps}

-- The measures have gone down by one: below zero no task is left.
abbrev pub Less : {Fut D : Type 0} → (Fut → ℕ) → ℕ → World Fut D → List Ptr → Type 0
Less measure zero w ys = ys ≡ []
Less measure (suc b) w ys = Rested measure b w

-- After a run.
pub record Lessened {Fut D : Type 0} (measure : Fut → ℕ) (b n : ℕ) (w : World Fut D) : Type 0 where
  pub queue : List Ptr
  pub tasks : List Ptr
  pub valid : IsValid w queue tasks
  pub less : Less measure b w tasks
  pub incoming : w.incoming ≡ []
  pub poll_counter : w.pool.poll_counter ≡ n
  pub heap_ptr : w.heap_ptr ≡ none
  pub entered : w.thread.entered ≡ false

module _ {Fut D : Type 0} (measure : Fut → ℕ) where
  no_task_left :
      (n : ℕ) (r : Poll) (w : World Fut D) (k : Stalled measure zero n r w) (ts : List Ptr)
      → k.tasks ≡ ts
      → k.tasks ≡ []
  no_task_left n r w k [] e = e
  no_task_left n r w k (t ∷ ts) e =
      let left : has t k.tasks ≡ true = rw e (ground arith) in
      absurd (omega (arith, (Stalled-live measure zero n r w k t left).1))

  Stalled-Less :
      (b n : ℕ) (r : Poll) (w : World Fut D) (k : Stalled measure b n r w)
      → Less measure b (left_world w) k.tasks
  Stalled-Less zero n r w k = no_task_left n r w k k.tasks refl
  Stalled-Less (suc b) n r w k =
      let s = Stalled-Rested measure b n r w w.thread k in
      record {
        each = s.each;
        registering = s.registering;
        waking = s.waking;
        strong = s.strong;
        incoming = s.incoming;
      }

module _ {Fut D : Type 0} (measure : Fut → ℕ) (poll : Fut → Script Fut D)
    (works : (f : Fut) (t : Ptr) → Works measure t false (measure f) (poll f)) where
  run_lem :
      (n k : ℕ) (d : D) (w : World Fut D)
      → w.thread.entered ≡ false
      → run poll n k d w
        ≡ leave (
            poll_pool poll n k
              (record w { heap_ptr = some d; thread = record w.thread { entered = true } }))
  unfolding run run_with enter
  run_lem n k d w e = rw e refl

  -- Let every future have a measure such that its polls do not panic, a poll that is pending has
  -- woken its own task and leaves a smaller measure, and what it queues has a smaller measure than
  -- it. Let the pool be valid and at rest, on a thread in no executor: all tasks stand in the ready
  -- to run queue, no measure in the pool or in the incoming queue is above `b`, no task counts as
  -- polled in a later cycle, no other thread is within the atomic waker and there is one strong
  -- reference to the incoming queue. If the counter of cycles does not wrap around at its next step,
  -- then `run` returns: from some fuel of `poll_next` on, and with `b + 1` rounds for the loop of
  -- `poll_pool`, the result is always the same, without a panic. The incoming queue is empty, the
  -- counter is one more, the box holds no pointer, the mark of `enter` is gone, and the pool is at
  -- rest again with measures of `b - 1` at most; for `b` zero no task is left.
  pub run-Ends :
      (b : ℕ) (d : D) (w : World Fut D) (xs ys : List Ptr)
      → IsValid w xs ys
      → Rested measure b w
      → w.thread.entered ≡ false
      → suc w.pool.poll_counter < 2 ^ 64
      → Ends
          (suc b)
          (λ n k j. run poll n k d w)
          (λ d' w'. Lessened measure b (suc w.pool.poll_counter) w')
  run-Ends b d w xs ys v r e small =
      let open_world = record w {
        heap_ptr = some d;
        thread = record w.thread { entered = true };
      } in
      let h =
        poll_pool-Ends measure poll works b open_world xs ys v
          (record {
            each = r.each;
            registering = r.registering;
            waking = r.waking;
            strong = r.strong;
            incoming = r.incoming;
          })
          refl small in
      let most = h.enough + suc b in
      let returns : poll_pool poll most most open_world ≡ ok h.value h.state =
        h.settles most most most (omega arith) (omega arith) (omega arith) in
      let kept =
        returned-IsOpen _ h.value h.state (poll_pool-Keeps poll most most open_world (refl, refl))
          returns in
      let (d', left) = leave-ok h.value h.state kept in
      record {
        enough = h.enough;
        value = d';
        state = left_world h.state;
        settles = λ n k j l m i. run_lem n k d w e ∙ ap leave (h.settles n k j l m i) ∙ left;
        post = record {
          queue = h.post.queue;
          tasks = h.post.tasks;
          valid = h.post.valid;
          less = Stalled-Less measure b _ _ h.state h.post;
          incoming = h.post.incoming;
          poll_counter = h.post.poll_counter;
          heap_ptr = refl;
          entered = refl;
        };
      }
