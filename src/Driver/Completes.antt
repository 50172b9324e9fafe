-- ===== src/Driver/Completes.antt =====
-- `run_blocking` of src/lib.rs returns on futures that bring themselves nearer to their end.
use cosync.Base.{
  ℕ, zero, suc, ◌+◌, ◌<◌, ◌≡◌, ◌^◌, refl, ap, ◌∙◌, subst, true, false, none, some, List, [], ◌∷◌,
  arith, Ptr, has, is_some,
}
use cosync.Notify.{Thread, enter, park_or_continue}
use cosync.Executor.{World, Script, ok, Poll, poll_ready, poll_pending, Cmd}
use cosync.Executor.Turns.{IsValid, outcome}
use cosync.Executor.Works.{Works}
use cosync.Executor.Ends.{Ends}
use cosync.Driver.{poll_pool, block_loop, leave, run_with, run_blocking}
use cosync.Driver.Ends.{Stalled, positive}
use cosync.Driver.Rest.{Rested, poll_pool-Ends}
use cosync.Driver.Between.{Stalled-Rested, Stalled-live, left_world, leave-ok, returned-IsOpen}
use cosync.Driver.Blocking.{
  NoTasks, AfterBlocking, blocked, block_loop-blocked, block_loop-Keeps, run_blocking-AfterBlocking,
}

goes_on :
    (th : Thread) → th.unparked ≡ true → park_or_continue th ≡ some (record th { unparked = false })
unfolding park_or_continue
goes_on th e = rw e refl

module _ {Fut D : Type 0} (cback : Cmd Fut D Poll) (j : ℕ) where
  block_loop-stop :
      (w w1 : World Fut D) → cback w ≡ ok poll_ready w1 → block_loop cback (suc j) w ≡ ok tt w1
  block_loop-stop w w1 e = block_loop-blocked cback j w ∙ rw e refl

  block_loop-more :
      (w w1 : World Fut D) (th : Thread)
      → cback w ≡ ok poll_pending w1
      → park_or_continue w1.thread ≡ some th
      → block_loop cback (suc j) w ≡ block_loop cback j (record w1 { thread = th })
  block_loop-more w w1 th e h = block_loop-blocked cback j w ∙ rw e (rw (h, blocked) refl)

module _ {Fut D : Type 0} (measure : Fut → ℕ) (poll : Fut → Script Fut D)
    (works : (f : Fut) (t : Ptr) → Works measure t false (measure f) (poll f)) where
  abbrev Polled : ℕ → World Fut D → Type 0
  Polled b w =
      Ends (suc b) (λ n k j. poll_pool poll n k w) (Stalled measure b (suc w.pool.poll_counter))

  abbrev Blocks : ℕ → World Fut D → Type 0
  Blocks b w = Ends (suc b) (λ n k j. block_loop (poll_pool poll n k) j w) (λ _ w'. Unit {0})

  done-Blocks : (b : ℕ) (w : World Fut D) (h : Polled b w) → h.value ≡ poll_ready → Blocks b w
  done-Blocks b w h e = record {
    enough = h.enough;
    value = tt;
    state = h.state;
    settles = λ n k j l m i.
        let (j', pred) = positive j (omega (arith, i)) in
        rw pred (
          block_loop-stop (poll_pool poll n k) j' w h.state
            (h.settles n k j l m i ∙ ap (λ r. ok r h.state) e));
    post = tt;
  }

  more-Blocks :
      (b : ℕ) (w : World Fut D) (th : Thread) (h : Polled (suc b) w)
      → h.value ≡ poll_pending
      → park_or_continue h.state.thread ≡ some th
      → Blocks b (record h.state { thread = th })
      → Blocks (suc b) w
  more-Blocks b w th h e p g = record {
    enough = h.enough + g.enough;
    value = tt;
    state = g.state;
    settles = λ n k j l m i.
        let (j', pred) = positive j (omega (arith, i)) in
        rw pred (
          block_loop-more (poll_pool poll n k) j' w h.state th
            (h.settles n k j (omega (arith, l)) m i ∙ ap (λ r. ok r h.state) e) p
          ∙ g.settles n k j' (omega (arith, l)) (omega (arith, m)) (omega (arith, i, pred)));
    post = tt;
  }

  -- No task is left, or there is one.
  last-Blocks :
      (w : World Fut D) (h : Polled zero w) (ts : List Ptr) → h.post.tasks ≡ ts → Blocks zero w
  last-Blocks w h [] e = done-Blocks zero w h (h.post.told ∙ ap outcome e)
  last-Blocks w h (t ∷ ts) e =
      let left : has t h.post.tasks ≡ true = rw e (ground arith) in
      absurd (omega (arith, (Stalled-live measure zero _ _ h.state h.post t left).1))

  next-Blocks :
      (b : ℕ) (w : World Fut D) (h : Polled (suc b) w) (ts : List Ptr)
      → h.post.tasks ≡ ts
      → ((th : Thread) → Blocks b (record h.state { thread = th }))
      → Blocks (suc b) w
  next-Blocks b w h [] e rec = done-Blocks (suc b) w h (h.post.told ∙ ap outcome e)
  next-Blocks b w h (t ∷ ts) e rec =
      let left : has t h.post.tasks ≡ true = rw e (ground arith) in
      let told = (Stalled-live measure (suc b) _ _ h.state h.post t left).0 in
      more-Blocks b w _ h (h.post.told ∙ ap outcome e) (goes_on h.state.thread told) (rec _)

  block_loop-Ends :
      (b : ℕ) (w : World Fut D) (xs ys : List Ptr)
      → IsValid w xs ys
      → Rested measure b w
      → is_some w.heap_ptr ≡ true
      → suc (w.pool.poll_counter + b) < 2 ^ 64
      → Blocks b w
  block_loop-Ends zero w xs ys v r i small =
      last-Blocks w (poll_pool-Ends measure poll works zero w xs ys v r i (omega (arith, small))) _
        refl
  block_loop-Ends (suc b) w xs ys v r i small =
      let h = poll_pool-Ends measure poll works (suc b) w xs ys v r i (omega (arith, small)) in
      next-Blocks b w h _ refl (λ th.
        block_loop-Ends b (record h.state { thread = th }) h.post.queue h.post.tasks h.post.valid
          (Stalled-Rested measure b _ _ h.state th h.post) h.post.tracked.input
          (omega (arith, small, h.post.poll_counter)))

  run_blocking_lem :
      (n k j : ℕ) (d : D) (w : World Fut D)
      → w.thread.entered ≡ false
      → run_blocking poll n k j d w
        ≡ leave (
            block_loop
              (poll_pool poll n k)
              j
              (record w { heap_ptr = some d; thread = record w.thread { entered = true } }))
  unfolding run_blocking run_with enter
  run_blocking_lem n k j d w e = rw e refl

  -- Let every future have a measure such that its polls do not panic, a poll that is pending has
  -- woken its own task and leaves a smaller measure, and what it queues has a smaller measure than
  -- it. Let the pool be valid and at rest, on a thread in no executor: all tasks stand in the ready
  -- to run queue, no measure in the pool or in the incoming queue is above `b`, no task counts as
  -- polled in a later cycle, no other thread is within the atomic waker and there is one strong
  -- reference to the incoming queue. If the counter of cycles does not wrap around within `b + 1`
  -- cycles, then `run_blocking` returns: from some fuel of `poll_next` on, and with `b + 1` rounds
  -- for the other two loops, the result is always the same, without a panic and with no lost wake.
  -- No task is left in the pool or in the incoming queue, the box holds no pointer and the mark of
  -- `enter` is gone.
  pub run_blocking-Ends :
      (b : ℕ) (d : D) (w : World Fut D) (xs ys : List Ptr)
      → IsValid w xs ys
      → Rested measure b w
      → w.thread.entered ≡ false
      → suc (w.pool.poll_counter + b) < 2 ^ 64
      → Ends
          (suc b)
          (λ n k j. run_blocking poll n k j d w)
          (λ d' w'. NoTasks w' × (w'.heap_ptr ≡ none) × (w'.thread.entered ≡ false))
  run_blocking-Ends b d w xs ys v r e small =
      let open_world = record w {
        heap_ptr = some d;
        thread = record w.thread { entered = true };
      } in
      let h =
        block_loop-Ends b open_world xs ys v
          (record {
            each = r.each;
            registering = r.registering;
            waking = r.waking;
            strong = r.strong;
            incoming = r.incoming;
          })
          refl small in
      let most = h.enough + suc b in
      let returns : block_loop (poll_pool poll most most) most open_world ≡ ok tt h.state =
        h.settles most most most (omega arith) (omega arith) (omega arith) in
      let kept =
        returned-IsOpen _ tt h.state (block_loop-Keeps poll most most most open_world (refl, refl))
          returns in
      let (d', left) = leave-ok tt h.state kept in
      let whole : run_blocking poll most most most d w ≡ ok d' (left_world h.state) =
        run_blocking_lem most most most d w e ∙ ap leave returns ∙ left in
      record {
        enough = h.enough;
        value = d';
        state = left_world h.state;
        settles =
            λ n k j l m i. run_blocking_lem n k j d w e ∙ ap leave (h.settles n k j l m i) ∙ left;
        post =
            subst AfterBlocking whole
              (run_blocking-AfterBlocking poll most most most d w (xs, ys, v) e);
      }
