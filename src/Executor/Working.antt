-- ===== src/Executor/Working.antt =====
-- One poll of a future that brings itself nearer to its end.
use cosync.Base.{
  ℕ, ◌≤◌, ◌<◌, ◌≡◌, ◌⊎◌, inl, inr, refl, sym, subst, Bool, true, false, ◌||◌, Option, none, some,
  List, arith, Ptr, is_some, update, ◌==◌, Bool-cases, Option-cases,
}
use cosync.AtomicWaker
use cosync.AtomicWaker.{fetch_or_waking, take_waker, finish_take}
use cosync.ReadyToRunQueue.{ReadyToRunQueue, enqueue}
use cosync.Notify.{wake_thread, wake_by_ref}
use cosync.FuturesUnordered.{wake_task, enqueue_task}
use cosync.Executor.{
  World, Script, FutureObject, Run, ok, panic, fault, out_of_fuel, ready, pending, panics, waker,
  wake, get, put, queue, unqueue, exec, wake_cmd, input_get, raw_queue, handle_unqueue_task,
  and_then,
}
use cosync.Executor.Polls.{handle_unqueue_task_lem}
use cosync.Executor.Works.{Works, Fits-mono, Below, Below-append, Below-removed, Armed, Tracked}

module _ {Fut D : Type 0} where
  -- The executor is told, if the task was not queued.
  pub rings :
      (w : World Fut D)
      → Armed w
      → (wake_thread w.thread (AtomicWaker.take w.pool.waker).0).unparked ≡ true
  unfolding AtomicWaker.take fetch_or_waking take_waker finish_take wake_thread wake_by_ref
  rings w a = ground (arith, a.registering, a.waking, a.alarm)

  emptied :
      (w : World Fut D)
      → Armed w
      → ((AtomicWaker.take w.pool.waker).1.registering ≡ false)
        × ((AtomicWaker.take w.pool.waker).1.waking ≡ false)
  unfolding AtomicWaker.take fetch_or_waking take_waker finish_take
  emptied w a = ground (arith, a.registering, a.waking)

module _ {Fut D : Type 0} (measure : Fut → ℕ) (b c : ℕ) (except : Ptr → Bool) where
  abbrev Woken : Ptr → World Fut D → Run Fut D (Unit {0}) → Type 0
  Woken p w (ok u w') =
      Tracked measure b c except w'
      × ((s : Ptr) → w'.pool.queued s ≡ (w.pool.queued s || (s == p)))
      × (w.thread.unparked ≡ true → w'.thread.unparked ≡ true)
      × (w.pool.queued p ≡ false → w'.thread.unparked ≡ true)
  Woken p w (panic w') = ⊥
  Woken p w fault = Unit
  Woken p w out_of_fuel = Unit

  wake_cmd-queued : (p : Ptr) (w : World Fut D) → w.pool.queued p ≡ true → wake_cmd p w ≡ ok tt w
  unfolding wake_cmd wake_task wake_thread
  wake_cmd-queued p w e = rw (e, wake_cmd) refl

  abbrev rung : Ptr → World Fut D → ReadyToRunQueue → World Fut D
  rung p w q = record w {
    pool = record w.pool {
      queued = update w.pool.queued p true;
      ready_to_run_queue = q;
      waker = (AtomicWaker.take w.pool.waker).1;
    };
    thread = wake_thread w.thread (AtomicWaker.take w.pool.waker).0;
  }

  abbrev rung_if : Ptr → World Fut D → Option ReadyToRunQueue → Run Fut D (Unit {0})
  rung_if p w none = fault
  rung_if p w (some q) = ok tt (rung p w q)

  wake_cmd-idle :
      (p : Ptr) (w : World Fut D)
      → w.pool.queued p ≡ false
      → (r : Option ReadyToRunQueue) → enqueue w.pool.ready_to_run_queue p ≡ r
      → wake_cmd p w ≡ rung_if p w r
  unfolding wake_cmd wake_task enqueue_task
  wake_cmd-idle p w e none h = rw (e, wake_cmd, h) refl
  wake_cmd-idle p w e (some q) h = rw (e, wake_cmd, h) refl

  rung-Woken :
      (p : Ptr) (w : World Fut D)
      → Tracked measure b c except w
      → (r : Option ReadyToRunQueue) → Woken p w (rung_if p w r)
  rung-Woken p w k none = tt
  rung-Woken p w k (some q) =
      let told = rings w k.armed in
      let (free, idle) = emptied w k.armed in
      (
        record {
          fits = λ s o.
              Fits-mono measure b c _ _ _ _ _ _ (λ e. ground (arith, e)) (λ u. told) (k.fits s o);
          marks = k.marks;
          armed = record { registering = free; waking = idle; alarm = inl told };
          strong = k.strong;
          input = k.input;
          incoming = k.incoming;
        },
        λ s. ground arith,
        λ u. told,
        λ e. told,
      )

  wake_cmd-Woken :
      (p : Ptr) (w : World Fut D) → Tracked measure b c except w → Woken p w (wake_cmd p w)
  wake_cmd-Woken p w k = elim (Bool-cases (w.pool.queued p)) [
    | inl e ↦ rw (wake_cmd-queued p w e) (k, λ s. ground (arith, e), λ u. u, λ q. cc)
    | inr e ↦
        rw (wake_cmd-idle p w e _ refl) (rung-Woken p w k (enqueue w.pool.ready_to_run_queue p))
  ]

module _ {Fut D : Type 0} (measure : Fut → ℕ) (b c : ℕ) (t : Ptr) where
  -- While the task `t` is polled.
  pub record Working (woken : Bool) (w : World Fut D) : Type 0 where
    pub tracked : Tracked measure b c (λ s. s == t) w
    pub done : woken ≡ true → (w.pool.queued t ≡ true) × (w.thread.unparked ≡ true)
    pub fresh : (w.pool.queued t ≡ false) ⊎ (w.thread.unparked ≡ true)

  abbrev pub Ran : ℕ → Run Fut D (Option Fut) → Type 0
  Ran m (ok none w) = Tracked measure b c (λ s. s == t) w
  Ran m (ok (some f) w) =
      Tracked measure b c (λ s. s == t) w
      × (w.pool.queued t ≡ true)
      × (w.thread.unparked ≡ true)
      × (measure f < m)
  Ran m (panic w) = ⊥
  Ran m fault = Unit
  Ran m out_of_fuel = Unit

  Working-wake :
      (woken : Bool) (p : Ptr) (w w' : World Fut D)
      → Working woken w
      → Woken measure b c (λ s. s == t) p w (ok tt w')
      → Working (woken || (p == t)) w'
  Working-wake woken p w w' k (tracked, more, kept, told) = record {
    tracked = tracked;
    done = λ e. ground (arith, more t, kept, told, k.done, k.fresh, e);
    fresh = ground (arith, more t, kept, told, k.fresh);
  }

  input_get-ok :
      (w : World Fut D)
      → w.strong ≡ 1
      → is_some w.heap_ptr ≡ true
      → (d : D) × (input_get w ≡ ok d w)
  unfolding input_get
  input_get-ok w e h = elim (Option-cases w.heap_ptr) [
    | inl none_given ↦ ground (arith, h, none_given)
    | inr (d, given) ↦ (d, ground (arith, e, given))
  ]

  -- The box and the incoming queue may change.
  Working-frame :
      (woken : Bool) (w : World Fut D) (n : ℕ) (fs : List (FutureObject Fut)) (d : Option D)
      → Working woken w
      → is_some d ≡ true
      → Below measure c fs
      → Working woken (record w { heap_ptr = d; incoming = fs; counter = n })
  Working-frame woken w n fs d k i h = record {
    tracked = record {
      fits = k.tracked.fits;
      marks = k.tracked.marks;
      armed = record {
        registering = k.tracked.armed.registering;
        waking = k.tracked.armed.waking;
        alarm = k.tracked.armed.alarm;
      };
      strong = k.tracked.strong;
      input = i;
      incoming = h;
    };
    done = k.done;
    fresh = k.fresh;
  }

  Working-unqueued :
      (woken : Bool) (id : ℕ) (w : World Fut D)
      → Working woken w
      → Working woken (handle_unqueue_task id w).1
  Working-unqueued woken id w k =
      let (fs, e, from) = handle_unqueue_task_lem id w in
      subst (Working woken) (sym e) (
        Working-frame woken w w.counter fs w.heap_ptr k k.tracked.input (elim from [
          | inl same ↦ subst (Below measure c) (sym same) k.tracked.incoming
          | inr removed ↦ Below-removed measure c id w.incoming k.tracked.incoming fs removed
        ]))

  pub exec-Ran :
      (m : ℕ) (woken : Bool) (s : Script Fut D) (w : World Fut D)
      → m ≤ c
      → Works measure t woken m s
      → Working woken w
      → Ran m (exec t s w)
  unfolding exec raw_queue
  exec-Ran m woken ready w l h k = k.tracked
  exec-Ran m woken (pending f) w l h k = (k.tracked, (k.done (h.0)).0, (k.done (h.0)).1, h.1)
  exec-Ran m woken panics w l h k = h
  exec-Ran m woken (waker next) w l h k = exec-Ran m woken (next t) w l h k
  exec-Ran m woken (wake p next) w l h k =
      go (wake_cmd p w) (wake_cmd-Woken measure b c (λ s. s == t) p w k.tracked)
        (λ w'. exec-Ran m (woken || (p == t)) next w' l h)
    where
      go :
          (r : Run Fut D (Unit {0}))
          → Woken measure b c (λ s. s == t) p w r
          → ((w' : World Fut D) → Working (woken || (p == t)) w' → Ran m (exec t next w'))
          → Ran m (and_then r λ _. exec t next)
      go (ok u w') a rec = rec w' (Working-wake woken p w w' k a)
      go (panic w') a rec = a
      go fault a rec = tt
      go out_of_fuel a rec = tt
  exec-Ran m woken (get next) w l h k =
      let (d, e) = input_get-ok w k.tracked.strong k.tracked.input in
      rw e (exec-Ran m woken (next d) w l (h d) k)
  exec-Ran m woken (put d next) w l h k =
      let (d', e) = input_get-ok w k.tracked.strong k.tracked.input in
      rw e (
        exec-Ran m woken next (record w { heap_ptr = some d }) l h
          (Working-frame woken w w.counter w.incoming (some d) k refl k.tracked.incoming))
  exec-Ran m woken (queue f next) w l h k =
      let gone : (w.strong == 0) ≡ false = ground (arith, k.tracked.strong) in
      rw gone (
        exec-Ran m woken (next w.counter) (raw_queue f w).1 l (h.1 w.counter) (
          Working-frame woken w _ _ w.heap_ptr k k.tracked.input
            (Below-append measure c w.incoming _ k.tracked.incoming (omega (arith, h.0), tt))))
  exec-Ran m woken (unqueue id next) w l h k =
      let r = handle_unqueue_task id w in
      exec-Ran m woken (next (r.0)) (r.1) l (h (r.0)) (Working-unqueued woken id w k)
