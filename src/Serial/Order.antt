-- ===== src/Serial/Order.antt =====
-- In which order a `SerialCosync` of src/serial.rs starts its tasks.
use mathlib.Core.List.{append_assoc, append-nil}
use cosync.Base.{
  false, ℕ, zero, suc, ◌≡◌, refl, sym, ap, ◌∙◌, none, some, List, [], ◌∷◌, ◌++◌, Option-cases, inl,
  inr,
}
use cosync.Notify.{wake_by_ref}
use cosync.FuturesUnordered.{increment_counter, push}
use cosync.Executor.{
  World, Script, FutureObject, user, Poll, poll_ready, poll_pending, Run, ok, panic, fault,
  out_of_fuel, Cmd, and_then, with_pool, raw_queue, poll_next,
}
use cosync.Executor.Frame.{Stable, Keeps, keeps_ok, keeps_panic, Obeys, poll_next-Keeps}
use cosync.Executor.Safety.{SomeValid}
use cosync.Serial.{next_task, serial_poll_pool}
use cosync.Serial.Single.{OneAtATime, serial_poll_pool-OneAtATime}

module _ {Fut D : Type 0} where
  -- Tasks are put at the back of the incoming queue only, if no future unqueues tasks.
  abbrev Grows : List (FutureObject Fut) → World Fut D → Type 0
  Grows q w = (added : List (FutureObject Fut)) × (q ++ added ≡ w.incoming)

  Grows-Stable : (q : List (FutureObject Fut)) → Stable {Fut = Fut} {D = D} false (Grows q)
  unfolding raw_queue wake_by_ref
  Grows-Stable q = record {
    pool = λ w p g. g;
    woken = λ w p r g. g;
    yielded = λ w g. g;
    written = λ w d g. g;
    queued = λ w f g.
        let one = record { body = user f; id = w.counter } ∷ [] in
        (g.0 ++ one, sym (append_assoc q (g.0) one) ∙ ap (λ x. x ++ one) (g.1));
    unqueued = λ m. cc;
  }

  -- The task that is taken from the incoming queue into the pool, and the ones after it.
  unfoldable pub starts_next :
      List (FutureObject Fut)
      → (World Fut D → List (FutureObject Fut))
      → World Fut D
      → List (FutureObject Fut)
  starts_next [] later w = []
  starts_next (f ∷ fs) later w = elim (push w.pool f) [
    | none ↦ []
    | some p ↦ f ∷ later (record w { pool = p; incoming = fs })
  ]

  abbrev starts_after :
      (World Fut D → List (FutureObject Fut)) → Run Fut D Poll → List (FutureObject Fut)
  starts_after later (ok poll_pending w1) = []
  starts_after later (ok poll_ready w1) = starts_next w1.incoming later w1
  starts_after later (panic w1) = []
  starts_after later fault = []
  starts_after later out_of_fuel = []

module _ {Fut D : Type 0} (poll : Fut → Script Fut D) (n : ℕ) where
  -- The tasks that `poll_pool` takes from the incoming queue into the pool.
  unfoldable pub starts_of : ℕ → World Fut D → List (FutureObject Fut)
  starts_of zero w = []
  starts_of (suc k) w =
      starts_after (starts_of k) (poll_next poll n (with_pool w (increment_counter w.pool)))

-- The incoming queue `q` and what was added behind it are the tasks that were started and what is
-- left, in this order.
abbrev pub InOrder :
    {Fut D : Type 0} → List (FutureObject Fut) → List (FutureObject Fut) → Run Fut D Poll → Type 0
InOrder {Fut} q started (ok r w) =
    (added : List (FutureObject Fut)) × (q ++ added ≡ started ++ w.incoming)
InOrder {Fut} q started (panic w) =
    (added : List (FutureObject Fut)) × (q ++ added ≡ started ++ w.incoming)
InOrder q started fault = ⊥
InOrder q started out_of_fuel = Unit

-- `InOrder` but for `fault`.
abbrev Moves :
    {Fut D : Type 0} → List (FutureObject Fut) → List (FutureObject Fut) → Run Fut D Poll → Type 0
Moves {Fut} q started (ok r w) =
    (added : List (FutureObject Fut)) × (q ++ added ≡ started ++ w.incoming)
Moves {Fut} q started (panic w) =
    (added : List (FutureObject Fut)) × (q ++ added ≡ started ++ w.incoming)
Moves q started fault = Unit
Moves q started out_of_fuel = Unit

module _ {Fut D : Type 0} where
  -- One more task was in front.
  Moves-cons :
      (q q' : List (FutureObject Fut)) (f : FutureObject Fut) (st : List (FutureObject Fut))
      (added : List (FutureObject Fut)) (r : Run Fut D Poll)
      → q ++ added ≡ f ∷ q'
      → Moves q' st r
      → Moves q (f ∷ st) r
  Moves-cons q q' f st added (ok p w) e (more, m) =
      (added ++ more, sym (append_assoc q added more) ∙ ap (λ x. x ++ more) e ∙ ap (λ x. f ∷ x) m)
  Moves-cons q q' f st added (panic w) e (more, m) =
      (added ++ more, sym (append_assoc q added more) ∙ ap (λ x. x ++ more) e ∙ ap (λ x. f ∷ x) m)
  Moves-cons q q' f st added fault e m = tt
  Moves-cons q q' f st added out_of_fuel e m = tt

  next_task-Moves :
      (rerun : Cmd Fut D Poll) (later : World Fut D → List (FutureObject Fut))
      → ((w : World Fut D) → Moves w.incoming (later w) (rerun w))
      → (q fs : List (FutureObject Fut)) (w : World Fut D) (added : List (FutureObject Fut))
      → q ++ added ≡ fs
      → w.incoming ≡ fs
      → Moves q (starts_next fs later w) (next_task fs rerun w)
  unfolding next_task starts_next
  next_task-Moves rerun later rec q [] w added e h = (added, e ∙ sym h)
  next_task-Moves rerun later rec q (f ∷ fs) w added e h = elim (Option-cases (push w.pool f)) [
    | inl n ↦ rw (n, next_task) tt
    | inr (p, s) ↦
        rw (s, next_task, starts_next)
          (Moves-cons q fs f _ added _ e (rec (record w { pool = p; incoming = fs })))
  ]

  after-Moves :
      (rerun : Cmd Fut D Poll) (later : World Fut D → List (FutureObject Fut))
      → ((w : World Fut D) → Moves w.incoming (later w) (rerun w))
      → (q : List (FutureObject Fut)) (r : Run Fut D Poll) → Keeps (Grows q) r
      → Moves q (starts_after later r) (
          and_then r λ ret w1. elim ret [
            | poll_pending ↦ ok poll_pending w1
            | poll_ready ↦ next_task w1.incoming rerun w1
          ])
  after-Moves rerun later rec q (ok poll_pending w) (keeps_ok g) = g
  after-Moves rerun later rec q (ok poll_ready w) (keeps_ok g) =
      next_task-Moves rerun later rec q w.incoming w (g.0) (g.1) refl
  after-Moves rerun later rec q (panic w) (keeps_panic g) = g
  after-Moves rerun later rec q fault k = tt
  after-Moves rerun later rec q out_of_fuel k = tt

  ordered :
      (q st : List (FutureObject Fut)) (r : Run Fut D Poll)
      → OneAtATime r
      → Moves q st r
      → InOrder q st r
  ordered q st (ok p w) o m = m
  ordered q st (panic w) o m = m
  ordered q st fault o m = o
  ordered q st out_of_fuel o m = tt

module _ {Fut D : Type 0} (poll : Fut → Script Fut D) (n : ℕ) where
  serial_poll_pool-Moves :
      ((f : Fut) → Obeys false (poll f))
      → (k : ℕ) (w : World Fut D)
      → Moves w.incoming (starts_of poll n k w) (serial_poll_pool poll n k w)
  unfolding serial_poll_pool starts_of
  serial_poll_pool-Moves obeys zero w = tt
  serial_poll_pool-Moves obeys (suc k) w =
      after-Moves (serial_poll_pool poll n k) (starts_of poll n k) (serial_poll_pool-Moves obeys k)
        w.incoming (poll_next poll n (with_pool w (increment_counter w.pool)))
        (poll_next-Keeps (Grows-Stable w.incoming) (λ v t g. g) poll obeys n
          (with_pool w (increment_counter w.pool)) ([], append-nil w.incoming))

  -- From a valid pool of at most one task, if no future unqueues tasks, `poll_pool` of a
  -- `SerialCosync` starts the tasks of the incoming queue in the order in which they were queued:
  -- when it returns, and when a task panics, the queue at its start with the tasks that were added
  -- behind it is the tasks that it started followed by what is left in the queue. It is no undefined
  -- behaviour.
  pub serial_poll_pool-InOrder :
      ((f : Fut) → Obeys false (poll f))
      → (k : ℕ) (w : World Fut D) → SomeValid 1 w
      → InOrder w.incoming (starts_of poll n k w) (serial_poll_pool poll n k w)
  serial_poll_pool-InOrder obeys k w s =
      ordered w.incoming (starts_of poll n k w) (serial_poll_pool poll n k w)
        (serial_poll_pool-OneAtATime poll n k w s) (serial_poll_pool-Moves obeys k w)
