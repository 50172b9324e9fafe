-- ===== src/Executor/Frame.antt =====
-- Properties of the state of a `Cosync` that everything in `poll_next` of
-- src/futures/futures_unordered.rs keeps.
use cosync.Base.{
  ℕ, zero, suc, ◌≡◌, refl, Bool, true, false, Option, [], ◌∷◌, ◌++◌, none, some, Ptr, Bool-cases,
  Option-cases, inl, inr, ◌==◌, if◌then◌else◌,
}
use cosync.Notify.{wake_thread, wake_by_ref}
use cosync.ReadyToRunQueue.{Dequeue}
use cosync.FuturesUnordered.{release_task, FuturesUnordered, wake_task, dequeue_task}
use cosync.Executor.{
  World, Script, Body, user, empty_block, FutureObject, Run, ok, panic, fault, out_of_fuel, Poll,
  Turn, done, again, Cmd, and_then, on_pool, with_pool, ready, pending, panics, waker, wake, get,
  put, queue, unqueue, exec, wake_cmd, input_get, raw_queue, handle_unqueue_task, poll_future,
  requeue, after_poll, guarded, poll_task, run_task, after_dequeue, turn, poll_loop, poll_next,
  register_waker,
}
use cosync.Executor.Polls.{input_get-cases}

-- The writes to the state that the code makes outside `Cosync` itself. `may` says whether futures may
-- unqueue tasks.
pub record Stable {Fut D : Type 0} (may : Bool) (P : World Fut D → Type 0) : Type 0 where
  pub pool : (w : World Fut D) (p : FuturesUnordered (FutureObject Fut)) → P w → P (with_pool w p)
  pub woken :
      (w : World Fut D) (p : FuturesUnordered (FutureObject Fut)) (r : Option ℕ)
      → P w
      → P (record w { pool = p; thread = wake_thread w.thread r })
  pub yielded : (w : World Fut D) → P w → P (record w { thread = wake_by_ref w.thread })
  pub written : (w : World Fut D) (d : D) → P w → P (record w { heap_ptr = some d })
  pub queued : (w : World Fut D) (f : Fut) → P w → P ((raw_queue f w).1)
  pub unqueued : may ≡ true → (w : World Fut D) (id : ℕ) → P w → P ((handle_unqueue_task id w).1)

-- The future unqueues tasks only if it may.
abbrev pub Obeys : {Fut D : Type 0} → Bool → Script Fut D → Type 0
Obeys may ready = Unit
Obeys may (pending f) = Unit
Obeys may panics = Unit
Obeys may (waker k) = (t : Ptr) → Obeys may (k t)
Obeys may (wake p k) = Obeys may k
Obeys {D} may (get k) = (d : D) → Obeys may (k d)
Obeys may (put d k) = Obeys may k
Obeys may (queue f k) = (id : ℕ) → Obeys may (k id)
Obeys may (unqueue id k) = (may ≡ true) × ((r : Option Bool) → Obeys may (k r))

pub Obeys-any : {Fut D : Type 0} (s : Script Fut D) → Obeys true s
Obeys-any ready = tt
Obeys-any (pending f) = tt
Obeys-any panics = tt
Obeys-any (waker k) = λ t. Obeys-any (k t)
Obeys-any (wake p k) = Obeys-any k
Obeys-any (get k) = λ d. Obeys-any (k d)
Obeys-any (put d k) = Obeys-any k
Obeys-any (queue f k) = λ id. Obeys-any (k id)
Obeys-any (unqueue id k) = (refl, λ r. Obeys-any (k r))

-- However the code ends, the property holds of the state that it leaves.
pub data Keeps {Fut D A : Type 0} (P : World Fut D → Type 0) : Run Fut D A → Type 0 where
  keeps_ok : {a : A} {w : World Fut D} → P w → Keeps P (ok a w)
  keeps_panic : {w : World Fut D} → P w → Keeps P (panic w)
  keeps_fault : Keeps P fault
  keeps_out : Keeps P out_of_fuel

module _ {Fut D : Type 0} {P : World Fut D → Type 0} where
  pub and_then-Keeps :
      {A B : Type 0} {r : Run Fut D A} {k : A → Cmd Fut D B}
      → Keeps P r
      → ((a : A) (w : World Fut D) → P w → Keeps P (k a w))
      → Keeps P (and_then r k)
  and_then-Keeps (keeps_ok o) h = h _ _ o
  and_then-Keeps (keeps_panic o) h = keeps_panic o
  and_then-Keeps keeps_fault h = keeps_fault
  and_then-Keeps keeps_out h = keeps_out

  -- A change of the pool alone.
  pub pool-Keeps :
      {A : Type 0} (r : Option (FuturesUnordered (FutureObject Fut)))
      {k : FuturesUnordered (FutureObject Fut) → Run Fut D A}
      → ((p : FuturesUnordered (FutureObject Fut)) → Keeps P (k p))
      → Keeps P (elim r [ none ↦ fault | some p ↦ k p ])
  pool-Keeps none h = keeps_fault
  pool-Keeps (some p) h = h p

module _ {Fut D : Type 0} {P : World Fut D → Type 0} {may : Bool} (st : Stable may P) where
  on_pool-Keeps :
      (f : FuturesUnordered (FutureObject Fut) → Option (FuturesUnordered (FutureObject Fut)))
      (w : World Fut D)
      → P w
      → Keeps P (on_pool f w)
  on_pool-Keeps f w o = go (f w.pool)
    where
      go :
          (r : Option (FuturesUnordered (FutureObject Fut)))
          → Keeps {A = Unit {0}} P (elim r [ none ↦ fault | some p ↦ ok tt (with_pool w p) ])
      go none = keeps_fault
      go (some p) = keeps_ok (st.pool w p o)

  wake_cmd-Keeps : (t : Ptr) (w : World Fut D) → P w → Keeps P (wake_cmd t w)
  unfolding wake_cmd
  wake_cmd-Keeps t w o = go (wake_task w.pool t)
    where
      go :
          (r : Option (Option ℕ × FuturesUnordered (FutureObject Fut)))
          → Keeps {A = Unit {0}} P (elim r [
            | none ↦ fault
            | some (s, p) ↦ ok tt (record w { pool = p; thread = wake_thread w.thread s })
          ])
      go none = keeps_fault
      go (some (s, p)) = keeps_ok (st.woken w p s o)

  input_get-Keeps : (w : World Fut D) → P w → Keeps P (input_get w)
  input_get-Keeps w o = elim (input_get-cases w) [
    | inl e ↦ rw e (keeps_panic o)
    | inr (d, e) ↦ rw e (keeps_ok o)
  ]

  pub exec-Keeps :
      (t : Ptr) (s : Script Fut D) (w : World Fut D) → Obeys may s → P w → Keeps P (exec t s w)
  unfolding exec raw_queue
  exec-Keeps t ready w b o = keeps_ok o
  exec-Keeps t (pending f) w b o = keeps_ok o
  exec-Keeps t panics w b o = keeps_panic o
  exec-Keeps t (waker k) w b o = exec-Keeps t (k t) w (b t) o
  exec-Keeps t (wake p k) w b o =
      and_then-Keeps (wake_cmd-Keeps p w o) (λ a w'. exec-Keeps t k w' b)
  exec-Keeps t (get k) w b o =
      and_then-Keeps (input_get-Keeps w o) (λ d w'. exec-Keeps t (k d) w' (b d))
  exec-Keeps t (put d k) w b o =
      and_then-Keeps (input_get-Keeps w o)
        (λ e w' o'. exec-Keeps t k (record w' { heap_ptr = some d }) b (st.written w' d o'))
  exec-Keeps t (queue f k) w b o = elim (Bool-cases (w.strong == 0)) [
    | inl e ↦ rw e (keeps_panic o)
    | inr e ↦ rw e (exec-Keeps t (k w.counter) (raw_queue f w).1 (b w.counter) (st.queued w f o))
  ]
  exec-Keeps t (unqueue id k) w (m, b) o =
      let r = handle_unqueue_task id w in
      exec-Keeps t (k (r.0)) (r.1) (b (r.0)) (st.unqueued m w id o)

  pub requeue-Keeps : (i : Option Ptr) (t : Ptr) (w : World Fut D) → P w → Keeps P (requeue i t w)
  unfolding requeue
  requeue-Keeps i t w o = search (and_then-Keeps, on_pool-Keeps, keeps_ok)

  pub after_poll-Keeps :
      (i : Option Ptr) (t : Ptr) (id : ℕ) (r : Option Fut) (w : World Fut D)
      → P w
      → Keeps P (after_poll i t id r w)
  unfolding after_poll
  after_poll-Keeps i t id none w o = search (and_then-Keeps, on_pool-Keeps, keeps_ok)
  after_poll-Keeps i t id (some f) w o = search (and_then-Keeps, on_pool-Keeps, keeps_ok)

  released-Keeps : (t : Ptr) (w : World Fut D) → P w → Keeps P (guarded t (panic w))
  released-Keeps t w o = go (release_task w.pool t)
    where
      go :
          (r : Option (FuturesUnordered (FutureObject Fut)))
          → Keeps {A = Option Fut} P (elim r [ none ↦ fault | some p ↦ panic (with_pool w p) ])
      go none = keeps_fault
      go (some p) = keeps_panic (st.pool w p o)

  pub guarded-Keeps : (t : Ptr) (r : Run Fut D (Option Fut)) → Keeps P r → Keeps P (guarded t r)
  guarded-Keeps t _ (keeps_ok o) = keeps_ok o
  guarded-Keeps t _ (keeps_panic o) = released-Keeps t _ o
  guarded-Keeps t _ keeps_fault = keeps_fault
  guarded-Keeps t _ keeps_out = keeps_out

pub if-Keeps :
    {Fut D A : Type 0} {P : World Fut D → Type 0} (b : Bool) {x y : Run Fut D A}
    → Keeps P x
    → Keeps P y
    → Keeps P (if b then x else y)
if-Keeps true k l = k
if-Keeps false k l = l

module _ {Fut D : Type 0} {P : World Fut D → Type 0} {may : Bool} (st : Stable may P)
    (recorded : (w : World Fut D) (t : Ptr) → P w → P (record w { polled = w.polled ++ t ∷ [] }))
    (poll : Fut → Script Fut D) (obeys : (f : Fut) → Obeys may (poll f)) where
  poll_future-Keeps :
      (t : Ptr) (b : Body Fut) (w : World Fut D) → P w → Keeps P (poll_future poll t b w)
  unfolding poll_future
  poll_future-Keeps t (user f) w o = exec-Keeps st t (poll f) _ (obeys f) (recorded w t o)
  poll_future-Keeps t empty_block w o = exec-Keeps st t ready _ tt (recorded w t o)

  poll_task-Keeps :
      (i : Option Ptr) (t : Ptr) (f : FutureObject Fut) (w : World Fut D)
      → P w
      → Keeps P (poll_task poll i t f w)
  unfolding poll_task
  poll_task-Keeps i t f w o =
      search (and_then-Keeps, on_pool-Keeps, guarded-Keeps, poll_future-Keeps, after_poll-Keeps)

  run_task-Keeps :
      (i : Option Ptr) (t : Ptr) (f : FutureObject Fut) (w : World Fut D)
      → P w
      → Keeps P (run_task poll i t f w)
  unfolding run_task
  run_task-Keeps i t f w o =
      search (and_then-Keeps, on_pool-Keeps, if-Keeps, requeue-Keeps, poll_task-Keeps)

  after_dequeue-Keeps :
      (i : Option Ptr) (d : Dequeue) (w : World Fut D) → P w → Keeps P (after_dequeue poll i d w)
  unfolding after_dequeue wake_by_ref
  after_dequeue-Keeps i Dequeue.empty w o = keeps_ok o
  after_dequeue-Keeps i Dequeue.inconsistent w o = keeps_ok (st.yielded w o)
  after_dequeue-Keeps i (Dequeue.task t) w o = elim (Option-cases (w.pool.future t)) [
    | inl e ↦ rw (e, after_dequeue) (if-Keeps _ keeps_fault (if-Keeps _ (keeps_ok o) keeps_fault))
    | inr (f, e) ↦ rw (e, after_dequeue) (if-Keeps _ keeps_fault (run_task-Keeps i t f w o))
  ]

  turn-Keeps : (i : Option Ptr) (w : World Fut D) → P w → Keeps P (turn poll i w)
  unfolding turn
  turn-Keeps i w o = elim (Option-cases (dequeue_task w.pool)) [
    | inl e ↦ rw (e, turn) keeps_fault
    | inr (r, e) ↦
        rw (e, turn) (after_dequeue-Keeps i (r.0) (with_pool w (r.1)) (st.pool w (r.1) o))
  ]

  next_turn-Keeps :
      (next : Option Ptr → World Fut D → Run Fut D Poll)
      → ((j : Option Ptr) (w : World Fut D) → P w → Keeps P (next j w))
      → (r : Turn) (w : World Fut D) → P w
      → Keeps {A = Poll} P (elim r [ done p ↦ ok p w | again j ↦ next j w ])
  next_turn-Keeps next h (done p) w o = keeps_ok o
  next_turn-Keeps next h (again j) w o = h j w o

  loop-Keeps : (n : ℕ) (i : Option Ptr) (w : World Fut D) → P w → Keeps P (poll_loop poll n i w)
  unfolding poll_loop
  loop-Keeps zero i w o = keeps_out
  loop-Keeps (suc n) i w o =
      and_then-Keeps (turn-Keeps i w o) (next_turn-Keeps (poll_loop poll n) (loop-Keeps n))

  pub poll_next-Keeps : (n : ℕ) (w : World Fut D) → P w → Keeps P (poll_next poll n w)
  unfolding poll_next register_waker
  poll_next-Keeps n w o = loop-Keeps n none (register_waker w) (st.woken w _ _ o)
