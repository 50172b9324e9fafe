-- ===== src/Executor.antt =====
-- The state of one `Cosync` with the thread that runs it, what a task may do while it is polled, and
-- `FuturesUnordered::poll_next`.
pub mod Polls
pub mod Frame
pub mod Livelock
pub mod Interleaved
pub mod Rounds
pub mod Once
pub mod Order
pub mod Cycle
pub mod Covers
pub mod Among
pub mod HalfWoken
pub mod Works
pub mod Working
pub mod Onward
pub mod Ends
pub mod Yields
pub mod Safety
pub mod Termination
pub mod Halts
pub mod Seen
pub mod Wakeful
pub mod Polled
pub mod Turns
use cosync.Base.{
  ℕ, zero, suc, ◌+◌, Bool, true, false, ◌&&◌, Option, none, some, List, [], ◌∷◌, ◌++◌, Ptr, null,
  stub, update, ◌==◌, leb, if◌then◌else◌,
}
use cosync.AtomicWaker
use cosync.Notify.{Thread, wake_by_ref, wake_thread}
use cosync.ReadyToRunQueue.{Dequeue}
use cosync.FuturesUnordered.{
  FuturesUnordered, u64, is_empty, link_all, unlink_all, enqueue_task, dequeue_task, wake_task,
  release_task,
}

-- What a future does in one call of `poll`, with the calls into the crate that it makes on the way.
-- `waker` is `cx.waker().clone()`, `wake` is `wake_by_ref` on a waker that the task holds, `get` and
-- `put` read and write through `CosyncInput::get`, `queue` is `CosyncInput::queue`, and `unqueue` is
-- `CosyncQueueHandle::unqueue_task` on a handle that `CosyncInput::create_queue_handle` made.
pub data Script (Fut D : Type 0) : Type 0 where
  ready : Script Fut D
  pending : Fut → Script Fut D
  panics : Script Fut D
  waker : (Ptr → Script Fut D) → Script Fut D
  wake : Ptr → Script Fut D → Script Fut D
  get : (D → Script Fut D) → Script Fut D
  put : D → Script Fut D → Script Fut D
  queue : Fut → (ℕ → Script Fut D) → Script Fut D
  unqueue : ℕ → (Option Bool → Script Fut D) → Script Fut D

-- The future of a task: one that the user gave, or the empty block of `stop_running_task`.
pub data Body (Fut : Type 0) : Type 0 where
  user : Fut → Body Fut
  empty_block : Body Fut

pub record FutureObject (Fut : Type 0) : Type 0 where
  pub body : Body Fut
  pub id : ℕ

-- The `async` block of `create_future_object` only awaits the task's own future.
abbrev pub create_future_object : {Fut : Type 0} → Fut → ℕ → FutureObject Fut
create_future_object f id = record { body = user f; id = id }

module _ {Fut : Type 0} where
  -- `VecDeque::iter().position` and `remove`.
  unfoldable pub remove_id : ℕ → List (FutureObject Fut) → Option (List (FutureObject Fut))
  remove_id id [] = none
  remove_id id (f ∷ fs) =
      if f.id == id
      then some fs
      else (elim (remove_id id fs) [ none ↦ none | some gs ↦ some (f ∷ gs) ])

-- `heap_ptr` is what the box holds that `Cosync` and its inputs share: the parameter of the `run`
-- that is going on. `strong` is the strong count of the `Arc` round the incoming queue. `polled` is no
-- part of the program's state: it records the calls of `Future::poll`, by their tasks, in order, and
-- nothing reads it.
pub record World (Fut D : Type 0) : Type 0 where
  pub pool : FuturesUnordered (FutureObject Fut)
  pub incoming : List (FutureObject Fut)
  pub counter : ℕ
  pub heap_ptr : Option D
  pub polled : List Ptr
  pub strong : ℕ
  pub thread : Thread

pub data Poll : Type 0 where
  poll_ready poll_pending : Poll

-- `fault` is undefined behaviour or a failed assertion of the crate.
pub data Run (Fut D A : Type 0) : Type 0 where
  ok : A → World Fut D → Run Fut D A
  panic : World Fut D → Run Fut D A
  fault : Run Fut D A
  out_of_fuel : Run Fut D A

abbrev pub Cmd : Type 0 → Type 0 → Type 0 → Type 0
Cmd Fut D A = World Fut D → Run Fut D A

module _ {Fut D : Type 0} where
  abbrev pub and_then : {A B : Type 0} → Run Fut D A → (A → Cmd Fut D B) → Run Fut D B
  and_then (ok a w) k = k a w
  and_then (panic w) k = panic w
  and_then fault k = fault
  and_then out_of_fuel k = out_of_fuel

  infixl 5 ◌>>=◌ ◌>>◌
  abbrev pub ◌>>=◌ : {A B : Type 0} → Cmd Fut D A → (A → Cmd Fut D B) → Cmd Fut D B
  m >>= k = λ w. and_then (m w) k

  abbrev pub ◌>>◌ : {A B : Type 0} → Cmd Fut D A → Cmd Fut D B → Cmd Fut D B
  m >> k = m >>= λ _. k

  abbrev pub with_pool : World Fut D → FuturesUnordered (FutureObject Fut) → World Fut D
  with_pool w p = record w { pool = p }

  -- An operation of the pool.
  abbrev pub on_pool :
      (FuturesUnordered (FutureObject Fut) → Option (FuturesUnordered (FutureObject Fut)))
      → Cmd Fut D (Unit {0})
  on_pool f w = elim (f w.pool) [ none ↦ fault | some p ↦ ok tt (with_pool w p) ]

  -- `wake_by_ref` of a task's waker.
  unfoldable pub wake_cmd : Ptr → Cmd Fut D (Unit {0})
  wake_cmd t w = elim (wake_task w.pool t) [
    | none ↦ fault
    | some (r, p) ↦ ok tt (record w { pool = p; thread = wake_thread w.thread r })
  ]

  -- `next_cosync_task_id` and `push_back` of `raw_queue`.
  unfoldable pub raw_queue : Fut → World Fut D → ℕ × World Fut D
  raw_queue f w = (
    w.counter,
    record w {
      counter = u64 (w.counter + 1);
      incoming = w.incoming ++ create_future_object f w.counter ∷ [];
    },
  )

  -- `CosyncInput::get`: both of its panics, or the parameter.
  unfoldable pub input_get : Cmd Fut D D
  input_get w =
      if w.strong == 1 then (elim w.heap_ptr [ none ↦ panic w | some d ↦ ok d w ]) else panic w

  -- `CosyncInput::queue`: the `expect` fails once the queue is gone.
  abbrev pub input_queue : Fut → Cmd Fut D ℕ
  input_queue f w = if w.strong == 0 then panic w else let r = raw_queue f w in ok (r.0) (r.1)

  -- `unqueue_task` of `Cosync`, which its queue handle has too: `iter().position` and `remove`.
  unfoldable pub unqueue_task : ℕ → World Fut D → Bool × World Fut D
  unqueue_task id w = elim (remove_id id w.incoming) [
    | none ↦ (false, w)
    | some fs ↦ (true, record w { incoming = fs })
  ]

  -- `CosyncQueueHandle::unqueue_task`: `upgrade` fails once the last strong reference is gone.
  unfoldable pub handle_unqueue_task : ℕ → World Fut D → Option Bool × World Fut D
  handle_unqueue_task id w =
      if w.strong == 0 then (none, w) else let r = unqueue_task id w in (some r.0, r.1)

  -- One call of `poll` of the task `t`. The result is the future's next state, if it is pending.
  unfoldable pub exec : Ptr → Script Fut D → Cmd Fut D (Option Fut)
  exec t ready w = ok none w
  exec t (pending f) w = ok (some f) w
  exec t panics w = panic w
  exec t (waker k) w = exec t (k t) w
  exec t (wake p k) w = and_then (wake_cmd p w) λ _. exec t k
  exec t (get k) w = and_then (input_get w) λ d. exec t (k d)
  exec t (put d k) w = and_then (input_get w) λ _ w'. exec t k (record w' { heap_ptr = some d })
  exec t (queue f k) w = and_then (input_queue f w) λ id. exec t (k id)
  exec t (unqueue id k) w = let r = handle_unqueue_task id w in exec t (k (r.0)) (r.1)

pub data Turn : Type 0 where
  done : Poll → Turn
  again : Option Ptr → Turn

-- `initial_task_id` keeps the first task that was seen.
abbrev pub or_first : Option Ptr → Ptr → Option Ptr
or_first none t = some t
or_first (some i) t = some i

abbrev pub came_round : Option Ptr → Ptr → Turn
came_round none t = again (some t)
came_round (some i) t = if i == t then done poll_pending else again (some i)

module _ {Fut D : Type 0} where
  -- The branch for a task that was polled in this cycle already.
  unfoldable pub requeue : Option Ptr → Ptr → Cmd Fut D Turn
  requeue initial t = do
    on_pool λ p. some (record p { queued = update p.queued t true })
    on_pool λ p. link_all p t
    on_pool λ p. enqueue_task p t
    ok (came_round initial t)

  -- After the poll: a pending task is linked again, one that is done is released by the bomb.
  unfoldable pub after_poll : Option Ptr → Ptr → ℕ → Option Fut → Cmd Fut D Turn
  after_poll initial t id none = do on_pool λ p. release_task p t; ok (again initial)
  after_poll initial t id (some f) = do
    on_pool λ p.
        link_all
          (record p { future = update p.future t (some (record { body = user f; id = id })) }) t
    ok (again (or_first initial t))

  -- The bomb also releases a task whose poll panicked.
  abbrev pub guarded : Ptr → Run Fut D (Option Fut) → Run Fut D (Option Fut)
  guarded t (ok r w) = ok r w
  guarded t (panic w) = elim (release_task w.pool t) [
    | none ↦ fault
    | some p ↦ panic (with_pool w p)
  ]
  guarded t fault = fault
  guarded t out_of_fuel = out_of_fuel

  -- The context's waker wakes the thread that runs the pool.
  unfoldable pub register_waker : World Fut D → World Fut D
  register_waker w =
      let r = AtomicWaker.register w.pool.waker w.thread.id in
      record w { pool = record w.pool { waker = r.1 }; thread = wake_thread w.thread r.0 }

module _ {Fut D : Type 0} (poll : Fut → Script Fut D) where
  abbrev pub script : Body Fut → Script Fut D
  script (user f) = poll f
  script empty_block = ready

  -- `future.poll(&mut cx)`, recorded.
  unfoldable pub poll_future : Ptr → Body Fut → Cmd Fut D (Option Fut)
  poll_future t b w = exec t (script b) (record w { polled = w.polled ++ t ∷ [] })

  unfoldable pub poll_task : Option Ptr → Ptr → FutureObject Fut → Cmd Fut D Turn
  poll_task initial t f = do
    on_pool λ p. some (record p { last_polled = update p.last_polled t p.poll_counter })
    r ← λ w. guarded t (poll_future t f.body w)
    after_poll initial t f.id r

  -- `unlink`, and `queued.swap(false)` with its assertion.
  unfoldable pub run_task : Option Ptr → Ptr → FutureObject Fut → Cmd Fut D Turn
  run_task initial t f = do
    on_pool λ p. unlink_all p t
    on_pool λ p. if p.queued t then some (record p { queued = update p.queued t false }) else none
    λ w.
        if leb w.pool.poll_counter (w.pool.last_polled t)
        then requeue initial t w
        else poll_task initial t f w

  -- What one round of the loop does with the result of `dequeue`. A task without a future must be
  -- unlinked.
  unfoldable pub after_dequeue : Option Ptr → Dequeue → Cmd Fut D Turn
  after_dequeue initial Dequeue.empty w =
      ok (done (if is_empty w.pool then poll_ready else poll_pending)) w
  after_dequeue initial Dequeue.inconsistent w =
      ok (done poll_pending) (record w { thread = wake_by_ref w.thread })
  after_dequeue initial (Dequeue.task t) w = if t == stub then fault else (elim (w.pool.future t) [
    | none ↦
        if w.pool.all.next_all t == stub && w.pool.all.prev_all t == null
        then ok (again initial) w
        else fault
    | some f ↦ run_task initial t f w
  ])

  unfoldable pub turn : Option Ptr → Cmd Fut D Turn
  turn initial w = elim (dequeue_task w.pool) [
    | none ↦ fault
    | some (d, p) ↦ after_dequeue initial d (with_pool w p)
  ]

  unfoldable pub poll_loop : ℕ → Option Ptr → Cmd Fut D Poll
  poll_loop zero initial w = out_of_fuel
  poll_loop (suc n) initial w =
      and_then (turn initial w)
        λ r w'. elim r [ done result ↦ ok result w' | again i ↦ poll_loop n i w' ]

  unfoldable pub poll_next : ℕ → Cmd Fut D Poll
  poll_next n w = poll_loop n none (register_waker w)
