-- ===== src/Driver.antt =====
-- src/lib.rs: `Cosync`, its queue handles, `run` and `run_blocking`. The operations of a `Cosync` are
-- those of its state, which `World` holds together with the thread that runs it.
pub mod Open
pub mod Cancel
pub mod Pushed
pub mod Spread
pub mod Ends
pub mod Rest
pub mod Between
pub mod Completes
pub mod Lessens
pub mod Queued
pub mod Cycle
pub mod Each
pub mod InOrder
pub mod Blocking
pub mod Handles
pub mod Safety
use cosync.Base.{
  ℕ, zero, suc, ◌+◌, Bool, true, false, ◌&&◌, not, Option, none, some, List, [], ◌∷◌, ◌++◌, Ptr,
  null, update, length, ◌==◌, if◌then◌else◌,
}
use cosync.Notify.{Thread, Enter, enter_ok, enter_error, enter, exit, park_or_continue}
use cosync.Base
use cosync.Iter.{iter, iter_mut, any_task, find_task}
use cosync.FuturesUnordered.{FuturesUnordered, u64, push, len, is_empty, clear, increment_counter}
use cosync.FuturesUnordered as Pool
use cosync.Executor.{
  World, Script, Body, empty_block, create_future_object, FutureObject, Poll, poll_ready,
  poll_pending, Run, ok, panic, fault, out_of_fuel, Cmd, and_then, ◌>>=◌, ◌>>◌, on_pool, with_pool,
  raw_queue, poll_next,
}
unfoldable pub use cosync.Executor.{remove_id, unqueue_task, handle_unqueue_task}

module _ {Fut : Type 0} where
  abbrev pub no_incoming : List (FutureObject Fut) → Bool
  no_incoming [] = true
  no_incoming (f ∷ fs) = false

module _ {Fut D : Type 0} where
  -- `Cosync::new`, on the thread that creates it.
  unfoldable pub new : Thread → World Fut D
  new th = record {
    pool = Pool.new;
    incoming = [];
    counter = 0;
    heap_ptr = none;
    polled = [];
    strong = 1;
    thread = th;
  }

  unfoldable pub cosync_len : World Fut D → Option ℕ
  cosync_len w = elim (len w.pool) [ none ↦ none | some n ↦ some (n + length w.incoming) ]

  unfoldable pub is_running_any : World Fut D → Bool
  is_running_any w = not (is_empty w.pool)

  unfoldable pub cosync_is_empty : World Fut D → Bool
  unfolding is_running_any
  cosync_is_empty w = not (is_running_any w) && no_incoming w.incoming

  -- `next_cosync_task_id`
  unfoldable pub next_cosync_task_id : World Fut D → ℕ × World Fut D
  next_cosync_task_id w = (w.counter, record w { counter = u64 (w.counter + 1) })

  -- `Cosync::queue` puts the task into the pool at once.
  unfoldable pub cosync_queue : Fut → Cmd Fut D ℕ
  unfolding next_cosync_task_id
  cosync_queue f w =
      let r = next_cosync_task_id w in
      elim (push r.1.pool (create_future_object f (r.0))) [
        | none ↦ fault
        | some p ↦ ok (r.0) (with_pool r.1 p)
      ]

  -- `CosyncQueueHandle::queue`: `upgrade` fails once the last strong reference is gone.
  unfoldable pub handle_queue : Fut → World Fut D → Option ℕ × World Fut D
  handle_queue f w = if w.strong == 0 then (none, w) else let r = raw_queue f w in (some r.0, r.1)

  unfoldable pub clear_running : ℕ → Cmd Fut D (Unit {0})
  clear_running n = on_pool (clear n)

  unfoldable pub clear_queue : World Fut D → World Fut D
  clear_queue w = record w { incoming = [] }

  unfoldable pub clear_all : ℕ → Cmd Fut D (Unit {0})
  unfolding clear_running clear_queue
  clear_all n w = and_then (clear_running n w) λ _ w'. ok tt (clear_queue w')

  -- `Cosync::is_running`. `fuel` bounds the calls of the iterator's `next`.
  unfoldable pub is_running : ℕ → ℕ → World Fut D → Option Bool
  is_running fuel id w = Base.◌>>=◌ (iter w.pool) (any_task fuel (λ f. f.id == id) w.pool)

  -- `Cosync::stop_running_task`: the future of the task is dropped for an empty block.
  unfoldable pub stop_running_task : ℕ → ℕ → Cmd Fut D Bool
  stop_running_task fuel id w = elim (find_task fuel (λ f. f.id == id) w.pool (iter_mut w.pool)) [
    | none ↦ fault
    | some none ↦ ok false w
    | some (some t) ↦ ok true (
        with_pool w (record w.pool {
          future = update w.pool.future t (some (record { body = empty_block; id = id }));
        }))
  ]

  -- `drain(..)` of the incoming queue into the pool.
  unfoldable pub push_all : List (FutureObject Fut) → Cmd Fut D (Unit {0})
  push_all [] w = ok tt w
  push_all (f ∷ fs) w = elim (push w.pool f) [ none ↦ fault | some p ↦ push_all fs (with_pool w p) ]

  unfoldable pub drain : Cmd Fut D (Unit {0})
  drain w = push_all w.incoming (record w { incoming = [] })

-- `Cosync::poll_pool`. `n` is the fuel of one call of `poll_next`, the other number that of the loop.
module _ {Fut D : Type 0} (poll : Fut → Script Fut D) (n : ℕ) where
  unfoldable pub pool_loop : ℕ → Cmd Fut D Poll
  pool_loop zero w = out_of_fuel
  pool_loop (suc k) w = and_then (poll_next poll n w) λ output w1. elim (no_incoming w1.incoming) [
    | true ↦ ok output w1
    | false ↦ and_then (drain w1) λ _ w2. pool_loop k w2
  ]

  unfoldable pub poll_pool : ℕ → Cmd Fut D Poll
  poll_pool k w = and_then (drain w) λ _ w1. pool_loop k (with_pool w1 (increment_counter w1.pool))

module _ {Fut D : Type 0} where
  -- The end of `run`: the parameter goes back to the caller. The guard of `enter` is dropped, also
  -- when a task panics, and then the box still holds the pointer.
  unfoldable pub leave : {A : Type 0} → Run Fut D A → Run Fut D D
  leave (ok r w) = elim w.heap_ptr [
    | none ↦ fault
    | some d ↦ elim (exit w.thread) [
      | none ↦ panic (record w { heap_ptr = none })
      | some th ↦ ok d (record w { heap_ptr = none; thread = th })
    ]
  ]
  leave (panic w) = elim (exit w.thread) [
    | none ↦ fault
    | some th ↦ panic (record w { thread = th })
  ]
  leave fault = fault
  leave out_of_fuel = out_of_fuel

  -- `run` of the crate, over the callback that polls the pool.
  unfoldable pub run_with : {A : Type 0} → Cmd Fut D A → D → Cmd Fut D D
  run_with cback d w =
      let w1 = record w { heap_ptr = some d } in
      elim (enter w1.thread) [
        | enter_error ↦ panic w1
        | enter_ok th ↦ leave (cback (record w1 { thread = th }))
      ]

  -- The loop of `run_blocking`. Where `park` would wait there is nobody to wake the thread: the
  -- result is `out_of_fuel`.
  unfoldable pub block_loop : Cmd Fut D Poll → ℕ → Cmd Fut D (Unit {0})
  block_loop cback zero w = out_of_fuel
  block_loop cback (suc k) w = and_then (cback w) λ r w1. elim r [
    | poll_ready ↦ ok tt w1
    | poll_pending ↦ elim (park_or_continue w1.thread) [
      | none ↦ out_of_fuel
      | some th ↦ block_loop cback k (record w1 { thread = th })
    ]
  ]

  -- The function `run_blocking`, which `Cosync` and `SerialCosync` call with their `poll_pool`.
  abbrev pub run_until_ready : Cmd Fut D Poll → ℕ → D → Cmd Fut D D
  run_until_ready cback m d = run_with (block_loop cback m) d

-- `Cosync::run` and `Cosync::run_blocking`
module _ {Fut D : Type 0} (poll : Fut → Script Fut D) (n k : ℕ) where
  unfoldable pub run : D → Cmd Fut D D
  run d = run_with (poll_pool poll n k) d

  -- The old name of `run`.
  unfoldable pub run_until_stall : D → Cmd Fut D D
  unfolding run
  run_until_stall d = run d

  unfoldable pub run_blocking : ℕ → D → Cmd Fut D D
  run_blocking m d = run_until_ready (poll_pool poll n k) m d
