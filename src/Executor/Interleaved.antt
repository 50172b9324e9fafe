-- ===== src/Executor/Interleaved.antt =====
-- The rounds of `poll_next` of src/futures/futures_unordered.rs between what other threads do to the
-- wakers of the tasks and to the queue handles of src/lib.rs.
use cosync.Base.{ℕ, ◌≡◌, refl, List, [], ◌∷◌, ◌++◌, Ptr, Option, none}
use cosync.Executor.{
  World, Script, ok, out_of_fuel, Poll, done, again, Cmd, and_then, wake_cmd, raw_queue, turn,
  register_waker,
}
use cosync.Executor.Polls.{wake_cmd_lem}
use cosync.Executor.Turns.{register_waker-IsValid}
use cosync.Executor.Safety.{SomeValid, IsSafe, turn-IsSafe, after_turn-IsSafe}

-- What another thread does: it wakes a task, or queues a new one.
pub data Event (Fut : Type 0) : Type 0 where
  woken : Ptr → Event Fut
  queued : Fut → Event Fut

module _ {Fut D : Type 0} where
  unfoldable pub happen : List (Event Fut) → Cmd Fut D (Unit {0})
  happen [] w = ok tt w
  happen (woken t ∷ es) w = and_then (wake_cmd t w) λ _ w1. happen es w1
  happen (queued f ∷ es) w = happen es (raw_queue f w).1

module _ {Fut D : Type 0} (poll : Fut → Script Fut D) where
  -- The loop of `poll_next`, with the events before each of its rounds.
  unfoldable pub poll_among : List (List (Event Fut)) → Option Ptr → Cmd Fut D Poll
  poll_among [] initial w = out_of_fuel
  poll_among (es ∷ rounds) initial w = and_then (happen es w) λ _ w1.
      and_then (turn poll initial w1)
        λ r w2. elim r [ done result ↦ ok result w2 | again i ↦ poll_among rounds i w2 ]

  unfoldable pub poll_next_among : List (List (Event Fut)) → Cmd Fut D Poll
  poll_next_among rounds w = poll_among rounds none (register_waker w)

module _ {Fut D : Type 0} (k : ℕ) where
  happen-SomeValid :
      (es : List (Event Fut)) (w : World Fut D)
      → SomeValid k w
      → (w' : World Fut D) × (happen es w ≡ ok tt w') × SomeValid k w'
  unfolding happen raw_queue
  happen-SomeValid [] w v = (w, refl, v)
  happen-SomeValid (woken t ∷ es) w (xs, ys, v, h) =
      let (w1, e, s, q) = wake_cmd_lem t w xs ys ys v in
      let (w', r, v') = happen-SomeValid es w1 (xs ++ s.more, ys, s.valid, h) in
      (w', rw (e, happen) r, v')
  happen-SomeValid (queued f ∷ es) w (xs, ys, v, h) =
      happen-SomeValid es (raw_queue f w).1 (xs, ys, v, h)

module _ {Fut D : Type 0} (poll : Fut → Script Fut D) (k : ℕ) where
  among-IsSafe :
      (rounds : List (List (Event Fut))) (i : Option Ptr) (w : World Fut D)
      → SomeValid k w
      → IsSafe k (poll_among poll rounds i w)
  unfolding poll_among
  among-IsSafe [] i w v = tt
  among-IsSafe (es ∷ rounds) i w v =
      let (w1, e, (xs, ys, v1, h)) = happen-SomeValid k es w v in
      rw e (
        after_turn-IsSafe poll k (poll_among poll rounds) (among-IsSafe rounds) (turn poll i w1)
          (turn-IsSafe poll k i w1 xs ys v1 h))

  -- On a valid pool of at most `k` tasks, if other threads wake any tasks and queue new ones between
  -- the rounds of `poll_next`, in any order, it still dereferences no null pointer and fails no
  -- assertion. When it returns, and when a future panics, the pool is valid and has at most `k`
  -- tasks, and when it returns it says ready if and only if no task is left.
  pub poll_next_among-IsSafe :
      (rounds : List (List (Event Fut))) (w : World Fut D)
      → SomeValid k w
      → IsSafe k (poll_next_among poll rounds w)
  unfolding poll_next_among
  poll_next_among-IsSafe rounds w (xs, ys, v, h) =
      among-IsSafe rounds none (register_waker w) (xs, ys, register_waker-IsValid w xs ys v, h)
