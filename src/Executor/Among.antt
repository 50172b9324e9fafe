-- ===== src/Executor/Among.antt =====
-- The tasks that `poll_next` of src/futures/futures_unordered.rs polls, in their order, while other
-- threads wake tasks and queue new ones.
use cosync.Base.{◌≡◌, Option, none, List, [], ◌∷◌, ◌++◌, Ptr}
use cosync.Executor.{
  World, Script, Run, ok, panic, fault, out_of_fuel, done, again, and_then, turn, register_waker,
}
use cosync.Executor.Turns.{IsValid}
use cosync.Executor.Once.{polled_now, due, Once}
use cosync.Executor.Order.{Ordered, then_polls}
use cosync.Executor.Interleaved.{Event, happen, poll_among}

module _ {Fut D : Type 0} (poll : Fut → Script Fut D) where
  -- The polls after some events.
  abbrev after_events : (World Fut D → List Ptr) → Run Fut D (Unit {0}) → List Ptr
  after_events next (ok u w) = next w
  after_events next (panic w) = []
  after_events next fault = []
  after_events next out_of_fuel = []

  unfoldable pub polls_among : List (List (Event Fut)) → Option Ptr → World Fut D → List Ptr
  polls_among [] initial w = []
  polls_among (es ∷ rounds) initial w =
      after_events
        (λ w1. polled_now poll initial w1 ++ then_polls (polls_among rounds) (turn poll initial w1))
        (happen es w)

  -- The tasks that `poll_next` polls among the events.
  unfoldable pub polls_of_among : List (List (Event Fut)) → World Fut D → List Ptr
  polls_of_among rounds w = polls_among rounds none (register_waker w)

-- Events put tasks at the end of the ready to run queue, and leave the marks of the polls alone.
record Happened {Fut D : Type 0} (w : World Fut D) (xs ys : List Ptr) (w' : World Fut D)
    : Type 0 where
  pub more : List Ptr
  pub valid : IsValid w' (xs ++ more) ys
  pub last_polled : w'.pool.last_polled ≡ w.pool.last_polled
  pub poll_counter : w'.pool.poll_counter ≡ w.pool.poll_counter

module _ {Fut D : Type 0} (poll : Fut → Script Fut D) where
  abbrev PollsAmong :
      List (List (Event Fut)) → Option Ptr → World Fut D → List Ptr → List Ptr → Type 0
  PollsAmong rounds i w todo ys =
      Once w ys (polls_among poll rounds i w)
      × Ordered (due w ys todo) (polls_among poll rounds i w) (poll_among poll rounds i w)

  abbrev AfterEvents :
      List (List (Event Fut)) → Option Ptr → World Fut D → List Ptr → List Ptr → Type 0
  AfterEvents rounds i w todo ys =
      Once w ys (polled_now poll i w ++ then_polls (polls_among poll rounds) (turn poll i w))
      × Ordered (due w ys todo)
          (polled_now poll i w ++ then_polls (polls_among poll rounds) (turn poll i w))
          (and_then (turn poll i w)
            λ r w'. elim r [ done p ↦ ok p w' | again j ↦ poll_among poll rounds j w' ])
