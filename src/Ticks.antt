-- ===== src/Ticks.antt =====
-- src/lib.rs: `SleepForTick` and `Yield`, the futures of the crate that give way for some polls.
pub mod Sleep
use cosync.Base.{ℕ, zero, suc, Bool, true, false, Option, none, some, Ptr}
use cosync.Executor.{Script, Run, ok, Cmd, and_then, ready, pending, waker, wake, exec}

module _ {D : Type 0} where
  -- `SleepForTick::poll`. The state is the number of ticks that are left.
  unfoldable pub poll_sleep : ℕ → Script ℕ D
  poll_sleep zero = ready
  poll_sleep (suc n) = waker λ p. wake p (pending n)

  -- `Yield::poll`. The state says whether the future has given way.
  unfoldable pub poll_yield : Bool → Script Bool D
  poll_yield false = waker λ p. wake p (pending true)
  poll_yield true = ready

-- `sleep_ticks` and `SleepForTick::new`
abbrev pub sleep_ticks : ℕ → ℕ
sleep_ticks ticks = ticks

abbrev pub yield_now : Bool
yield_now = false

-- Polls of one task, up to a number of them, until the future is ready.
module _ {Fut D : Type 0} (poll : Fut → Script Fut D) (t : Ptr) where
  abbrev pub polls : ℕ → Fut → Cmd Fut D (Option Fut)
  polls zero f w = ok (some f) w
  polls (suc k) f w =
      and_then (exec t (poll f) w) λ r w'. elim r [ none ↦ ok none w' | some g ↦ polls k g w' ]
