-- ===== src/AtomicWaker.antt =====
-- src/futures/atomic_waker.rs: a cell for the waker of the executor. The two bits of `state` are two
-- fields. Each function below is one critical section or one atomic access of the source.
pub mod Threads
use cosync.Base.{Bool, true, false, Option, none, some, ◌||◌, if◌then◌else◌}

pub record AtomicWaker (W : Type 0) : Type 0 where
  pub registering : Bool
  pub waking : Bool
  pub waker : Option W

-- What `register` finds in its first compare-exchange. `locked` is the state after it.
pub data Registering (W : Type 0) : Type 0 where
  locked : AtomicWaker W → Registering W
  busy_waking : Registering W
  busy_registering : Registering W

module _ {W : Type 0} where
  unfoldable pub new : AtomicWaker W
  new = record { registering = false; waking = false; waker = none }

  -- `compare_exchange(WAITING, REGISTERING)`
  unfoldable pub try_register : AtomicWaker W → Registering W
  try_register a =
      if a.registering
      then busy_registering
      else if a.waking
      then busy_waking
      else locked (record a { registering = true })

  -- The critical section of `register` writes the cell.
  unfoldable pub set_waker : AtomicWaker W → W → AtomicWaker W
  set_waker a w = record a { waker = some w }

  -- `compare_exchange(REGISTERING, WAITING)`: on success the lock is given back. Otherwise the waker
  -- is taken out again, the state becomes `WAITING`, and the waker is returned to be woken.
  unfoldable pub finish_register : AtomicWaker W → Option W × AtomicWaker W
  finish_register a =
      if a.waking
      then (a.waker, record { registering = false; waking = false; waker = none })
      else (none, record a { registering = false })

  -- `fetch_or(WAKING)`: the state after it, and whether the cell is now locked by the caller.
  unfoldable pub fetch_or_waking : AtomicWaker W → Bool × AtomicWaker W
  fetch_or_waking a =
      (if a.registering || a.waking then false else true, record a { waking = true })

  -- The critical section of `take` empties the cell.
  unfoldable pub take_waker : AtomicWaker W → Option W × AtomicWaker W
  take_waker a = (a.waker, record a { waker = none })

  -- `fetch_and(!WAKING)`
  unfoldable pub finish_take : AtomicWaker W → AtomicWaker W
  finish_take a = record a { waking = false }

  -- `register` with no other thread in between: the waker to wake at once, if any.
  unfoldable pub register : AtomicWaker W → W → Option W × AtomicWaker W
  register a w = elim (try_register a) [
    | locked b ↦ finish_register (set_waker b w)
    | busy_waking ↦ (some w, a)
    | busy_registering ↦ (none, a)
  ]

  -- `take` with no other thread in between.
  unfoldable pub take : AtomicWaker W → Option W × AtomicWaker W
  take a =
      let (got, b) = fetch_or_waking a in
      if got then (let (w, c) = take_waker b in (w, finish_take c)) else (none, b)

  -- `wake`: its caller wakes the waker that it returns.
  abbrev pub wake : AtomicWaker W → Option W × AtomicWaker W
  wake a = take a
