-- ===== src/Tests/Sequences.antt =====
-- The unit tests of src/lib.rs in which tasks take turns, as programs: the constructors of a type are
-- the points at which its tasks wait. An assertion of a task that fails is a panic.
use cosync.Base.{ℕ, zero, suc, ◌==◌, if◌then◌else◌}
use cosync.Executor.{Script, ready, pending, panics, waker, wake, get, put, Cmd, ok, ◌>>=◌, ◌>>◌}
use cosync.Driver.{cosync_queue, run}

-- `yield_now().await`: the task goes on in the state `f` at the next poll.
abbrev pub give_way : {Fut D : Type 0} → Fut → Script Fut D
give_way f = waker λ p. wake p (pending f)

abbrev pub expect : {Fut D : Type 0} → ℕ → ℕ → Script Fut D → Script Fut D
expect a b s = if a == b then s else panics

pub data Sequential : Type 0 where
  first second second_rest : Sequential

abbrev poll_sequential : Sequential → Script Sequential ℕ
poll_sequential first = get λ d. expect d 10 (put 10 ready)
poll_sequential second = get λ d. expect d 10 (give_way second_rest)
poll_sequential second_rest = get λ d. expect d 30 (put 0 ready)

abbrev pub pool_is_sequential : Cmd Sequential ℕ ℕ
pool_is_sequential = do
  cosync_queue first
  cosync_queue second
  run poll_sequential 20 5 10
  run poll_sequential 20 5 30

pub data Sides : Type 0 where
  left_side right_side : Sides

abbrev poll_parallel : Sides → Script Sides (ℕ × ℕ)
poll_parallel left_side = get λ d. expect d.0 10 (put (30, d.1) ready)
poll_parallel right_side = get λ d. expect d.1 20 (put (d.0, 20) ready)

abbrev pub multi_pool_is_parallel : Cmd Sides (ℕ × ℕ) (ℕ × ℕ)
multi_pool_is_parallel = do
  cosync_queue left_side
  cosync_queue right_side
  run poll_parallel 20 5 (10, 20)

pub data Stalls : Type 0 where
  starts goes_on : Stalls

abbrev pub poll_stalls : Stalls → Script Stalls ℕ
poll_stalls starts = get λ d. put 10 (give_way goes_on)
poll_stalls goes_on = get λ d. put 20 ready

-- The values after both runs.
abbrev pub run_stalls : Cmd Stalls ℕ (ℕ × ℕ)
run_stalls = do
  cosync_queue starts
  a ← run poll_stalls 20 5 0
  b ← run poll_stalls 20 5 a
  ok (a, b)

pub data Parallel : Type 0 where
  left right left_rest right_rest : Parallel

abbrev poll_multiple : Parallel → Script Parallel (ℕ × ℕ)
poll_multiple left = get λ d. expect d.0 10 (put (30, d.1) (give_way left_rest))
poll_multiple left_rest = get λ d. put (40, d.1) ready
poll_multiple right = get λ d. expect d.1 20 (put (d.0, 20) (give_way right_rest))
poll_multiple right_rest = get λ d. put (d.0, 40) ready

abbrev pub run_multiple : Cmd Parallel (ℕ × ℕ) ((ℕ × ℕ) × (ℕ × ℕ))
run_multiple = do
  cosync_queue left
  cosync_queue right
  a ← run poll_multiple 20 5 (10, 20)
  b ← run poll_multiple 20 5 a
  ok (a, b)

pub data Weird : Type 0 where
  third_first third_second third_third : Weird
  both : Parallel → Weird

abbrev poll_weird : Weird → Script Weird (ℕ × ℕ × ℕ)
poll_weird third_first = get λ d. expect d.2 30 (put (d.0, d.1, 20) (give_way third_second))
poll_weird third_second = get λ d. put (d.0, d.1, 30) (give_way third_third)
poll_weird third_third = get λ d. put (d.0, d.1, 40) ready
poll_weird (both left) = get λ d. expect d.0 10 (put (30, d.1, d.2) (give_way (both left_rest)))
poll_weird (both left_rest) = get λ d. put (40, d.1, d.2) ready
poll_weird (both right) = get λ d. expect d.1 20 (put (d.0, 20, d.2) (give_way (both right_rest)))
poll_weird (both right_rest) = get λ d. put (d.0, 40, d.2) ready

abbrev pub run_concurrent_weird : Cmd Weird (ℕ × ℕ × ℕ) ((ℕ × ℕ × ℕ) × ((ℕ × ℕ × ℕ) × (ℕ × ℕ × ℕ)))
run_concurrent_weird = do
  cosync_queue third_first
  cosync_queue (both left)
  cosync_queue (both right)
  a ← run poll_weird 20 5 (10, 20, 30)
  b ← run poll_weird 20 5 a
  c ← run poll_weird 20 5 b
  ok (a, (b, c))

-- The ticks that are left of `sleep_ticks`.
abbrev poll_ticker : ℕ → Script ℕ ℕ
poll_ticker zero = get λ d. put 10 ready
poll_ticker (suc n) = give_way n

abbrev run_times : ℕ → ℕ → Cmd ℕ ℕ ℕ
run_times zero d = ok d
run_times (suc n) d = do e ← run poll_ticker 20 5 d; run_times n e

abbrev pub sleep_ticker : Cmd ℕ ℕ (ℕ × ℕ)
sleep_ticker = do cosync_queue 5; a ← run_times 5 0; b ← run poll_ticker 20 5 a; ok (a, b)
