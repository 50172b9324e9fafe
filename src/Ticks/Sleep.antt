-- ===== src/Ticks/Sleep.antt =====
-- How often `SleepForTick` and `Yield` of src/lib.rs are pending.
use cosync.Base.{
  ℕ, zero, suc, ◌-◌, leb, ◌≡◌, Bool, true, false, none, some, List, ◌++◌, arith, Ptr, if◌then◌else◌,
}
use cosync.FuturesUnordered.Valid.{IsPool}
use cosync.Executor.{World, ok, exec, poll_next}
use cosync.Executor.Polls.{wake_cmd_lem}
use cosync.Executor.Turns.{IsValid}
use cosync.Executor.Works.{Works, Works-WakesSelf}
use cosync.Executor.Halts.{Halts}
use cosync.Executor.Termination.{poll_next-Halts}
use cosync.Ticks.{poll_sleep, poll_yield, polls, sleep_ticks, yield_now}

-- Every poll of a sleep or a yield brings it nearer to its end.
pub poll_sleep-Works :
    (D : Type 0) (n : ℕ) (t : Ptr) → Works (λ m. m) {D = D} t false n (poll_sleep n)
unfolding poll_sleep
poll_sleep-Works D zero t = tt
poll_sleep-Works D (suc n) t = (ground arith, omega arith)

abbrev pub polls_left : Bool → ℕ
polls_left false = 1
polls_left true = 0

pub poll_yield-Works :
    (D : Type 0) (given : Bool) (t : Ptr)
    → Works polls_left {D = D} t false (polls_left given) (poll_yield given)
unfolding poll_yield
poll_yield-Works D true t = tt
poll_yield-Works D false t = (ground arith, omega arith)

-- On a valid pool whose tasks are all sleeping for some ticks, `poll_next` returns: from some fuel
-- on the result is always the same one, the pool it leaves is valid, and it says ready if and only
-- if no task is left.
pub sleep-Halts :
    {D : Type 0} (w : World ℕ D) (xs ys : List Ptr)
    → IsValid w xs ys
    → Halts (λ n. poll_next poll_sleep n w)
sleep-Halts {D} w xs ys v =
    poll_next-Halts poll_sleep
      (λ n t. Works-WakesSelf (λ m. m) t false n (poll_sleep n) (poll_sleep-Works D n t)) w xs ys v

module _ {D : Type 0} (t : Ptr) where
  sleep_once :
      (n : ℕ) (w : World ℕ D) (xs ys live : List Ptr)
      → IsPool w.pool xs ys live
      → (w' : World ℕ D) × (more : List Ptr) × (exec t (poll_sleep (suc n)) w ≡ ok (some n) w')
        × IsPool w'.pool (xs ++ more) ys live
  unfolding poll_sleep exec
  sleep_once n w xs ys live v =
      let (w', e, s, q) = wake_cmd_lem t w xs ys live v in (w', s.more, rw e, s.valid)

  -- On a valid pool, polling a sleep of `n` ticks at most `k` times leaves it pending with `n - k`
  -- ticks if `k` is at most `n`; otherwise it becomes ready.
  pub polls-sleep :
      (k n : ℕ) (w : World ℕ D) (xs ys live : List Ptr)
      → IsPool w.pool xs ys live
      → (w' : World ℕ D) × (polls poll_sleep t k (sleep_ticks n) w
          ≡ (if leb k n then ok (some (n - k)) w' else ok none w'))
  polls-sleep zero n w xs ys live v = (w, ground arith)
  polls-sleep (suc k) zero w xs ys live v = (w, unfold poll_sleep exec in ground arith)
  polls-sleep (suc k) (suc n) w xs ys live v =
      let (w1, more, e, v1) = sleep_once n w xs ys live v in
      let (w', r) = polls-sleep k n w1 (xs ++ more) ys live v1 in (w', rw e (ground (arith, r)))

  -- On a valid pool a new `Yield` is pending at its first poll, which leaves the task's mark
  -- `queued` set, and ready at the second.
  pub polls-yield :
      (k : ℕ) (w : World Bool D) (xs ys live : List Ptr)
      → IsPool w.pool xs ys live
      → (w' : World Bool D) × (polls poll_yield t 1 yield_now w ≡ ok (some true) w')
        × (polls poll_yield t (suc (suc k)) yield_now w ≡ ok none w')
        × (w'.pool.queued t ≡ true)
  unfolding poll_yield exec
  polls-yield k w xs ys live v =
      let (w', e, s, q) = wake_cmd_lem t w xs ys live v in (w', rw e, rw e, q)
