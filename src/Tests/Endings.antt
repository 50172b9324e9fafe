-- ===== src/Tests/Endings.antt =====
-- The theorems on futures that bring themselves nearer to their end at concrete states.
use cosync.Base.{ℕ, zero, suc, ◌≡◌, refl, false, true, some, none, [], ◌∷◌, arith, Ptr}
use cosync.FuturesUnordered.Valid.{new-IsPool}
use cosync.Executor.{World, ok, poll_pending, poll_next, wake_cmd}
use cosync.Executor.Turns.{IsValid}
use cosync.Executor.HalfWoken.{begin_wake, end_wake, poll_next-end_wake}
use cosync.Executor.Works.{Works}
use cosync.Executor.Ends.{Ends}
use cosync.Driver
use cosync.Driver.{run, run_blocking}
use cosync.Driver.Blocking.{NoTasks}
use cosync.Driver.Rest.{Rested}
use cosync.Driver.Completes.{run_blocking-Ends}
use cosync.Driver.Lessens.{Lessened, run-Ends}
use cosync.Driver.Queued.{queue_all, new-Ends}
use cosync.Ticks.{poll_sleep}
use cosync.Ticks.Sleep.{poll_sleep-Works}
use cosync.AtomicWaker
use cosync.FuturesUnordered as Pool
use cosync.Tests.{ticking, silent, two_incoming, main_thread, idle_pool, idle_pool-IsPool}

abbrev ticks_left : ℕ → ℕ
ticks_left n = n

ticking-Works : (f : ℕ) (t : Ptr) → Works ticks_left t false (ticks_left f) (ticking f)
ticking-Works zero t = λ d. tt
ticking-Works (suc n) t = (ground arith, omega arith)

two_incoming-Rested : Rested ticks_left 2 two_incoming
unfolding Driver.new Pool.new AtomicWaker.new
two_incoming-Rested = record {
  each = λ s. tt;
  registering = refl;
  waking = refl;
  strong = refl;
  incoming = (omega arith, (omega arith, tt));
}

run_blocking-Ends_example :
    Ends 3
      (λ n k j. run_blocking ticking n k j 5 two_incoming)
      (λ d' w'. NoTasks w' × (w'.heap_ptr ≡ none) × (w'.thread.entered ≡ false))
unfolding Driver.new Pool.new AtomicWaker.new
run_blocking-Ends_example =
    run_blocking-Ends ticks_left ticking ticking-Works 2 5 two_incoming [] [] new-IsPool
      two_incoming-Rested refl (omega arith)

run-Ends_example :
    Ends 3 (λ n k j. run ticking n k 5 two_incoming) (λ d' w'. Lessened ticks_left 2 1 w')
unfolding Driver.new Pool.new AtomicWaker.new
run-Ends_example =
    run-Ends ticks_left ticking ticking-Works 2 5 two_incoming [] [] new-IsPool two_incoming-Rested
      refl (omega arith)

new-Ends_example :
    Ends {Fut = ℕ} {D = ℕ} 3
      (λ n k j. run_blocking poll_sleep n k j 5 (queue_all (2 ∷ 0 ∷ []) (Driver.new main_thread)))
      (λ d' w'. NoTasks w' × (w'.heap_ptr ≡ none) × (w'.thread.entered ≡ false))
new-Ends_example =
    new-Ends ticks_left poll_sleep (poll_sleep-Works ℕ) 2 (2 ∷ 0 ∷ []) main_thread 5
      (omega arith, (omega arith, tt)) refl (omega arith)

-- One task, which was polled and waits for a wake.
abbrev idle_world : World ℕ ℕ
idle_world = record (Driver.new main_thread) { pool = idle_pool }

poll_next-end_wake_example :
    (prev : Ptr) × (w1 : World ℕ ℕ) × (w2 : World ℕ ℕ) × (w3 : World ℕ ℕ) × (begin_wake 2 idle_world
      ≡ some (prev, w1))
    × (wake_cmd 2 idle_world ≡ end_wake prev 2 w1)
    × (poll_next silent 1 w1 ≡ ok poll_pending w2)
    × (end_wake prev 2 w2 ≡ ok tt w3)
    × IsValid w3 (2 ∷ []) (2 ∷ [])
    × (w3.thread.unparked ≡ true)
poll_next-end_wake_example =
    poll_next-end_wake silent 0 idle_world 2 (2 ∷ []) idle_pool-IsPool refl refl refl
