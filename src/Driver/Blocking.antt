-- ===== src/Driver/Blocking.antt =====
-- `run_blocking` of src/lib.rs on any futures.
use cosync.Base.{
  ℕ, zero, suc, ◌≡◌, refl, false, true, none, some, List, [], ◌∷◌, arith, Ptr, Option-cases, inl,
  inr,
}
use cosync.Notify.{Thread, enter, exit, park_or_continue}
use cosync.Executor.{
  World, Script, Run, ok, panic, fault, out_of_fuel, Poll, poll_ready, poll_pending, Cmd, and_then,
}
use cosync.Executor.Turns.{IsValid}
use cosync.Driver.{block_loop, poll_pool, leave, run_with, run_blocking}
use cosync.Executor.Frame.{Keeps, keeps_ok, keeps_panic, keeps_out, and_then-Keeps}
use cosync.Driver.Open.{IsOpen, poll_pool-Keeps}
use cosync.Driver.Safety.{IsSound, Settled, AfterRun, poll_pool-Settled}

-- No task is left, in the pool or in the incoming queue.
abbrev pub NoTasks : {Fut D : Type 0} → World Fut D → Type 0
NoTasks w = (xs : List Ptr) × IsValid w xs [] × (w.incoming ≡ [])

abbrev pub Completed : {Fut D A : Type 0} → Run Fut D A → Type 0
Completed (ok r w) = NoTasks w
Completed (panic w) = IsSound w
Completed fault = ⊥
Completed out_of_fuel = Unit

abbrev pub AfterBlocking : {Fut D : Type 0} → Run Fut D D → Type 0
AfterBlocking (ok d w) = NoTasks w × (w.heap_ptr ≡ none) × (w.thread.entered ≡ false)
AfterBlocking (panic w) = AfterRun (panic w)
AfterBlocking fault = ⊥
AfterBlocking out_of_fuel = Unit

park-entered : (t th : Thread) → park_or_continue t ≡ some th → th.entered ≡ t.entered
unfolding park_or_continue
park-entered t th e = ground (arith, e)

-- What follows a poll in the loop.
abbrev pub blocked : {Fut D : Type 0} → Cmd Fut D (Unit {0}) → Poll → Cmd Fut D (Unit {0})
blocked next poll_ready w = ok tt w
blocked next poll_pending w = elim (park_or_continue w.thread) [
  | none ↦ out_of_fuel
  | some th ↦ next (record w { thread = th })
]

module _ {Fut D : Type 0} where
  pub block_loop-blocked :
      (cback : Cmd Fut D Poll) (m : ℕ) (w : World Fut D)
      → block_loop cback (suc m) w ≡ and_then (cback w) (blocked (block_loop cback m))
  unfolding block_loop
  block_loop-blocked cback m w = go (cback w)
    where
      go :
          (r : Run Fut D Poll)
          → (and_then r λ r w1. elim r [
            | poll_ready ↦ ok tt w1
            | poll_pending ↦ elim (park_or_continue w1.thread) [
              | none ↦ out_of_fuel
              | some th ↦ block_loop cback m (record w1 { thread = th })
            ]
          ])
            ≡ and_then r (blocked (block_loop cback m))
      go (ok poll_ready w1) = refl
      go (ok poll_pending w1) = refl
      go (panic w1) = refl
      go fault = refl
      go out_of_fuel = refl

  blocked-Completed :
      (next : Cmd Fut D (Unit {0})) (r : Run Fut D Poll)
      → ((w : World Fut D) → IsSound w → Completed (next w))
      → Settled r
      → Completed (and_then r (blocked next))
  blocked-Completed next (ok poll_ready w) rec (xs, [], v, o, e) = (xs, v, e)
  blocked-Completed next (ok poll_ready w) rec (xs, y ∷ ys, v, o, e) = cc
  blocked-Completed next (ok poll_pending w) rec (xs, ys, v, o, e) =
      elim (Option-cases (park_or_continue w.thread)) [
        | inl h ↦ rw (h, Completed, and_then) tt
        | inr (th, h) ↦ rw (h, Completed, and_then) (rec (record w { thread = th }) (xs, ys, v))
      ]
  blocked-Completed next (panic w) rec s = s
  blocked-Completed next fault rec s = s
  blocked-Completed next out_of_fuel rec s = s

  blocked-Keeps :
      (next : Cmd Fut D (Unit {0}))
      → ((w : World Fut D) → IsOpen w → Keeps IsOpen (next w))
      → (r : Poll) (w : World Fut D) → IsOpen w
      → Keeps IsOpen (blocked next r w)
  blocked-Keeps next rec poll_ready w o = keeps_ok o
  blocked-Keeps next rec poll_pending w o = elim (Option-cases (park_or_continue w.thread)) [
    | inl h ↦ rw (h, blocked) keeps_out
    | inr (th, h) ↦
        rw (h, blocked)
          (rec (record w { thread = th }) (rw (park-entered w.thread th h) (o.0), o.1))
  ]

  leave-AfterBlocking :
      {A : Type 0} (r : Run Fut D A) → Completed r → Keeps IsOpen r → AfterBlocking (leave r)
  unfolding leave exit
  leave-AfterBlocking (ok a w) s (keeps_ok o) = ground (arith, s, o)
  leave-AfterBlocking (panic w) s (keeps_panic o) = rw (o.0, AfterRun) (s, o.1, refl)
  leave-AfterBlocking fault s k = s
  leave-AfterBlocking out_of_fuel s k = tt

module _ {Fut D : Type 0} (poll : Fut → Script Fut D) (n k : ℕ) where
  block_loop-Completed :
      (m : ℕ) (w : World Fut D) → IsSound w → Completed (block_loop (poll_pool poll n k) m w)
  block_loop-Completed zero w s = unfold block_loop in tt
  block_loop-Completed (suc m) w s = rw (block_loop-blocked (poll_pool poll n k) m w) (
      blocked-Completed (block_loop (poll_pool poll n k) m) (poll_pool poll n k w)
        (block_loop-Completed m) (poll_pool-Settled poll n k w s))

  pub block_loop-Keeps :
      (m : ℕ) (w : World Fut D) → IsOpen w → Keeps IsOpen (block_loop (poll_pool poll n k) m w)
  block_loop-Keeps zero w o = unfold block_loop in keeps_out
  block_loop-Keeps (suc m) w o = rw (block_loop-blocked (poll_pool poll n k) m w) (
      and_then-Keeps (poll_pool-Keeps poll n k w o)
        (blocked-Keeps (block_loop (poll_pool poll n k) m) (block_loop-Keeps m)))

  -- `run_blocking` of a `Cosync` with a valid pool, on a thread that is in no executor, never ends
  -- in undefined behaviour. When it returns no task is left in the pool or in the incoming queue,
  -- the box holds no pointer and the mark of `enter` is gone. When a task panics the mark is gone
  -- and the pool is valid, but the box still holds a pointer.
  pub run_blocking-AfterBlocking :
      (m : ℕ) (d : D) (w : World Fut D)
      → IsSound w
      → w.thread.entered ≡ false
      → AfterBlocking (run_blocking poll n k m d w)
  unfolding run_blocking run_with enter
  run_blocking-AfterBlocking m d w s e =
      let open_world = record w {
        heap_ptr = some d;
        thread = record w.thread { entered = true };
      } in
      rw e (
        leave-AfterBlocking (block_loop (poll_pool poll n k) m open_world)
          (block_loop-Completed m open_world s) (block_loop-Keeps m open_world (refl, refl)))
