-- ===== src/Executor/Halts.antt =====
-- `poll_next` as a loop that returns: the rounds that end it and those that go on.
use cosync.Base.{ℕ, suc, ◌+◌, ◌≡◌, refl, Option, List, [], arith, Ptr}
use cosync.Executor.{
  World, Script, Run, ok, panic, fault, out_of_fuel, Poll, done, again, turn, poll_loop,
}
use cosync.Executor.Turns.{IsValid, outcome, turn-nil}

-- The loop is over, the pool is valid, and the result says whether tasks are left.
abbrev pub Finished : {Fut D : Type 0} → Run Fut D Poll → Type 0
Finished (ok r w) = (xs : List Ptr) × (ys : List Ptr) × IsValid w xs ys × (r ≡ outcome ys)
Finished (panic w) = (xs : List Ptr) × (ys : List Ptr) × IsValid w xs ys
Finished fault = ⊥
Finished out_of_fuel = ⊥

-- With enough fuel the result is always the same, and finished.
pub record Halts {Fut D : Type 0} (m : ℕ → Run Fut D Poll) : Type 0 where
  pub enough : ℕ
  pub result : Run Fut D Poll
  pub settles : (k : ℕ) → m (k + enough) ≡ result
  pub finished : Finished result

module _ {Fut D : Type 0} (poll : Fut → Script Fut D) where
  loop_done :
      (i : Option Ptr) (w w' : World Fut D) (r : Poll)
      → turn poll i w ≡ ok (done r) w'
      → (k : ℕ) → poll_loop poll (k + 1) i w ≡ ok r w'
  unfolding poll_loop
  loop_done i w w' r e k = let next : k + 1 ≡ suc k = omega arith in rw (next, poll_loop, e)

  loop_panic :
      (i : Option Ptr) (w w' : World Fut D)
      → turn poll i w ≡ panic w'
      → (k : ℕ) → poll_loop poll (k + 1) i w ≡ panic w'
  unfolding poll_loop
  loop_panic i w w' e k = let next : k + 1 ≡ suc k = omega arith in rw (next, poll_loop, e)

  pub loop_again :
      (i j : Option Ptr) (w w' : World Fut D)
      → turn poll i w ≡ ok (again j) w'
      → Halts (λ n. poll_loop poll n j w')
      → Halts (λ n. poll_loop poll n i w)
  unfolding poll_loop
  loop_again i j w w' e h = record {
    enough = suc h.enough;
    result = h.result;
    settles = λ k.
        let next : k + suc h.enough ≡ suc (k + h.enough) = omega arith in
        rw (next, poll_loop, e) (h.settles k);
    finished = h.finished;
  }

  pub done-Halts :
      (i : Option Ptr) (w w' : World Fut D) (xs ys : List Ptr) (r : Poll)
      → turn poll i w ≡ ok (done r) w'
      → IsValid w' xs ys
      → r ≡ outcome ys
      → Halts (λ n. poll_loop poll n i w)
  done-Halts i w w' xs ys r e v o = record {
    enough = 1;
    result = ok r w';
    settles = loop_done i w w' r e;
    finished = (xs, ys, v, o);
  }

  pub panic-Halts :
      (i : Option Ptr) (w w' : World Fut D) (xs ys : List Ptr)
      → turn poll i w ≡ panic w'
      → IsValid w' xs ys
      → Halts (λ n. poll_loop poll n i w)
  panic-Halts i w w' xs ys e v = record {
    enough = 1;
    result = panic w';
    settles = loop_panic i w w' e;
    finished = (xs, ys, v);
  }

  pub nil-Halts :
      (i : Option Ptr) (w : World Fut D) (ys : List Ptr)
      → IsValid w [] ys
      → Halts (λ n. poll_loop poll n i w)
  nil-Halts i w ys v =
      let (w', e, v', el, ec, en) = turn-nil poll i w ys v in done-Halts i w w' [] ys _ e v' refl
