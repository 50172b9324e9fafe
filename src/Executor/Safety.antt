-- ===== src/Executor/Safety.antt =====
-- `poll_next` of src/futures/futures_unordered.rs on any futures.
use cosync.Base.{
  ℕ, zero, suc, ◌≤◌, length, length-erase, ◌==◌, ◌≡◌, refl, true, Option, none, some, List, [], ◌∷◌,
  arith, Ptr, has, Bool-cases, inl, inr, leb,
}
use cosync.Executor.{
  World, Script, Run, ok, panic, fault, out_of_fuel, Poll, Turn, done, again, exec, turn, poll_loop,
  poll_next, register_waker, script, and_then, came_round,
}
use cosync.Executor.Turns.{
  IsValid, outcome, turn-nil, turn-discard, turn-requeue, register_waker-IsValid,
}
use cosync.Executor.Polled.{AfterPoll, turn-AfterPoll}

abbrev pub SomeValid : {Fut D : Type 0} → ℕ → World Fut D → Type 0
SomeValid k w = (xs : List Ptr) × (ys : List Ptr) × IsValid w xs ys × (length ys ≤ k)

-- Of a run that began with `k` tasks. One that is out of fuel goes on.
abbrev pub IsSafe : {Fut D : Type 0} → ℕ → Run Fut D Poll → Type 0
IsSafe k (ok r w) =
    (xs : List Ptr) × (ys : List Ptr) × IsValid w xs ys × (length ys ≤ k) × (r ≡ outcome ys)
IsSafe k (panic w) = SomeValid k w
IsSafe k fault = ⊥
IsSafe k out_of_fuel = Unit

abbrev pub IsSafeTurn : {Fut D : Type 0} → ℕ → Run Fut D Turn → Type 0
IsSafeTurn k (ok (done r) w) =
    (xs : List Ptr) × (ys : List Ptr) × IsValid w xs ys × (length ys ≤ k) × (r ≡ outcome ys)
IsSafeTurn k (ok (again i) w) = SomeValid k w
IsSafeTurn k (panic w) = SomeValid k w
IsSafeTurn k fault = ⊥
IsSafeTurn k out_of_fuel = ⊥

came_round-IsSafe :
    {Fut D : Type 0} (i : Option Ptr) (t : Ptr) (k : ℕ) (w : World Fut D) (xs ys : List Ptr)
    → IsValid w xs (t ∷ ys)
    → length (t ∷ ys) ≤ k
    → IsSafeTurn k (ok (came_round i t) w)
came_round-IsSafe none t k w xs ys v h = (xs, t ∷ ys, v, h)
came_round-IsSafe (some i) t k w xs ys v h = elim (Bool-cases (i == t)) [
  | inl e ↦ rw e (xs, t ∷ ys, v, h, refl)
  | inr e ↦ rw e (xs, t ∷ ys, v, h)
]

module _ {Fut D : Type 0} (poll : Fut → Script Fut D) (k : ℕ) where
  polled-IsSafe :
      (i : Option Ptr) (w : World Fut D) (t : Ptr) (id : ℕ) (xs ys : List Ptr)
      (r : Run Fut D (Option Fut)) (s : Run Fut D Turn)
      → has t ys ≡ true
      → length ys ≤ k
      → AfterPoll i w t id xs ys r s
      → IsSafeTurn k s
  polled-IsSafe i w t id xs ys (ok none w1) s m h (w', e, g) =
      rw e (_, _, g.valid, omega (arith, length-erase t ys m))
  polled-IsSafe i w t id xs ys (ok (some f) w1) s m h (w', e, g, q) =
      rw e (_, _, g.valid, omega (arith, length-erase t ys m))
  polled-IsSafe i w t id xs ys (panic w1) s m h (w', e, g) =
      rw e (_, _, g.valid, omega (arith, length-erase t ys m))
  polled-IsSafe i w t id xs ys fault s m h a = absurd a
  polled-IsSafe i w t id xs ys out_of_fuel s m h a = absurd a

  pub turn-IsSafe :
      (i : Option Ptr) (w : World Fut D) (xs ys : List Ptr)
      → IsValid w xs ys
      → length ys ≤ k
      → IsSafeTurn k (turn poll i w)
  turn-IsSafe i w [] ys v h =
      let (w', e, v', el, ec, en) = turn-nil poll i w ys v in rw e ([], ys, v', h, refl)
  turn-IsSafe i w (t ∷ xs) ys v h = elim (Bool-cases (has t ys)) [
    | inr gone ↦
        let (w', e, v', el, ec, en) = turn-discard poll i w t xs ys v gone in rw e (_, _, v', h)
    | inl live ↦ elim (Bool-cases (leb w.pool.poll_counter (w.pool.last_polled t))) [
      | inl seen ↦
          let (w', e, v', el, ec, en) = turn-requeue poll i w t xs ys v live seen in
          rw e (came_round-IsSafe i t k w' _ _ v' (omega (arith, length-erase t ys live)))
      | inr unseen ↦
          let (w1, f, ef, eb, eu, v1, a) = turn-AfterPoll poll i w t xs ys v live unseen in
          polled-IsSafe i w t f.id xs ys (exec t (script poll f.body) w1) (turn poll i w) live h a
    ]
  ]

  pub after_turn-IsSafe :
      (next : Option Ptr → World Fut D → Run Fut D Poll)
      → ((j : Option Ptr) (w : World Fut D) → SomeValid k w → IsSafe k (next j w))
      → (s : Run Fut D Turn) → IsSafeTurn k s
      → IsSafe k (and_then s λ r w. elim r [ done p ↦ ok p w | again j ↦ next j w ])
  after_turn-IsSafe next rec (ok (done r) w) u = u
  after_turn-IsSafe next rec (ok (again j) w) u = rec j w u
  after_turn-IsSafe next rec (panic w) u = u
  after_turn-IsSafe next rec fault u = u
  after_turn-IsSafe next rec out_of_fuel u = tt

  loop-IsSafe :
      (n : ℕ) (i : Option Ptr) (w : World Fut D) → SomeValid k w → IsSafe k (poll_loop poll n i w)
  unfolding poll_loop
  loop-IsSafe zero i w v = tt
  loop-IsSafe (suc n) i w (xs, ys, v, h) =
      after_turn-IsSafe (poll_loop poll n) (loop-IsSafe n) (turn poll i w)
        (turn-IsSafe i w xs ys v h)

  -- On a valid pool of at most `k` tasks, whatever the futures do and whatever the fuel, `poll_next`
  -- dereferences no null pointer and fails no assertion. When it returns, and when a future panics,
  -- the pool is valid and has at most `k` tasks, and when it returns it says ready if and only if no
  -- task is left.
  pub poll_next-IsSafe : (n : ℕ) (w : World Fut D) → SomeValid k w → IsSafe k (poll_next poll n w)
  unfolding poll_next
  poll_next-IsSafe n w (xs, ys, v, h) =
      loop-IsSafe n none (register_waker w) (xs, ys, register_waker-IsValid w xs ys v, h)
