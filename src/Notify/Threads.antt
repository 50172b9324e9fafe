-- ===== src/Notify/Threads.antt =====
-- src/lib.rs: `ThreadNotify` and the loop of `run_blocking`, between any number of threads that wake
-- the one that runs the pool. Each step is one atomic access, `park`, `unpark` or one poll.
use cosync.Base.{
  ℕ, zero, suc, ◌+◌, ◌-◌, ◌≡◌, ◌⊎◌, ◌≤◌, refl, Bool, true, false, Option, none, some, List, [], ◌∷◌,
  arith, ◌>>=◌, inl, inr, if◌then◌else◌,
}

-- Where the loop of `run_blocking` is: in a poll, before `park`, or behind it.
pub data Phase : Type 0 where
  polling : Phase
  parking : Phase
  resetting : Phase

-- `waking` counts the threads that set `unparked` and have not called `unpark` yet. `owed` says that
-- a wake came after the start of the last poll.
pub record Parker : Type 0 where
  pub unparked : Bool
  pub token : Bool
  pub phase : Phase
  pub waking : ℕ
  pub owed : Bool

-- `park_returns` is `park` with the token, `spurious` without, and `take_token` a `park` of other
-- code in a poll. `stray` is an `unpark` of other code.
pub data Step : Type 0 where
  swap_unparked : Step
  unpark : Step
  end_poll : Step
  park_returns : Step
  spurious : Step
  reset : Step
  take_token : Step
  stray : Step

abbrev pub start_state : Parker
start_state = record { unparked = false; token = false; phase = polling; waking = 0; owed = false }

-- `none` is a step that no thread stands before.
unfoldable pub perform : Step → Parker → Option Parker
perform swap_unparked s = some (record s {
  unparked = true;
  owed = true;
  waking = if s.unparked then s.waking else s.waking + 1;
})
perform unpark s = elim s.waking [
  | zero ↦ none
  | suc n ↦ some (record s { token = true; waking = n })
]
perform end_poll s = elim s.phase [
  | polling ↦ some (
      if s.unparked
      then record s { unparked = false; owed = false }
      else record s { unparked = false; phase = parking })
  | _ ↦ none
]
perform park_returns s = elim s.phase [
  | parking ↦ if s.token then some (record s { token = false; phase = resetting }) else none
  | _ ↦ none
]
perform spurious s = elim s.phase [ parking ↦ some (record s { phase = resetting }) | _ ↦ none ]
perform reset s = elim s.phase [
  | resetting ↦ some (record s { unparked = false; phase = polling; owed = false })
  | _ ↦ none
]
perform take_token s = elim s.phase [ polling ↦ some (record s { token = false }) | _ ↦ none ]
perform stray s = some (record s { token = true })

unfoldable pub performs : List Step → Parker → Option Parker
performs [] s = some s
performs (e ∷ es) s = perform e s >>= performs es

-- The states that the steps of all threads reach, in any order.
pub data Reachable : Parker → Type 0 where
  starts : Reachable start_state
  step : {s s' : Parker} (e : Step) → Reachable s → perform e s ≡ some s' → Reachable s'

Phase-cases : (p : Phase) → (p ≡ polling) ⊎ ((p ≡ parking) ⊎ (p ≡ resetting))
Phase-cases polling = inl refl
Phase-cases parking = inr (inl refl)
Phase-cases resetting = inr (inr refl)

-- A wake that the last poll cannot have seen is remembered by the mark, and a thread that is about to
-- park with the mark set has the token, or gets it.
record Remembers (s : Parker) : Type 0 where
  marked : s.owed ≡ true → (s.unparked ≡ true) ⊎ (s.phase ≡ resetting)
  woken : s.phase ≡ parking → s.unparked ≡ true → (s.token ≡ true) ⊎ (1 ≤ s.waking)

perform-Remembers : (e : Step) (s s' : Parker) → Remembers s → perform e s ≡ some s' → Remembers s'
unfolding perform
perform-Remembers swap_unparked s s' k e = record {
  marked = λ o. ground (arith, e);
  woken = λ p u. ground (arith, e, k.woken, p, u);
}
perform-Remembers unpark s s' k e = record {
  marked = λ o. ground (arith, e, k.marked, o);
  woken = λ p u. ground (arith, e, k.woken, p, u);
}
perform-Remembers end_poll s s' k e = record {
  marked = λ o. ground (arith, e, k.marked, o, Phase-cases s.phase);
  woken = λ p u. ground (arith, e, p, u, Phase-cases s.phase);
}
perform-Remembers park_returns s s' k e = record {
  marked = λ o. ground (arith, e, Phase-cases s.phase);
  woken = λ p u. ground (arith, e, p, u, Phase-cases s.phase);
}
perform-Remembers spurious s s' k e = record {
  marked = λ o. ground (arith, e, Phase-cases s.phase);
  woken = λ p u. ground (arith, e, p, u, Phase-cases s.phase);
}
perform-Remembers reset s s' k e = record {
  marked = λ o. ground (arith, e, o, Phase-cases s.phase);
  woken = λ p u. ground (arith, e, p, u, Phase-cases s.phase);
}
perform-Remembers take_token s s' k e = record {
  marked = λ o. ground (arith, e, o, k.marked, Phase-cases s.phase);
  woken = λ p u. ground (arith, e, p, u, Phase-cases s.phase);
}
perform-Remembers stray s s' k e = record {
  marked = λ o. ground (arith, e, k.marked, o);
  woken = λ p u. ground (arith, e);
}

Reachable-Remembers : (s : Parker) → Reachable s → Remembers s
Reachable-Remembers s starts = record { marked = λ o. cc; woken = λ p u. cc }
Reachable-Remembers s (step {s = s0} e r p) = perform-Remembers e s0 s (Reachable-Remembers s0 r) p

-- The steps that the thread takes, and the `unpark` that some other thread stands before.
abbrev pub to_poll : Parker → List Step
to_poll s = elim s.phase [
  | polling ↦ end_poll ∷ []
  | parking ↦ if s.token then park_returns ∷ reset ∷ [] else unpark ∷ park_returns ∷ reset ∷ []
  | resetting ↦ reset ∷ []
]

-- No wake is lost to `park`: in every state that the loop of `run_blocking` and any number of waking
-- threads reach, if a wake came after the start of the last poll, then the steps of the loop alone,
-- or with the `unpark` that a waking thread is about to call, lead to the start of the next poll.
pub performs-to_poll :
    (s : Parker)
    → Reachable s
    → s.owed ≡ true
    → (s' : Parker) × (performs (to_poll s) s ≡ some s') × (s'.phase ≡ polling) × (s'.owed ≡ false)
unfolding perform performs
performs-to_poll s r o =
    let k = Reachable-Remembers s r in
    elim (Phase-cases s.phase) [
      | inl p ↦ (
        record s { unparked = false; owed = false },
        ground (arith, p, o, k.marked),
        ground (arith, p),
        refl,
      )
      | inr (inl p) ↦ (
        record s {
          unparked = false;
          token = false;
          phase = polling;
          owed = false;
          waking = if s.token then s.waking else s.waking - 1;
        },
        ground (arith, p, o, k.marked, k.woken),
        refl,
        refl,
      )
      | inr (inr p) ↦ (
        record s { unparked = false; phase = polling; owed = false },
        ground (arith, p),
        refl,
        refl,
      )
    ]
