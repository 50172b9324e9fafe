-- ===== src/Executor/Rounds.antt =====
-- One round of `poll_next` in one statement: what it does to the queue, the tasks and the marks of
-- their last polls.
use mathlib.Core.List.{append-nil}
use cosync.Base.{
  ℕ, IsDistinct, has-append, ◌≡◌, ◌⊎◌, inl, inr, refl, Bool, true, false, Option, none, some, List,
  [], ◌∷◌, ◌++◌, arith, Ptr, has, has-erase, erase, Bool-cases, ◌==◌, leb,
}
use cosync.Executor.{
  World, Script, Run, ok, panic, fault, out_of_fuel, Turn, done, again, or_first, came_round, exec,
  turn, script,
}
use cosync.Executor.Turns.{IsValid, turn-discard, turn-requeue}
use cosync.Executor.Polled.{AfterPoll, turn-AfterPoll}

-- The task was polled in the cycle of the world.
abbrev pub is_seen : {Fut D : Type 0} → World Fut D → Ptr → Bool
is_seen w t = leb w.pool.poll_counter (w.pool.last_polled t)

-- The task `t` was taken off the queue: it was polled in this cycle, or is no task of the pool now.
pub record Taken {Fut D : Type 0} (w : World Fut D) (t : Ptr) (xs ys : List Ptr) (w' : World Fut D)
    : Type 0 where
  pub more : List Ptr
  pub tasks : List Ptr
  pub valid : IsValid w' (xs ++ more) tasks
  pub poll_counter : w'.pool.poll_counter ≡ w.pool.poll_counter
  pub fresh : w'.pool.fresh ≡ w.pool.fresh
  pub no_new : (s : Ptr) → has s tasks ≡ true → has s ys ≡ true
  pub still_seen : (s : Ptr) → is_seen w s ≡ true → is_seen w' s ≡ true
  pub taken_seen : has t tasks ≡ true → is_seen w' t ≡ true
  pub others :
      (s : Ptr) → (s == t) ≡ false → (has s tasks ≡ has s ys) × (is_seen w' s ≡ is_seen w s)

-- The loop goes on with the first task that was seen, or stops at it.
abbrev pub TakesOne :
    {Fut D : Type 0} → Option Ptr → World Fut D → Ptr → (xs ys : List Ptr) → Run Fut D Turn → Type 0
TakesOne i w t xs ys (ok (again j) w') = Taken w t xs ys w' × ((j ≡ i) ⊎ (j ≡ some t))
TakesOne i w t xs ys (ok (done r) w') = Taken w t xs ys w' × (i ≡ some t)
TakesOne i w t xs ys (panic w') = Unit
TakesOne i w t xs ys fault = ⊥
TakesOne i w t xs ys out_of_fuel = ⊥

-- No task of the list is the one at which the loop stops.
abbrev pub Misses : Option Ptr → List Ptr → Type 0
Misses none xs = Unit
Misses (some i) xs = has i xs ≡ false

pub Misses-nil : (j : Option Ptr) → Misses j []
Misses-nil none = tt
Misses-nil (some j) = refl

pub Misses-later :
    (i j : Option Ptr) (t : Ptr) (todo : List Ptr)
    → has t todo ≡ false
    → Misses i (t ∷ todo)
    → (j ≡ i) ⊎ (j ≡ some t)
    → Misses j todo
Misses-later i none t todo n h e = tt
Misses-later none (some b) t todo n h (inl e) = cc
Misses-later (some a) (some b) t todo n h (inl e) = ground (arith, h, e)
Misses-later i (some b) t todo n h (inr e) = ground (arith, n, e)

pub Misses-front :
    (i : Option Ptr) (t : Ptr) (todo : List Ptr) → Misses i (t ∷ todo) → i ≡ some t → ⊥
Misses-front none t todo h e = cc
Misses-front (some i) t todo h e = ground (arith, h, e)

pub front_only :
    (t : Ptr) (todo rest : List Ptr) → IsDistinct (t ∷ todo ++ rest) → has t todo ≡ false
front_only t todo rest d = ground (arith, d.0, has-append t todo rest)

module _ {Fut D : Type 0} (w : World Fut D) (t : Ptr) (xs ys : List Ptr) where
  came_round-TakesOne :
      (i : Option Ptr) (w' : World Fut D)
      → Taken w t xs ys w'
      → TakesOne i w t xs ys (ok (came_round i t) w')
  came_round-TakesOne none w' k = (k, inr refl)
  came_round-TakesOne (some i) w' k = elim (Bool-cases (i == t)) [
    | inl e ↦ rw (e, came_round, TakesOne) (k, ground arith)
    | inr e ↦ rw (e, came_round, TakesOne) (k, inl refl)
  ]

  or_first-cases : (i : Option Ptr) → (or_first i t ≡ i) ⊎ (or_first i t ≡ some t)
  or_first-cases none = inr refl
  or_first-cases (some i) = inl refl

  polled-TakesOne :
      (i : Option Ptr) (id : ℕ) (r : Run Fut D (Option Fut)) (s : Run Fut D Turn)
      → has t ys ≡ true
      → AfterPoll i w t id xs ys r s
      → TakesOne i w t xs ys s
  polled-TakesOne i id (ok none w1) s m (w', e, g) = rw e (
    record {
      more = g.more;
      tasks = erase t ys;
      valid = g.valid;
      poll_counter = g.poll_counter;
      fresh = g.fresh;
      no_new = λ s j. ground (arith, has-erase t s ys);
      still_seen = λ s h. rw (g.last_polled, g.poll_counter) (ground arith);
      taken_seen = λ j. rw (g.last_polled, g.poll_counter) (ground arith);
      others = λ s n.
          (ground (arith, has-erase t s ys), rw (g.last_polled, g.poll_counter) (ground arith));
    },
    inl refl,
  )
  polled-TakesOne i id (ok (some f) w1) s m (w', e, g, q) = rw e (
    record {
      more = g.more;
      tasks = t ∷ erase t ys;
      valid = g.valid;
      poll_counter = g.poll_counter;
      fresh = g.fresh;
      no_new = λ s j. ground (arith, has-erase t s ys);
      still_seen = λ s h. rw (g.last_polled, g.poll_counter) (ground arith);
      taken_seen = λ j. rw (g.last_polled, g.poll_counter) (ground arith);
      others = λ s n.
          (ground (arith, has-erase t s ys), rw (g.last_polled, g.poll_counter) (ground arith));
    },
    or_first-cases i,
  )
  polled-TakesOne i id (panic w1) s m (w', e, g) = rw e tt
  polled-TakesOne i id fault s m a = absurd a
  polled-TakesOne i id out_of_fuel s m a = absurd a

module _ {Fut D : Type 0} (poll : Fut → Script Fut D) (i : Option Ptr) (w : World Fut D) where
  pub turn-TakesOne :
      (t : Ptr) (xs ys : List Ptr) → IsValid w (t ∷ xs) ys → TakesOne i w t xs ys (turn poll i w)
  turn-TakesOne t xs ys v = elim (Bool-cases (has t ys)) [
    | inr gone ↦
        let (w', e, v', el, ec, en) = turn-discard poll i w t xs ys v gone in
        rw e (
          record {
            more = [];
            tasks = ys;
            valid = rw append-nil v';
            poll_counter = ec;
            fresh = en;
            no_new = λ s j. j;
            still_seen = λ s h. rw (el, ec) h;
            taken_seen = λ j. cc;
            others = λ s n. (refl, rw (el, ec) refl);
          },
          inl refl,
        )
    | inl live ↦ elim (Bool-cases (is_seen w t)) [
      | inl seen ↦
          let (w', e, v', el, ec, en) = turn-requeue poll i w t xs ys v live seen in
          rw e (
            came_round-TakesOne w t xs ys i w' (record {
              more = t ∷ [];
              tasks = t ∷ erase t ys;
              valid = v';
              poll_counter = ec;
              fresh = en;
              no_new = λ s j. ground (arith, has-erase t s ys);
              still_seen = λ s h. rw (el, ec) h;
              taken_seen = λ j. rw (el, ec) seen;
              others = λ s n. (ground (arith, has-erase t s ys), rw (el, ec) refl);
            }))
      | inr unseen ↦
          let (w1, f, ef, eb, eu, v1, a) = turn-AfterPoll poll i w t xs ys v live unseen in
          polled-TakesOne w t xs ys i f.id (exec t (script poll f.body) w1) (turn poll i w) live a
    ]
  ]
