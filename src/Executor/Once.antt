-- ===== src/Executor/Once.antt =====
-- Which tasks `poll_next` of src/futures/futures_unordered.rs polls.
use cosync.Base.{
  ℕ, zero, suc, ◌≡◌, inl, inr, refl, true, false, ◌&&◌, not, Option, none, List, [], ◌∷◌, ◌++◌,
  arith, Ptr, has, IsDistinct, sym, ap, ◌∙◌, Bool-cases, if◌then◌else◌,
}
use cosync.Notify.{wake_by_ref}
use cosync.FuturesUnordered.Turns.{dequeue_task_lem}
use cosync.Executor.{
  World, Script, Run, Turn, raw_queue, script, after_dequeue, ok, panic, fault, out_of_fuel, done,
  again, turn, register_waker,
}
use cosync.Executor.Turns.{IsValid}
use cosync.Executor.Turns.{run_task_lem}
use cosync.Executor.Polls.{handle_unqueue_task_lem}
use cosync.Executor.Polled.{turn-poll}
use cosync.Executor.Frame.{
  Stable, Keeps, keeps_ok, keeps_panic, keeps_fault, Obeys-any, if-Keeps, and_then-Keeps,
  exec-Keeps, requeue-Keeps, guarded-Keeps, after_poll-Keeps,
}
use cosync.Executor.Rounds.{is_seen, Taken, TakesOne, turn-TakesOne}

module _ {Fut D : Type 0} where
  -- The calls of `Future::poll` that are on record when the code ends.
  abbrev pub on_record : {A : Type 0} → Run Fut D A → List Ptr
  on_record (ok a w) = w.polled
  on_record (panic w) = w.polled
  on_record fault = []
  on_record out_of_fuel = []

  -- The tasks of a list that are to be polled in this cycle.
  abbrev pub due : World Fut D → List Ptr → List Ptr → List Ptr
  due w ys [] = []
  due w ys (x ∷ xs) = if has x ys && not (is_seen w x) then x ∷ due w ys xs else due w ys xs

module _ {Fut D : Type 0} (poll : Fut → Script Fut D) where
  -- The calls that a round makes, as it records them.
  unfoldable pub polled_now : Option Ptr → World Fut D → List Ptr
  polled_now initial w = on_record (turn poll initial (record w { polled = [] }))

  unfoldable pub polls_of_loop : ℕ → Option Ptr → World Fut D → List Ptr
  polls_of_loop zero initial w = []
  polls_of_loop (suc n) initial w = polled_now initial w ++ (elim (turn poll initial w) [
    | ok r w' ↦ elim r [ done p ↦ [] | again j ↦ polls_of_loop n j w' ]
    | panic w' ↦ []
    | fault ↦ []
    | out_of_fuel ↦ []
  ])

  -- The tasks that `poll_next` polls.
  unfoldable pub polls_of : ℕ → World Fut D → List Ptr
  polls_of n w = polls_of_loop n none (register_waker w)

-- Each was to be polled, and is polled once.
pub record Once {Fut D : Type 0} (w : World Fut D) (ys ps : List Ptr) : Type 0 where
  pub distinct : IsDistinct ps
  pub fresh : (s : Ptr) → has s ps ≡ true → (has s ys ≡ true) × (is_seen w s ≡ false)

module _ {Fut D : Type 0} (w : World Fut D) (ys : List Ptr) where
  pub Once-nil : Once w ys []
  Once-nil = record { distinct = tt; fresh = λ s i. cc }

  pub Once-one : (t : Ptr) → Once w ys (due w ys (t ∷ []) ++ [])
  Once-one t = record {
    distinct = ground (arith, Bool-cases (has t ys && not (is_seen w t)));
    fresh = λ s i. ground (arith, i, Bool-cases (has t ys && not (is_seen w t)));
  }

  -- A round polls `t`, if that is to be polled, and the rest follows.
  pub Once-cons :
      (t : Ptr) (xs ps : List Ptr) (w' : World Fut D) (k : Taken w t xs ys w')
      → Once w' k.tasks ps
      → Once w ys (due w ys (t ∷ []) ++ ps)
  Once-cons t xs ps w' k o = elim (Bool-cases (has t ys && not (is_seen w t))) [
    | inl e ↦ rw e (record {
      distinct = (ground (arith, o.fresh t, k.taken_seen), o.distinct);
      fresh = λ s i. ground (arith, i, e, o.fresh s, k.no_new s, k.still_seen s);
    })
    | inr e ↦ rw e (record {
      distinct = o.distinct;
      fresh = λ s i. ground (arith, i, o.fresh s, k.no_new s, k.still_seen s);
    })
  ]

  pub due-others :
      (t : Ptr) (xs : List Ptr) (w' : World Fut D) (k : Taken w t xs ys w') (todo : List Ptr)
      → has t todo ≡ false
      → due w' k.tasks todo ≡ due w ys todo
  due-others t xs w' k [] n = refl
  due-others t xs w' k (s ∷ todo) n = ground (arith, n, k.others s, due-others t xs w' k todo)

module _ {Fut D : Type 0} where
  -- Nothing but a call of `Future::poll` is recorded.
  recorded-Stable : (ps : List Ptr) → Stable {Fut = Fut} {D = D} true (λ w. w.polled ≡ ps)
  unfolding raw_queue wake_by_ref
  recorded-Stable ps = record {
    pool = λ w p o. o;
    woken = λ w p r o. o;
    yielded = λ w o. o;
    written = λ w d o. o;
    queued = λ w f o. o;
    unqueued = λ m w id o. ap (λ v. v.polled) (handle_unqueue_task_lem id w).1 ∙ o;
  }

  on_record-Keeps :
      (i : Option Ptr) (w : World Fut D) (t : Ptr) (xs ys ps : List Ptr) (r : Run Fut D Turn)
      → Keeps (λ w'. w'.polled ≡ ps) r
      → TakesOne i w t xs ys r
      → on_record r ≡ ps
  on_record-Keeps i w t xs ys ps (ok r w') (keeps_ok e) h = e
  on_record-Keeps i w t xs ys ps (panic w') (keeps_panic e) h = e
  on_record-Keeps i w t xs ys ps fault k h = absurd h
  on_record-Keeps i w t xs ys ps out_of_fuel k h = absurd h

module _ {Fut D : Type 0} (poll : Fut → Script Fut D) (i : Option Ptr) (w : World Fut D)
    (ys : List Ptr) where
  pub polled_now-nil : IsValid w [] ys → polled_now poll i w ≡ []
  unfolding polled_now turn after_dequeue
  polled_now-nil v = let (q, e, h) = dequeue_task_lem w.pool [] ys ys v in rw (e, turn) refl

  discard-Records :
      (t : Ptr) (xs : List Ptr)
      → IsValid w (t ∷ xs) ys
      → has t ys ≡ false
      → Keeps (λ w'. w'.polled ≡ w.polled) (turn poll i w)
  unfolding turn after_dequeue
  discard-Records t xs v o =
      let (q, e, h) = dequeue_task_lem w.pool (t ∷ xs) ys ys v in
      let gone : w.pool.future t ≡ none = ground (arith, v.futures t) in
      rw (e, turn, gone, after_dequeue)
        (if-Keeps _ keeps_fault (if-Keeps _ (keeps_ok refl) keeps_fault))

  -- A round that takes `t` records its poll, if it is due.
  turn-Records :
      (t : Ptr) (xs : List Ptr)
      → IsValid w (t ∷ xs) ys
      → w.polled ≡ []
      → Keeps (λ w'. w'.polled ≡ due w ys (t ∷ [])) (turn poll i w)
  turn-Records t xs v none_yet = elim (Bool-cases (has t ys)) [
    | inr o ↦ rw (o, sym none_yet) (discard-Records t xs v o)
    | inl live ↦ elim (Bool-cases (is_seen w t)) [
      | inl seen ↦
          let (q, a, f, ef, va, e) = run_task_lem poll i w t xs ys v live in
          rw (e, seen, live) (requeue-Keeps (recorded-Stable []) i t _ none_yet)
      | inr unseen ↦
          let (q, a, f, ef, v1, e) = turn-poll poll i w t xs ys v live unseen in
          rw (e, unseen, live)
            (and_then-Keeps
              (guarded-Keeps (recorded-Stable (t ∷ [])) t _ (
                exec-Keeps (recorded-Stable (t ∷ [])) t (script poll f.body) _
                  (Obeys-any (script poll f.body)) (ap (λ ps. ps ++ t ∷ []) none_yet)))
              (λ r w'. after_poll-Keeps (recorded-Stable (t ∷ [])) i t f.id r w'))
    ]
  ]

module _ {Fut D : Type 0} (poll : Fut → Script Fut D) (i : Option Ptr) (w : World Fut D)
    (ys : List Ptr) where
  pub polled_now-cons :
      (t : Ptr) (xs : List Ptr) → IsValid w (t ∷ xs) ys → polled_now poll i w ≡ due w ys (t ∷ [])
  unfolding polled_now
  polled_now-cons t xs v =
      on_record-Keeps i (record w { polled = [] }) t xs ys _ _
        (turn-Records poll i (record w { polled = [] }) ys t xs v refl)
        (turn-TakesOne poll i (record w { polled = [] }) t xs ys v)
