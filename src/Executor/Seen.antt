-- ===== src/Executor/Seen.antt =====
-- The loop of `poll_next` once `initial_task_id` stands in the queue.
use mathlib.Core.List.{append_assoc}
use cosync.Base.{
  ℕ, ◌≡◌, ◌≢◌, refl, ap, subst, true, false, Option, none, some, List, [], ◌∷◌, ◌++◌, arith, Ptr,
  has, has-append, has-erase, erase, IsDistinct, Bool-cases, inl, inr, ◌==◌, leb,
}
use cosync.ReadyToRunQueue.Contents.{Holds-IsDistinct}
use cosync.Executor.{
  World, Script, Run, ok, panic, fault, out_of_fuel, poll_pending, exec, turn, poll_loop, script,
}
use cosync.Executor.Turns.{IsValid, turn-discard, turn-requeue}
use cosync.Executor.Polled.{AfterPoll, turn-AfterPoll}
use cosync.Executor.Halts.{Halts, loop_again, done-Halts, panic-Halts}

module _ {Fut D : Type 0} (poll : Fut → Script Fut D) where
  -- The recursion that a round hands on, once `initial_task_id` is a task in the queue that was
  -- polled in this cycle.
  abbrev Seen : List Ptr → Ptr → Type 0
  Seen pre i =
      (bs : List Ptr) (w : World Fut D) (ys : List Ptr)
      → IsValid w (pre ++ i ∷ bs) ys
      → has i ys ≡ true
      → leb w.pool.poll_counter (w.pool.last_polled i) ≡ true
      → Halts (λ n. poll_loop poll n (some i) w)

  module _ (pre bs : List Ptr) (i t : Ptr) (w : World Fut D) (ys : List Ptr) (rec : Seen pre i)
      (v : IsValid w (t ∷ pre ++ i ∷ bs) ys) (m : has i ys ≡ true)
      (b : leb w.pool.poll_counter (w.pool.last_polled i) ≡ true) where
    distinct : IsDistinct (t ∷ pre ++ i ∷ bs)
    distinct = Holds-IsDistinct w.pool.ready_to_run_queue (t ∷ pre ++ i ∷ bs) v.waiting

    other : i ≢ t
    other = ground (arith, distinct.0, has-append t pre (i ∷ bs))

    stays : has i (erase t ys) ≡ true
    stays = ground (arith, other, has-erase t i ys)

    seen_polled :
        (id : ℕ) (r : Run Fut D (Option Fut))
        → AfterPoll (some i) w t id (pre ++ i ∷ bs) ys r (turn poll (some i) w)
        → Halts (λ n. poll_loop poll n (some i) w)
    seen_polled id (ok none w1) (w', e, g) = loop_again poll (some i) (some i) w w' e (
        rec (bs ++ g.more) w' (erase t ys)
          (subst (λ zs. IsValid w' zs (erase t ys)) (append_assoc pre (i ∷ bs) g.more) g.valid)
          stays (rw (g.last_polled, g.poll_counter) (ground (arith, other, b))))
    seen_polled id (ok (some f) w1) (w', e, g, q) = loop_again poll (some i) (some i) w w' e (
        rec (bs ++ g.more) w' (t ∷ erase t ys)
          (subst (λ zs. IsValid w' zs (t ∷ erase t ys)) (append_assoc pre (i ∷ bs) g.more) g.valid)
          (ground (arith, stays)) (rw (g.last_polled, g.poll_counter) (ground (arith, other, b))))
    seen_polled id (panic w1) (w', e, g) = panic-Halts poll (some i) w w' _ _ e g.valid
    seen_polled id fault a = absurd a
    seen_polled id out_of_fuel a = absurd a

    seen_step : Halts (λ n. poll_loop poll n (some i) w)
    seen_step = elim (Bool-cases (has t ys)) [
      | inr gone ↦
          let (w', e, v', el, ec, en) = turn-discard poll (some i) w t (pre ++ i ∷ bs) ys v gone in
          loop_again poll (some i) (some i) w w' e (rec bs w' ys v' m (rw (el, ec) b))
      | inl live ↦ elim (Bool-cases (leb w.pool.poll_counter (w.pool.last_polled t))) [
        | inl seen ↦
            let (w', e, v', el, ec, en) =
              turn-requeue poll (some i) w t (pre ++ i ∷ bs) ys v live seen in
            let apart : (i == t) ≡ false = ground (arith, other) in
            loop_again poll (some i) (some i) w w' (rw apart at e) (
              rec (bs ++ t ∷ []) w' (t ∷ erase t ys)
                (subst (λ zs. IsValid w' zs (t ∷ erase t ys)) (append_assoc pre (i ∷ bs) (t ∷ []))
                  v')
                (ground (arith, stays)) (rw (el, ec) b))
        | inr unseen ↦
            let (w1, f, ef, eb, eu, v1, a) =
              turn-AfterPoll poll (some i) w t (pre ++ i ∷ bs) ys v live unseen in
            seen_polled f.id (exec t (script poll f.body) w1) a
      ]
    ]

  -- Every round brings that task nearer to the front.
  pub loop-Seen : (pre : List Ptr) (i : Ptr) → Seen pre i
  loop-Seen [] i bs w ys v m b =
      let (w', e, v', el, ec, en) = turn-requeue poll (some i) w i bs ys v m b in
      let same : (i == i) ≡ true = ground arith in
      done-Halts poll (some i) w w' _ _ poll_pending (rw same at e) v' refl
  loop-Seen (t ∷ pre) i bs w ys v m b = seen_step pre bs i t w ys (loop-Seen pre i) v m b

  pub has-split :
      (t : Ptr) (xs : List Ptr)
      → has t xs ≡ true
      → (pre : List Ptr) × (bs : List Ptr) × (xs ≡ pre ++ t ∷ bs)
  has-split t [] m = cc
  has-split t (x ∷ xs) m = elim (Bool-cases (t == x)) [
    | inl e ↦ ([], xs, ground arith)
    | inr e ↦ let (pre, bs, q) = has-split t xs (ground arith) in (x ∷ pre, bs, ap (λ zs. x ∷ zs) q)
  ]
