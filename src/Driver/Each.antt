-- ===== src/Driver/Each.antt =====
-- How often `poll_pool` of src/lib.rs polls a task.
use mathlib.Core.List.{append_assoc, append-nil}
use cosync.Base.{
  ℕ, zero, suc, ◌≤◌, ◌≡◌, ◌⊎◌, inl, inr, sym, ap, subst, ◌∙◌, Bool, true, false, List, [], ◌++◌,
  arith, Ptr, has, has-append, IsDistinct, append-IsDistinct, Bool-cases, if◌then◌else◌,
}
use cosync.FuturesUnordered.{increment_counter}
use cosync.Executor.{
  World, Script, Run, ok, panic, fault, out_of_fuel, Poll, and_then, with_pool, poll_next,
}
use cosync.Executor.Turns.{IsValid}
use cosync.Executor.Rounds.{is_seen}
use cosync.Executor.Once.{Once, due, polls_of}
use cosync.Executor.Order.{Ordered, poll_next-Ordered}
use cosync.Executor.Cycle.{Progress, Progresses}
use cosync.Executor.Covers.{poll_next-Covers}
use cosync.Driver.{drain, pool_loop, no_incoming}
use cosync.Driver.Pushed.{addresses, addresses-bound, Pushed, push_all-Pushed}

module _ {Fut D : Type 0} where
  -- The polls of `next` after the tasks of the incoming queue were put into the pool.
  abbrev pub after_drain : (World Fut D → List Ptr) → Run Fut D (Unit {0}) → List Ptr
  after_drain next (ok u w) = next w
  after_drain next (panic w) = []
  after_drain next fault = []
  after_drain next out_of_fuel = []

  -- The polls of the loop after one `poll_next`.
  abbrev after_next : (World Fut D → List Ptr) → Run Fut D Poll → List Ptr
  after_next next (ok r w) = if no_incoming w.incoming then [] else after_drain next (drain w)
  after_next next (panic w) = []
  after_next next fault = []
  after_next next out_of_fuel = []

module _ {Fut D : Type 0} (poll : Fut → Script Fut D) (n : ℕ) where
  unfoldable pub polls_of_pool_loop : ℕ → World Fut D → List Ptr
  polls_of_pool_loop zero w = []
  polls_of_pool_loop (suc k) w =
      polls_of poll n w ++ after_next (polls_of_pool_loop k) (poll_next poll n w)

  -- The tasks that `poll_pool` polls.
  unfoldable pub polls_of_pool : ℕ → World Fut D → List Ptr
  polls_of_pool k w =
      after_drain (λ w1. polls_of_pool_loop k (with_pool w1 (increment_counter w1.pool))) (drain w)

-- Each is polled once: a task that was to be polled, or one that came later.
pub record OnceMore {Fut D : Type 0} (w : World Fut D) (ys ps : List Ptr) : Type 0 where
  pub distinct : IsDistinct ps
  pub fresh :
      (s : Ptr) → has s ps ≡ true → ((has s ys ≡ true) × (is_seen w s ≡ false)) ⊎ (w.pool.fresh ≤ s)

module _ {Fut D : Type 0} (w : World Fut D) (xs ys : List Ptr) (v : IsValid w xs ys) where
  Once-OnceMore : (ps : List Ptr) → Once w ys ps → OnceMore w ys ps
  Once-OnceMore ps o = record { distinct = o.distinct; fresh = λ s i. inl (o.fresh s i) }

  Once-alone : (ps : List Ptr) → Once w ys ps → OnceMore w ys (ps ++ [])
  Once-alone ps o = subst (λ qs. OnceMore w ys qs) (sym (append-nil ps)) (Once-OnceMore ps o)

  -- The polls of a `poll_next` that returned, and those after the drain that follows it.
  OnceMore-then :
      (ps qs : List Ptr) (w1 w2 : World Fut D)
      → Once w ys ps
      → (p : Progress w ps ys w1)
      → (k : Pushed (record w1 { incoming = [] }) p.queue p.tasks w1.incoming w2)
      → OnceMore w2 k.tasks qs
      → OnceMore w ys (ps ++ qs)
  OnceMore-then ps qs w1 w2 o p k m = record {
    distinct = append-IsDistinct ps qs o.distinct m.distinct apart;
    fresh = λ s i. elim (Bool-cases (has s ps)) [
      | inl h ↦ inl (o.fresh s h)
      | inr h ↦ later s (ground (arith, i, h, has-append s ps qs))
    ];
  }
    where
      -- What the later polls know about the first state.
      split :
          (s : Ptr)
          → has s qs ≡ true
          → ((has s p.tasks ≡ true) × (is_seen w1 s ≡ false)) ⊎ (w1.pool.fresh ≤ s)
      split s i = elim (m.fresh s i) [
        | inr above ↦ inr (omega (arith, k.fresh))
        | inl (there, unseen) ↦ elim (k.new_queued s there) [
          | inl new ↦ inr (addresses-bound w1.pool.fresh s w1.incoming new)
          | inr old ↦
              let (last, fut) = k.same s ((p.valid.live_used s old).1) in
              inl (old, ground (arith, unseen, last, k.poll_counter))
        ]
      ]

      apart : (s : Ptr) → has s ps ≡ true → has s qs ≡ false
      apart s i = elim (Bool-cases (has s qs)) [
        | inr h ↦ h
        | inl h ↦ elim (split s h) [
          | inl (old, unseen) ↦ ground (arith, p.todo_seen s i old, unseen)
          | inr above ↦ absurd (omega (arith, p.fresh, (v.live_used s ((o.fresh s i).0)).1))
        ]
      ]

      later :
          (s : Ptr)
          → has s qs ≡ true
          → ((has s ys ≡ true) × (is_seen w s ≡ false)) ⊎ (w.pool.fresh ≤ s)
      later s h = elim (split s h) [
        | inr above ↦ inr (omega (arith, p.fresh))
        | inl (old, unseen) ↦ inl (p.no_new s old, ground (arith, unseen, p.still_seen s))
      ]

module _ {Fut D : Type 0} where
  Ordered-longer :
      (ds es later ps qs : List Ptr) (r : Run Fut D Poll)
      → ps ≡ ds ++ later
      → Ordered es qs r
      → Ordered ds (ps ++ qs) r
  Ordered-longer ds es later ps qs (ok r w) e o =
      (later ++ qs, ap (λ zs. zs ++ qs) e ∙ append_assoc ds later qs)
  Ordered-longer ds es later ps qs (panic w) e o = tt
  Ordered-longer ds es later ps qs fault e o = o
  Ordered-longer ds es later ps qs out_of_fuel e o = tt

module _ {Fut D : Type 0} where
  pub drain-Pushed :
      (w : World Fut D) (xs ys : List Ptr)
      → IsValid w xs ys
      → (w' : World Fut D) × (drain w ≡ ok tt w')
        × Pushed (record w { incoming = [] }) xs ys w.incoming w'
  unfolding drain
  drain-Pushed w xs ys v = push_all-Pushed w.incoming (record w { incoming = [] }) xs ys v

  -- What is claimed of the polls of a loop.
  abbrev pub Each : World Fut D → (xs ys ps : List Ptr) → Run Fut D Poll → Type 0
  Each w xs ys ps r = OnceMore w ys ps × Ordered (due w ys xs) ps r

  -- The loop after a `poll_next` that returned.
  next-Each :
      (next : World Fut D → Run Fut D Poll) (polls : World Fut D → List Ptr)
      → ((w : World Fut D) (xs ys : List Ptr) → IsValid w xs ys → Each w xs ys (polls w) (next w))
      → (w : World Fut D) (xs ys ps later : List Ptr) → IsValid w xs ys
      → Once w ys ps
      → ps ≡ due w ys xs ++ later
      → (r : Poll) (w1 : World Fut D) → Progress w ps ys w1
      → (b : Bool)
      → Each w xs ys
          (ps ++ (if b then [] else after_drain polls (drain w1)))
          (elim b [ true ↦ ok r w1 | false ↦ and_then (drain w1) λ _ w2. next w2 ])
  next-Each next polls rec w xs ys ps later v o e r w1 p true =
      (Once-alone w xs ys v ps o, (later, append-nil ps ∙ e))
  next-Each next polls rec w xs ys ps later v o e r w1 p false =
      let (w2, d, t) = drain-Pushed w1 p.queue p.tasks p.valid in
      let (o2, m2) = rec w2 (p.queue ++ addresses w1.pool.fresh w1.incoming) t.tasks t.valid in
      subst (λ q. Each w xs ys (ps ++ after_drain polls q) (and_then q λ _ w2. next w2)) (sym d)
        (
          OnceMore-then w xs ys v ps (polls w2) w1 w2 o p t o2,
          Ordered-longer (due w ys xs) _ later ps (polls w2) (next w2) e m2,
        )

  then-Each :
      (next : World Fut D → Run Fut D Poll) (polls : World Fut D → List Ptr)
      → ((w : World Fut D) (xs ys : List Ptr) → IsValid w xs ys → Each w xs ys (polls w) (next w))
      → (w : World Fut D) (xs ys ps : List Ptr) → IsValid w xs ys
      → Once w ys ps
      → (r : Run Fut D Poll) → Ordered (due w ys xs) ps r
      → Progresses w ps ys r
      → Each w xs ys (ps ++ after_next polls r) (
          and_then r λ output w1. elim (no_incoming w1.incoming) [
            | true ↦ ok output w1
            | false ↦ and_then (drain w1) λ _ w2. next w2
          ])
  then-Each next polls rec w xs ys ps v o (ok r w1) (later, e) p =
      next-Each next polls rec w xs ys ps later v o e r w1 p (no_incoming w1.incoming)
  then-Each next polls rec w xs ys ps v o (panic w1) m p = (Once-alone w xs ys v ps o, tt)
  then-Each next polls rec w xs ys ps v o fault m p = absurd m
  then-Each next polls rec w xs ys ps v o out_of_fuel m p = (Once-alone w xs ys v ps o, tt)

module _ {Fut D : Type 0} (poll : Fut → Script Fut D) (n : ℕ) where
  pub pool_loop-Each :
      (k : ℕ) (w : World Fut D) (xs ys : List Ptr)
      → IsValid w xs ys
      → Each w xs ys (polls_of_pool_loop poll n k w) (pool_loop poll n k w)
  unfolding pool_loop polls_of_pool_loop
  pool_loop-Each zero w xs ys v = (record { distinct = tt; fresh = λ s i. cc }, tt)
  pool_loop-Each (suc k) w xs ys v =
      let (o, m) = poll_next-Ordered poll n w xs ys v in
      then-Each (pool_loop poll n k) (polls_of_pool_loop poll n k) (pool_loop-Each k) w xs ys
        (polls_of poll n w) v o (poll_next poll n w) m (poll_next-Covers poll n w xs ys v)
