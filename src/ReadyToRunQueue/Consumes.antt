-- ===== src/ReadyToRunQueue/Consumes.antt =====
-- The first half of `dequeue` of src/futures/ready_to_run_queue.rs, access by access: up to the last
-- load of `next` before that of `head`.
use cosync.Base.{
  Option, ◌≡◌, ◌≢◌, ◌⊎◌, inl, inr, refl, true, false, some, List, [], ◌∷◌, arith, Ptr, null, stub,
  has, ◌==◌, Bool-cases, subst,
}
use cosync.ReadyToRunQueue.{
  ReadyToRunQueue, task, empty, inconsistent, Phase, idle, looking, last, adding, linking, again,
  Outcome, goes_on, finished, consume, looked,
}
use cosync.ReadyToRunQueue.Chain.{IsQueue, Adjacent, first, without_stub, Chain-first_ne}
use cosync.ReadyToRunQueue.Contents.{rest}
use cosync.ReadyToRunQueue.Producers.{Producers, IsProducing, drop-Adjacent}
use cosync.ReadyToRunQueue.Consumer.{Threads, owed_after, waiting_after, phase_after}

-- What holds of the list of the queue in every phase. The stub is out of the list before it is put
-- behind `tail`, and behind `tail` from then on.
abbrev pub At : Phase → List Ptr → Producers → Type 0
At idle c s = Unit
At (looking t) c s = (first c ≡ t) × (t ≢ stub)
At (last t) c s = (first c ≡ t) × (t ≢ stub)
At (adding t) c s = (first c ≡ t) × (t ≢ stub) × (has stub c ≡ false)
At (linking t prev) c s =
    (first c ≡ t) × (t ≢ stub) × (has stub c ≡ true) × (s.gap prev ≡ true) × (s.owes prev ≡ stub)
At (again t) c s = (first c ≡ t) × (t ≢ stub) × (has stub c ≡ true)

pub record IsConsuming (s : Threads) : Type 0 where
  pub producing : IsProducing s.producers
  pub at : At s.phase producing.order s.producers

-- A task that `dequeue` gives waits longest. It gives `Empty` when no task waits or the producer
-- behind the stub is half done, and `Inconsistent` when a task waits.
abbrev pub Gives : Producers → Outcome → Type 0
Gives s (goes_on ph) = Unit
Gives s (finished (task t)) = s.waiting ≡ t ∷ rest s.waiting
Gives s (finished empty) = (s.waiting ≡ []) ⊎ (s.gap stub ≡ true)
Gives s (finished inconsistent) = s.waiting ≢ []

-- The consumer goes on from a state, and the invariant holds again.
abbrev pub Ends : Producers → Producers → Option (Outcome × ReadyToRunQueue) → Type 0
Ends s s1 r =
    (o : Outcome) × (q : ReadyToRunQueue) × (r ≡ some (o, q))
    × Gives s o
    × IsConsuming (record {
      producers = record (owed_after o s1) { queue = q; waiting = waiting_after o s.waiting };
      phase = phase_after o;
    })

module _ (s : Producers) (v : IsProducing s) where
  -- The consumer moves `tail` on over an entry `x` with no gap behind it.
  pub moved :
      (x y : Ptr) (ys : List Ptr)
      → v.order ≡ x ∷ y ∷ ys
      → s.gap x ≡ false
      → (ws : List Ptr) → without_stub (y ∷ ys) ≡ ws
      → (v' : IsProducing (record s { queue = record s.queue { tail = y }; waiting = ws }))
        × (v'.order ≡ y ∷ ys)
  moved x y ys e g ws l =
      let w : IsQueue s.queue s.gap (x ∷ y ∷ ys) = subst (IsQueue s.queue s.gap) e v.valid in
      (
        record {
          order = y ∷ ys;
          valid = record {
            chain = w.chain.3;
            starts = refl;
            gaps = λ p h. ground (arith, w.gaps p, h, g);
          };
          owing = λ p h.
              drop-Adjacent s.gap p (s.owes p) h x (y ∷ ys) g
                (subst (λ c. Adjacent p (s.owes p) c) e (v.owing p h));
          listed = l;
        },
        refl,
      )

  pub order-IsQueue : (c : List Ptr) → v.order ≡ c → IsQueue s.queue s.gap c
  order-IsQueue c e = subst (IsQueue s.queue s.gap) e v.valid

  pub waits : (t : Ptr) (c : List Ptr) → v.order ≡ t ∷ c → t ≢ stub → s.waiting ≡ t ∷ without_stub c
  waits t c e ns =
      let l : without_stub (t ∷ c) ≡ s.waiting =
        subst (λ d. without_stub d ≡ s.waiting) e v.listed in
      ground (arith, l)

  -- The consumer has loaded the successor of `t`, which is no stub.
  looked-Ends :
      (t : Ptr)
      → first v.order ≡ t
      → t ≢ stub
      → Ends s s (looked t (s.queue.next_ready_to_run t) s.queue)
  looked-Ends t f ns = go v.order refl
    where
      stands :
          s.queue.next_ready_to_run t ≡ null
          → Ends s s (looked t (s.queue.next_ready_to_run t) s.queue)
      stands e = (goes_on (last t), s.queue, rw e refl, tt, record { producing = v; at = (f, ns) })

      go : (c : List Ptr) → v.order ≡ c → Ends s s (looked t (s.queue.next_ready_to_run t) s.queue)
      go [] e = absurd (order-IsQueue [] e).chain
      go (x ∷ []) e =
          let w = order-IsQueue (x ∷ []) e in
          let here : x ≡ t = ground (arith, f, e) in stands (ground (arith, w.chain, here))
      go (x ∷ y ∷ ys) e =
          let w = order-IsQueue (x ∷ y ∷ ys) e in
          let here : x ≡ t = ground (arith, f, e) in
          elim (Bool-cases (s.gap x)) [
            | inl g ↦ stands (ground (arith, w.chain, here, g))
            | inr g ↦
                let next : s.queue.next_ready_to_run t ≡ y = ground (arith, w.chain, here, g) in
                let some_y : y ≢ null =
                  Chain-first_ne s.queue.next_ready_to_run s.gap s.queue.head (y ∷ ys) w.chain.3 in
                let all = waits x (y ∷ ys) e (ground (arith, here, ns)) in
                let (v1, o) = moved x y ys e g (rest s.waiting) (ground (arith, all)) in
                (
                  finished (task t),
                  record s.queue { tail = y },
                  ground (arith, next, some_y, ns),
                  ground (arith, all, here),
                  record { producing = v1; at = tt },
                )
          ]

  pub idle-Ends : Ends s s (consume idle s.queue)
  unfolding consume
  idle-Ends = go v.order refl
    where
      past : (x : Ptr) (c : List Ptr) → v.order ≡ x ∷ c → x ≢ stub → Ends s s (consume idle s.queue)
      past x c e ns =
          let w = order-IsQueue (x ∷ c) e in
          let some_x : x ≢ null =
            Chain-first_ne s.queue.next_ready_to_run s.gap s.queue.head (x ∷ c) w.chain in
          let same : looked x (s.queue.next_ready_to_run x) s.queue ≡ consume idle s.queue =
            ground (arith, w.starts, some_x, ns) in
          subst (λ r. Ends s s r) same (looked-Ends x (ground (arith, e)) ns)

      nothing :
          s.queue.next_ready_to_run stub ≡ null
          → s.queue.tail ≡ stub
          → (s.waiting ≡ []) ⊎ (s.gap stub ≡ true)
          → Ends s s (consume idle s.queue)
      nothing n t w =
          (finished empty, s.queue, ground (arith, n, t), w, record { producing = v; at = tt })

      go : (c : List Ptr) → v.order ≡ c → Ends s s (consume idle s.queue)
      go [] e = absurd (order-IsQueue [] e).chain
      go (x ∷ []) e = elim (Bool-cases (x == stub)) [
        | inr ns ↦ past x [] e (ground (arith, ns))
        | inl st ↦
            let w = order-IsQueue (x ∷ []) e in
            let l : without_stub (x ∷ []) ≡ s.waiting =
              subst (λ d. without_stub d ≡ s.waiting) e v.listed in
            nothing (ground (arith, w.chain, st)) (ground (arith, w.starts, st))
              (inl (ground (arith, l, st)))
      ]
      go (x ∷ y ∷ ys) e = elim (Bool-cases (x == stub)) [
        | inr ns ↦ past x (y ∷ ys) e (ground (arith, ns))
        | inl st ↦
            let w = order-IsQueue (x ∷ y ∷ ys) e in
            elim (Bool-cases (s.gap x)) [
              | inl g ↦
                  nothing (ground (arith, w.chain, st, g)) (ground (arith, w.starts, st))
                    (inr (ground (arith, g, st)))
              | inr g ↦
                  let l : without_stub (x ∷ y ∷ ys) ≡ s.waiting =
                    subst (λ d. without_stub d ≡ s.waiting) e v.listed in
                  let (v1, o) = moved x y ys e g s.waiting (ground (arith, l, st)) in
                  let some_y : y ≢ null =
                    Chain-first_ne s.queue.next_ready_to_run s.gap s.queue.head (y ∷ ys)
                      w.chain.3 in
                  let next : s.queue.next_ready_to_run stub ≡ y = ground (arith, w.chain, st, g) in
                  (
                    goes_on (looking y),
                    record s.queue { tail = y },
                    ground (arith, next, some_y, w.starts, st),
                    tt,
                    record { producing = v1; at = rw o (refl, ground (arith, w.chain, st)) },
                  )
            ]
      ]

  pub looking-Ends : (t : Ptr) → At (looking t) v.order s → Ends s s (consume (looking t) s.queue)
  unfolding consume
  looking-Ends t (f, ns) =
      let some_t : t ≢ null = ground (arith, f, Chain-first_ne _ _ _ v.order v.valid.chain) in
      let same : looked t (s.queue.next_ready_to_run t) s.queue ≡ consume (looking t) s.queue =
        ground (arith, some_t) in
      subst (λ r. Ends s s r) same (looked-Ends t f ns)
