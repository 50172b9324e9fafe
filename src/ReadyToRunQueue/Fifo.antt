-- ===== src/ReadyToRunQueue/Fifo.antt =====
-- `enqueue` and `dequeue` against the list of tasks in the order of their `head.swap`.
use cosync.Base.{
  ◌≡◌, ◌≢◌, refl, Bool, true, false, some, List, [], ◌∷◌, ◌++◌, inl, inr, arith, Ptr, null, stub,
  update, has, has-append, ◌==◌, if◌then◌else◌, Bool-cases, ◌∙◌, sym, Option,
}
use cosync.ReadyToRunQueue.{
  ReadyToRunQueue, Dequeue, task, empty, inconsistent, swap_head, link_prev, enqueue, dequeue,
  dequeue_from, dequeue_last,
}
use cosync.ReadyToRunQueue.Chain.{
  first, IsQueue, Adjacent, Chain-head_mem, Chain-first_ne, Chain-swap, Chain-link,
}

abbrev pub gap_behind : (Ptr → Bool) → Ptr → Ptr → Ptr → Bool
gap_behind gap h t = update (update gap t false) h true

pub first-append : (c : List Ptr) (t : Ptr) → first c ≢ null → first (c ++ t ∷ []) ≡ first c
first-append [] t h = absurd (h refl)
first-append (x ∷ c) t h = refl

-- The first half of `enqueue` puts the task at the end and leaves a gap behind the old head.
pub swap_head_lem :
    {q : ReadyToRunQueue} {gap : Ptr → Bool} {c : List Ptr} (t : Ptr)
    → IsQueue q gap c
    → t ≢ null
    → has t c ≡ false
    → (q' : ReadyToRunQueue) × (swap_head q t ≡ some (q.head, q'))
      × IsQueue q' (gap_behind gap q.head t) (c ++ t ∷ [])
      × (q'.head ≡ t)
unfolding swap_head
swap_head_lem {q} {gap} {c} t v ne new = (
  record q { next_ready_to_run = update q.next_ready_to_run t null; head = t },
  ground arith,
  record {
    chain = Chain-swap _ _ _ c t v.chain ne new;
    starts = v.starts ∙ sym (first-append c t (Chain-first_ne _ _ _ c v.chain));
    gaps = λ p g. ground (arith, v.gaps p, has-append p c (t ∷ []), Chain-head_mem _ _ _ c v.chain);
  },
  refl,
)

-- The second half closes the gap.
pub link_prev_lem :
    {q : ReadyToRunQueue} {gap : Ptr → Bool} {c : List Ptr} (p t : Ptr)
    → IsQueue q gap c
    → Adjacent p t c
    → p ≢ null
    → (q' : ReadyToRunQueue) × (link_prev q p t ≡ some q') × IsQueue q' (update gap p false) c
unfolding link_prev
link_prev_lem {q} {gap} {c} p t v adj ne = (
  record q { next_ready_to_run = update q.next_ready_to_run p t },
  ground arith,
  record {
    chain = Chain-link _ _ _ c p t v.chain adj;
    starts = v.starts;
    gaps = λ r g. ground (arith, v.gaps r);
  },
)

-- The result of `dequeue`, and the list that is left.
abbrev pub pop_front : (Ptr → Bool) → List Ptr → Dequeue × List Ptr
pop_front gap [] = (inconsistent, [])
pop_front gap (x ∷ []) = (task x, stub ∷ [])
pop_front gap (x ∷ y ∷ ys) = if gap x then (inconsistent, x ∷ y ∷ ys) else (task x, y ∷ ys)

abbrev pub take_next : (Ptr → Bool) → List Ptr → Dequeue × List Ptr
take_next gap [] = (empty, [])
take_next gap (x ∷ []) = if x == stub then (empty, x ∷ []) else (task x, stub ∷ [])
take_next gap (x ∷ y ∷ ys) =
    if x == stub
    then (if gap x then (empty, x ∷ y ∷ ys) else pop_front gap (y ∷ ys))
    else pop_front gap (x ∷ y ∷ ys)

abbrev pub Dequeues :
    (Ptr → Bool) → Option (Dequeue × ReadyToRunQueue) → Dequeue × List Ptr → Type 0
Dequeues gap r (d, c) = (q' : ReadyToRunQueue) × (r ≡ some (d, q')) × IsQueue q' gap c

dequeue_last_lem :
    (q : ReadyToRunQueue) (gap : Ptr → Bool) (x : Ptr)
    → IsQueue q gap (x ∷ [])
    → x ≢ stub
    → Dequeues gap (dequeue_last q x) (task x, stub ∷ [])
unfolding dequeue_last enqueue
dequeue_last_lem q gap x v ne = (
  record {
    next_ready_to_run = update (update q.next_ready_to_run stub null) q.head stub;
    head = stub;
    tail = stub;
  },
  ground (arith, v.chain),
  record {
    chain = ground (arith, v.chain, v.gaps stub);
    starts = refl;
    gaps = λ p g. ground (arith, v.gaps p, v.chain);
  },
)

-- A gap behind the first task: the queue is left as it is.
dequeue_last_gap :
    (q : ReadyToRunQueue) (x : Ptr) → q.head ≢ x → dequeue_last q x ≡ some (inconsistent, q)
unfolding dequeue_last
dequeue_last_gap q x ne = ground arith

dequeue_from_lem :
    (q : ReadyToRunQueue) (gap : Ptr → Bool) (c : List Ptr)
    → IsQueue q gap c
    → first c ≢ stub
    → Dequeues gap (dequeue_from q (first c) (q.next_ready_to_run (first c))) (pop_front gap c)
unfolding dequeue_from
dequeue_from_lem q gap [] v ne = absurd v.chain
dequeue_from_lem q gap (x ∷ []) v ne =
    let (q', e, v') = dequeue_last_lem q gap x v ne in (q', ground (arith, e, v.chain), v')
dequeue_from_lem q gap (x ∷ y ∷ ys) v ne = elim (Bool-cases (gap x)) [
  | inl g ↦
      let other : q.head ≢ x =
        ground (arith, v.chain, Chain-head_mem q.next_ready_to_run gap q.head (y ∷ ys) v.chain.3) in
      let kept = dequeue_last_gap q x other in rw g (q, ground (arith, kept, v.chain), v)
  | inr g ↦ rw g (
    record q { tail = y },
    ground (arith, v.chain, Chain-first_ne q.next_ready_to_run gap q.head (y ∷ ys) v.chain.3),
    record { chain = v.chain.3; starts = refl; gaps = λ p h. ground (arith, v.gaps p h) },
  )
]

-- At every state of producers that stand between the two writes of `enqueue`, `dequeue` takes the
-- next task off the list of tasks in the order of their `head.swap`: it passes the stub, gives
-- `Empty` when nothing can be seen behind the stub, `Inconsistent` when the task in front has a gap
-- behind it, and puts the stub back before it takes the last task.
pub dequeue-take_next :
    (q : ReadyToRunQueue) (gap : Ptr → Bool) (c : List Ptr)
    → IsQueue q gap c
    → Dequeues gap (dequeue q) (take_next gap c)
unfolding dequeue
dequeue-take_next q gap [] v = absurd v.chain
dequeue-take_next q gap (x ∷ []) v = elim (Bool-cases (x == stub)) [
  | inl e ↦ rw e (q, ground (arith, v.starts, v.chain), v)
  | inr e ↦
      let (q', r, v') = dequeue_from_lem q gap (x ∷ []) v (ground arith) in
      rw e (q', ground (arith, v.starts, v.chain, r), v')
]
dequeue-take_next q gap (x ∷ y ∷ ys) v = elim (Bool-cases (x == stub)) [
  | inl e ↦ elim (Bool-cases (gap x)) [
    | inl g ↦ rw (e, g) (q, ground (arith, v.starts, v.chain), v)
    | inr g ↦
        let (q', r, v') =
          dequeue_from_lem (record q { tail = y }) gap (y ∷ ys) (rest g)
            (ground (arith, v.chain)) in
        rw (e, g)
          (
            q',
            ground (
              arith,
              v.starts,
              v.chain,
              r,
              Chain-first_ne q.next_ready_to_run gap q.head (y ∷ ys) v.chain.3,
            ),
            v',
          )
  ]
  | inr e ↦
      let (q', r, v') = dequeue_from_lem q gap (x ∷ y ∷ ys) v (ground arith) in
      rw e (q', ground (arith, v.starts, v.chain, r), v')
]
  where
    rest : gap x ≡ false → IsQueue (record q { tail = y }) gap (y ∷ ys)
    rest g = record { chain = v.chain.3; starts = refl; gaps = λ p h. ground (arith, v.gaps p h) }
