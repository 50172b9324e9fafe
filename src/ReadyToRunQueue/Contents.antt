-- ===== src/ReadyToRunQueue/Contents.antt =====
-- The list of tasks that the queue stands for with no producer between its two writes.
use cosync.Base.{
  ◌≡◌, ◌≢◌, refl, false, some, List, [], ◌∷◌, ◌++◌, arith, Ptr, null, stub, update, has, IsDistinct,
  Bool-cases, inl, inr, ◌==◌, subst,
}
use cosync.ReadyToRunQueue.{ReadyToRunQueue, Dequeue, task, empty, enqueue, dequeue}
use cosync.ReadyToRunQueue.Chain.{
  IsQueue, no_gap, without_stub, without_stub-append, Chain-head_ne, Chain-frame, Chain-Adjacent,
  Chain-IsDistinct,
}
use cosync.ReadyToRunQueue.Fifo.{swap_head_lem, link_prev_lem, take_next, dequeue-take_next}

abbrev pub Holds : ReadyToRunQueue → List Ptr → Type 0
Holds q xs = (c : List Ptr) × IsQueue q no_gap c × (without_stub c ≡ xs)

pub has-without_stub : (t : Ptr) (c : List Ptr) → t ≢ stub → has t (without_stub c) ≡ has t c
has-without_stub t [] ne = refl
has-without_stub t (x ∷ c) ne = ground (arith, has-without_stub t c ne)

-- `enqueue` of a task that is neither null nor the stub and not in the queue puts it at the end of
-- the list that the queue stands for.
pub enqueue-Holds :
    {q : ReadyToRunQueue} {xs : List Ptr} (t : Ptr)
    → Holds q xs
    → t ≢ null
    → t ≢ stub
    → has t xs ≡ false
    → (q' : ReadyToRunQueue) × (enqueue q t ≡ some q') × Holds q' (xs ++ t ∷ [])
unfolding enqueue
enqueue-Holds {q} {xs} t (c, v, e) ne ns new =
    let (q1, e1, v1, h1) = swap_head_lem t v ne (ground (arith, has-without_stub t c ns)) in
    let (q2, e2, v2) =
      link_prev_lem q.head t v1 (Chain-Adjacent _ _ _ c t v.chain)
        (Chain-head_ne _ _ _ c v.chain) in
    (
      q2,
      ground (arith, e1, e2),
      (
        c ++ t ∷ [],
        record {
          chain =
              Chain-frame _ _ _ q2.next_ready_to_run no_gap (c ++ t ∷ []) v2.chain
                (λ p i. ground arith);
          starts = v2.starts;
          gaps = λ p g. cc;
        },
        rw (without_stub-append c) (ground arith),
      ),
    )

abbrev pub front : List Ptr → Dequeue
front [] = empty
front (x ∷ xs) = task x

abbrev pub rest : List Ptr → List Ptr
rest [] = []
rest (x ∷ xs) = xs

take_next-front :
    (c : List Ptr)
    → IsDistinct c
    → ((take_next no_gap c).0 ≡ front (without_stub c))
      × (without_stub (take_next no_gap c).1 ≡ rest (without_stub c))
take_next-front [] d = (refl, refl)
take_next-front (x ∷ []) d = ground arith
take_next-front (x ∷ y ∷ []) d = ground arith
take_next-front (x ∷ y ∷ z ∷ zs) d = ground arith

-- With no producer between its two writes, `dequeue` gives the oldest task of the list that the
-- queue stands for and leaves the rest, and gives `Empty` if and only if the list is empty.
pub dequeue-Holds :
    {q : ReadyToRunQueue} {xs : List Ptr}
    → Holds q xs
    → (q' : ReadyToRunQueue) × (dequeue q ≡ some (front xs, q')) × Holds q' (rest xs)
dequeue-Holds {q} (c, v, e) =
    let (q', r, v') = dequeue-take_next q no_gap c v in
    let (d, l) = take_next-front c (Chain-IsDistinct _ _ _ c v.chain) in
    (q', rw (← e, ← d) r, ((take_next no_gap c).1, v', rw (← e) l))

without_stub-IsDistinct : (c : List Ptr) → IsDistinct c → IsDistinct (without_stub c)
without_stub-IsDistinct [] d = tt
without_stub-IsDistinct (x ∷ c) d = elim (Bool-cases (x == stub)) [
  | inl e ↦ rw e (without_stub-IsDistinct c d.1)
  | inr e ↦ rw e (ground (arith, has-without_stub x c), without_stub-IsDistinct c d.1)
]

-- No task stands in the queue twice.
pub Holds-IsDistinct : (q : ReadyToRunQueue) (xs : List Ptr) → Holds q xs → IsDistinct xs
Holds-IsDistinct q xs (c, v, e) =
    subst IsDistinct e (without_stub-IsDistinct c (Chain-IsDistinct _ _ _ c v.chain))

-- A write to a task that is not in the queue.
pub Holds-frame :
    (q : ReadyToRunQueue) (xs : List Ptr) (t a : Ptr)
    → Holds q xs
    → t ≢ stub
    → has t xs ≡ false
    → Holds (record q { next_ready_to_run = update q.next_ready_to_run t a }) xs
Holds-frame q xs t a (c, v, e) ns new = (
  c,
  record {
    chain =
        Chain-frame _ _ _ (update q.next_ready_to_run t a) no_gap c v.chain
          (λ p i. ground (arith, has-without_stub t c ns));
    starts = v.starts;
    gaps = λ p g. cc;
  },
  e,
)
