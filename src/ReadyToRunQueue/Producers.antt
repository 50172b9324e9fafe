-- ===== src/ReadyToRunQueue/Producers.antt =====
-- Any number of producers of src/futures/ready_to_run_queue.rs: what they have yet to write.
use cosync.Base.{
  ◌≡◌, ◌≢◌, inl, inr, refl, Bool, true, false, some, List, [], ◌∷◌, ◌++◌, arith, Ptr, null, stub,
  update, has, ◌==◌, Bool-cases,
}
use cosync.ReadyToRunQueue.{ReadyToRunQueue, Dequeue, task, swap_head, link_prev}
use cosync.ReadyToRunQueue.Chain.{
  IsQueue, Adjacent, without_stub, without_stub-append, Chain-Adjacent, Chain-head_gap,
}
use cosync.ReadyToRunQueue.Fifo.{gap_behind, swap_head_lem, link_prev_lem}
use cosync.ReadyToRunQueue.Contents.{rest, has-without_stub}

-- The queue with what its producers have yet to do: where `gap` is set a producer has put the task
-- `owes` at the head and has yet to write it behind the old head. `waiting` are the tasks that were
-- put at the head and not taken yet, oldest first.
pub record Producers : Type 0 where
  pub queue : ReadyToRunQueue
  pub gap : Ptr → Bool
  pub owes : Ptr → Ptr
  pub waiting : List Ptr

abbrev pub taken_from : Dequeue → List Ptr → List Ptr
taken_from (task t) xs = rest xs
taken_from d xs = xs

pub record IsProducing (s : Producers) : Type 0 where
  pub order : List Ptr
  pub valid : IsQueue s.queue s.gap order
  pub owing : (p : Ptr) → s.gap p ≡ true → Adjacent p (s.owes p) order
  pub listed : without_stub order ≡ s.waiting

Adjacent-append : (c : List Ptr) (p t a : Ptr) → Adjacent p t c → Adjacent p t (c ++ a ∷ [])
Adjacent-append [] p t a k = absurd k
Adjacent-append (x ∷ []) p t a k = absurd k
Adjacent-append (x ∷ y ∷ ys) p t a (inl e) = inl e
Adjacent-append (x ∷ y ∷ ys) p t a (inr k) = inr (Adjacent-append (y ∷ ys) p t a k)

-- What the consumer takes has no gap behind it.
module _ (gap : Ptr → Bool) (p t : Ptr) (g : gap p ≡ true) where
  pub drop-Adjacent :
      (x : Ptr) (c : List Ptr) → gap x ≡ false → Adjacent p t (x ∷ c) → Adjacent p t c
  drop-Adjacent x [] e k = absurd k
  drop-Adjacent x (y ∷ ys) e (inl (h, l)) = cc
  drop-Adjacent x (y ∷ ys) e (inr k) = k

module _ (s : Producers) (v : IsProducing s) where
  pub swapped-IsProducing :
      (t prev : Ptr) (q : ReadyToRunQueue) (ws : List Ptr)
      → t ≢ null
      → has t v.order ≡ false
      → without_stub (v.order ++ t ∷ []) ≡ ws
      → swap_head s.queue t ≡ some (prev, q)
      → (v' : IsProducing (record {
        queue = q;
        gap = gap_behind s.gap prev t;
        owes = update s.owes prev t;
        waiting = ws;
      }))
        × (v'.order ≡ v.order ++ t ∷ [])
        × (s.gap prev ≡ false)
  swapped-IsProducing t prev q ws ne fresh kept e =
      let (q1, e1, v1, h1) = swap_head_lem t v.valid ne fresh in
      let same : (s.queue.head ≡ prev) × (q1 ≡ q) = (cc, cc) in
      rw (← same.0, ← same.1)
        (
          record {
            order = v.order ++ t ∷ [];
            valid = v1;
            owing = λ p g. elim (Bool-cases (p == s.queue.head)) [
              | inl h ↦
                  let here : p ≡ s.queue.head = ground arith in
                  let owed : update s.owes s.queue.head t p ≡ t = rw h refl in
                  rw (owed, here) (Chain-Adjacent _ _ _ v.order t v.valid.chain)
              | inr h ↦
                  let owed : update s.owes s.queue.head t p ≡ s.owes p = rw h refl in
                  let open_gap : s.gap p ≡ true = ground (arith, g) in
                  rw owed (Adjacent-append v.order p (s.owes p) t (v.owing p open_gap))
            ];
            listed = kept;
          },
          refl,
          Chain-head_gap _ _ _ v.order v.valid.chain,
        )

  pub swap-IsProducing :
      (t prev : Ptr) (q : ReadyToRunQueue)
      → t ≢ null
      → t ≢ stub
      → has t s.waiting ≡ false
      → swap_head s.queue t ≡ some (prev, q)
      → (v' : IsProducing (record {
        queue = q;
        gap = gap_behind s.gap prev t;
        owes = update s.owes prev t;
        waiting = s.waiting ++ t ∷ [];
      }))
        × (v'.order ≡ v.order ++ t ∷ [])
        × (s.gap prev ≡ false)
  swap-IsProducing t prev q ne ns new e =
      swapped-IsProducing t prev q (s.waiting ++ t ∷ []) ne
        (ground (arith, has-without_stub t v.order ns, v.listed, new))
        (rw (without_stub-append v.order (t ∷ []), v.listed) (ground arith)) e

  pub link_up-IsProducing :
      (prev : Ptr) (q : ReadyToRunQueue)
      → s.gap prev ≡ true
      → link_prev s.queue prev (s.owes prev) ≡ some q
      → (v' : IsProducing (record s { queue = q; gap = update s.gap prev false })) × (v'.order
          ≡ v.order)
  unfolding link_prev
  link_up-IsProducing prev q g e =
      let ne : prev ≢ null = ground (arith, e) in
      let (q1, e1, v1) = link_prev_lem prev (s.owes prev) v.valid (v.owing prev g) ne in
      let same : q1 ≡ q = cc in
      rw (← same) (
        record {
          order = v.order;
          valid = v1;
          owing = λ p h. ground (arith, v.owing p, h);
          listed = v.listed;
        },
        refl,
      )
