-- ===== src/ReadyToRunQueue/Chain.antt =====
-- What the pointers of the queue stand for: the tasks in the order of their `head.swap`, the stub
-- among them. A producer between its two writes leaves a gap behind the old head.
use cosync.Base.{
  ◌≡◌, ◌≢◌, refl, sym, Bool, true, false, List, [], ◌∷◌, ◌++◌, ◌⊎◌, inl, inr, arith, Ptr, null,
  stub, update, has, has-append, IsDistinct, ◌==◌, if◌then◌else◌,
}
use cosync.ReadyToRunQueue.{ReadyToRunQueue}

-- From the first pointer of the list the successors lead to `head`, but at a gap.
abbrev pub Chain : (Ptr → Ptr) → (Ptr → Bool) → List Ptr → Ptr → Type 0
Chain n gap [] h = ⊥
Chain n gap (x ∷ []) h = (x ≢ null) × (h ≡ x) × (n x ≡ null) × (gap x ≡ false)
Chain n gap (x ∷ y ∷ ys) h =
    (x ≢ null)
    × (n x ≡ (if gap x then null else y))
    × (has x (y ∷ ys) ≡ false)
    × Chain n gap (y ∷ ys) h

abbrev pub first : List Ptr → Ptr
first [] = null
first (x ∷ xs) = x

pub record IsQueue (q : ReadyToRunQueue) (gap : Ptr → Bool) (c : List Ptr) : Type 0 where
  pub chain : Chain q.next_ready_to_run gap c q.head
  pub starts : q.tail ≡ first c
  pub gaps : (p : Ptr) → gap p ≡ true → has p c ≡ true

abbrev pub no_gap : Ptr → Bool
no_gap p = false

-- `t` stands right behind `p`.
abbrev pub Adjacent : Ptr → Ptr → List Ptr → Type 0
Adjacent p t [] = ⊥
Adjacent p t (x ∷ []) = ⊥
Adjacent p t (x ∷ y ∷ ys) = ((x ≡ p) × (y ≡ t)) ⊎ Adjacent p t (y ∷ ys)

-- The tasks that wait in the queue.
abbrev pub without_stub : List Ptr → List Ptr
without_stub [] = []
without_stub (x ∷ xs) = if x == stub then without_stub xs else x ∷ without_stub xs

pub without_stub-append :
    (xs ys : List Ptr) → without_stub (xs ++ ys) ≡ without_stub xs ++ without_stub ys
without_stub-append [] ys = refl
without_stub-append (x ∷ xs) ys = ground (arith, without_stub-append xs ys)

pub has-Adjacent : (c : List Ptr) (p t : Ptr) → Adjacent p t c → has p c ≡ true
has-Adjacent [] p t a = absurd a
has-Adjacent (x ∷ []) p t a = absurd a
has-Adjacent (x ∷ y ∷ ys) p t (inl e) = ground arith
has-Adjacent (x ∷ y ∷ ys) p t (inr a) = ground (arith, has-Adjacent (y ∷ ys) p t a)

module _ (n : Ptr → Ptr) (gap : Ptr → Bool) (h : Ptr) where
  pub Chain-head_ne : (c : List Ptr) → Chain n gap c h → h ≢ null
  Chain-head_ne [] k = absurd k
  Chain-head_ne (x ∷ []) k = ground arith
  Chain-head_ne (x ∷ y ∷ ys) k = Chain-head_ne (y ∷ ys) k.3

  pub Chain-head_mem : (c : List Ptr) → Chain n gap c h → has h c ≡ true
  Chain-head_mem [] k = absurd k
  Chain-head_mem (x ∷ []) k = ground arith
  Chain-head_mem (x ∷ y ∷ ys) k = ground (arith, Chain-head_mem (y ∷ ys) k.3)

  pub Chain-mem_ne : (c : List Ptr) → Chain n gap c h → (p : Ptr) → has p c ≡ true → p ≢ null
  Chain-mem_ne [] k p i = absurd k
  Chain-mem_ne (x ∷ []) k p i = ground (arith, i, k)
  Chain-mem_ne (x ∷ y ∷ ys) k p i = ground (arith, i, k.0, Chain-mem_ne (y ∷ ys) k.3 p)

  -- No producer stands behind the head.
  pub Chain-head_gap : (c : List Ptr) → Chain n gap c h → gap h ≡ false
  Chain-head_gap [] k = absurd k
  Chain-head_gap (x ∷ []) k = ground arith
  Chain-head_gap (x ∷ y ∷ ys) k = Chain-head_gap (y ∷ ys) k.3

  pub Chain-first_ne : (c : List Ptr) → Chain n gap c h → first c ≢ null
  Chain-first_ne [] k = absurd k
  Chain-first_ne (x ∷ []) k = k.0
  Chain-first_ne (x ∷ y ∷ ys) k = k.0

  -- Only what the chain names matters.
  pub Chain-frame :
      (n' : Ptr → Ptr) (gap' : Ptr → Bool) (c : List Ptr)
      → Chain n gap c h
      → ((p : Ptr) → has p c ≡ true → (n' p ≡ n p) × (gap' p ≡ gap p))
      → Chain n' gap' c h
  Chain-frame n' gap' [] k same = absurd k
  Chain-frame n' gap' (x ∷ []) k same = ground (arith, same x)
  Chain-frame n' gap' (x ∷ y ∷ ys) k same =
      let rest = Chain-frame n' gap' (y ∷ ys) k.3 (λ p i. same p (ground arith)) in
      (k.0, ground (arith, same x), k.2, rest)

  -- After a swap the old head has a gap behind it.
  pub Chain-swap :
      (c : List Ptr) (t : Ptr)
      → Chain n gap c h
      → t ≢ null
      → has t c ≡ false
      → Chain (update n t null) (update (update gap t false) h true) (c ++ t ∷ []) t
  Chain-swap [] t k ne new = absurd k
  Chain-swap (x ∷ []) t k ne new = ground arith
  Chain-swap (x ∷ y ∷ ys) t k ne new =
      let rest = Chain-swap (y ∷ ys) t k.3 ne (ground arith) in
      (
        k.0,
        ground (arith, Chain-head_mem (y ∷ ys) k.3),
        ground (arith, has-append x (y ∷ ys) (t ∷ [])),
        rest,
      )

  pub Chain-link :
      (c : List Ptr) (p t : Ptr)
      → Chain n gap c h
      → Adjacent p t c
      → Chain (update n p t) (update gap p false) c h
  Chain-link [] p t k adj = absurd k
  Chain-link (x ∷ []) p t k adj = absurd adj
  Chain-link (x ∷ y ∷ ys) p t k (inl (ex, ey)) =
      let rest =
        Chain-frame (update n p t) (update gap p false) (y ∷ ys) k.3 (λ q i. ground arith) in
      (k.0, ground arith, k.2, rest)
  Chain-link (x ∷ y ∷ ys) p t k (inr adj) =
      let rest = Chain-link (y ∷ ys) p t k.3 adj in
      (k.0, ground (arith, has-Adjacent (y ∷ ys) p t adj), k.2, rest)

  -- The head stands right before what is put behind it.
  pub Chain-Adjacent : (c : List Ptr) (t : Ptr) → Chain n gap c h → Adjacent h t (c ++ t ∷ [])
  Chain-Adjacent [] t k = absurd k
  Chain-Adjacent (x ∷ []) t k = inl (sym k.1, refl)
  Chain-Adjacent (x ∷ y ∷ ys) t k = inr (Chain-Adjacent (y ∷ ys) t k.3)

  pub Chain-IsDistinct : (c : List Ptr) → Chain n gap c h → IsDistinct c
  Chain-IsDistinct [] k = absurd k
  Chain-IsDistinct (x ∷ []) k = (refl, tt)
  Chain-IsDistinct (x ∷ y ∷ ys) k = (k.2, Chain-IsDistinct (y ∷ ys) k.3)
