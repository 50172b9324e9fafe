-- ===== src/AllTasks/Linked.antt =====
-- What the pointers of the list stand for, and how one task is taken out of it.
use cosync.Base.{
  ℕ, ◌≡◌, ◌≢◌, ◌⊎◌, inl, inr, refl, true, false, List, [], ◌∷◌, arith, Ptr, null, stub, update, has,
  erase, IsDistinct, length, ◌==◌, if◌then◌else◌, Bool-cases, has-erase_ne,
}
use cosync.AllTasks.{AllTasks}

-- From `p`, whose predecessor is `before`, the pointers lead through the distinct tasks of a list.
abbrev pub Linked : (Ptr → Ptr) → (Ptr → Ptr) → Ptr → Ptr → List Ptr → Type 0
Linked n v before p [] = p ≡ null
Linked n v before p (x ∷ xs) =
    (p ≡ x) × (x ≢ null) × (x ≢ stub) × (v x ≡ before) × (has x xs ≡ false) × Linked n v x (n x) xs

-- The head knows the length.
abbrev pub Counted : (Ptr → ℕ) → List Ptr → Type 0
Counted len [] = Unit
Counted len (x ∷ xs) = len x ≡ length (x ∷ xs)

pub record IsAll (a : AllTasks) (xs : List Ptr) : Type 0 where
  pub linked : Linked a.next_all a.prev_all null a.head_all xs
  pub counted : Counted a.len_all xs
  pub outside : (p : Ptr) → has p xs ≡ false → (a.next_all p ≡ stub) × (a.prev_all p ≡ null)

abbrev pub unlinked_next : (Ptr → Ptr) → (Ptr → Ptr) → Ptr → Ptr → Ptr
unlinked_next n v t = if v t == null then update n t stub else update (update n t stub) (v t) (n t)

abbrev pub unlinked_prev : (Ptr → Ptr) → (Ptr → Ptr) → Ptr → Ptr → Ptr
unlinked_prev n v t = if n t == null then update v t null else update (update v t null) (n t) (v t)

module _ (n v : Ptr → Ptr) where
  pub Linked-null : (b p : Ptr) (xs : List Ptr) → Linked n v b p xs → has null xs ≡ false
  Linked-null b p [] k = refl
  Linked-null b p (x ∷ xs) k = ground (arith, Linked-null x (n x) xs k.5)

  pub Linked-stub : (b p : Ptr) (xs : List Ptr) → Linked n v b p xs → has stub xs ≡ false
  Linked-stub b p [] k = refl
  Linked-stub b p (x ∷ xs) k = ground (arith, Linked-stub x (n x) xs k.5)

  pub Linked-first :
      (b p : Ptr) (xs : List Ptr) → Linked n v b p xs → (p ≡ null) ⊎ (has p xs ≡ true)
  Linked-first b p [] k = inl k
  Linked-first b p (x ∷ xs) k = inr (ground arith)

  -- No task is its own neighbour.
  pub Linked-irrefl :
      (t b p : Ptr) (xs : List Ptr)
      → Linked n v b p xs
      → has b xs ≡ false
      → has t xs ≡ true
      → (v t ≢ t) × (n t ≢ t)
  Linked-irrefl t b p [] k out i = cc
  Linked-irrefl t b p (x ∷ xs) k out i = elim (Bool-cases (t == x)) [
    | inl e ↦ ground (arith, Linked-first x (n x) xs k.5)
    | inr e ↦ Linked-irrefl t x (n x) xs k.5 k.4 (ground arith)
  ]

  pub Linked-frame :
      (n' v' : Ptr → Ptr) (b p : Ptr) (xs : List Ptr)
      → Linked n v b p xs
      → ((q : Ptr) → has q xs ≡ true → (n' q ≡ n q) × (v' q ≡ v q))
      → Linked n' v' b p xs
  Linked-frame n' v' b p [] k same = k
  Linked-frame n' v' b p (x ∷ xs) k same =
      let e = same x (ground arith) in
      let rest = Linked-frame n' v' x (n x) xs k.5 (λ q i. same q (ground arith)) in
      (k.0, k.1, k.2, ground arith, k.4, rw (e.0) rest)

  -- The first task gets another predecessor.
  pub Linked-move :
      (n' v' : Ptr → Ptr) (b b' p : Ptr) (xs : List Ptr)
      → Linked n v b p xs
      → ((q : Ptr) → has q xs ≡ true → (n' q ≡ n q) × (v' q ≡ (if q == p then b' else v q)))
      → Linked n' v' b' p xs
  Linked-move n' v' b b' p [] k same = k
  Linked-move n' v' b b' p (x ∷ xs) k same =
      let e = same x (ground arith) in
      let rest = Linked-frame n' v' x (n x) xs k.5 (λ q i. ground (arith, same q)) in
      (k.0, k.1, k.2, ground arith, k.4, rw (e.0) rest)

  -- A task is first, or its predecessor is in the list.
  pub Linked-prev :
      (t b p : Ptr) (xs : List Ptr)
      → Linked n v b p xs
      → has t xs ≡ true
      → ((p ≡ t) × (v t ≡ b)) ⊎ ((p ≢ t) × (has (v t) xs ≡ true))
  Linked-prev t b p [] k i = cc
  Linked-prev t b p (x ∷ xs) k i = elim (Bool-cases (t == x)) [
    | inl e ↦ inl (ground arith)
    | inr e ↦ ground (arith, Linked-prev t x (n x) xs k.5)
  ]

  -- A task is last, or its successor is in the list, behind the first.
  pub Linked-next :
      (t b p : Ptr) (xs : List Ptr)
      → Linked n v b p xs
      → has t xs ≡ true
      → (n t ≡ null) ⊎ ((n t ≢ p) × (has (n t) xs ≡ true))
  Linked-next t b p [] k i = cc
  Linked-next t b p (x ∷ []) k i = ground arith
  Linked-next t b p (x ∷ y ∷ ys) k i = elim (Bool-cases (t == x)) [
    | inl e ↦ inr (ground arith)
    | inr e ↦ ground (arith, Linked-next t x (n x) (y ∷ ys) k.5)
  ]

  pub Linked-erase :
      (t b p : Ptr) (xs : List Ptr)
      → Linked n v b p xs
      → has b xs ≡ false
      → has t xs ≡ true
      → Linked
          (unlinked_next n v t)
          (unlinked_prev n v t)
          b
          (if p == t then n t else p)
          (erase t xs)
  Linked-erase t b p [] k out i = cc
  Linked-erase t b p (x ∷ xs) k out i = elim (Bool-cases (t == x)) [
    | inl e ↦
        let none_null = Linked-null x (n x) xs k.5 in
        let moved =
          Linked-move (unlinked_next n v t) (unlinked_prev n v t) x b (n x) xs k.5
            (λ q j. (ground arith, ground arith)) in
        let first : (if p == t then n t else p) ≡ n x = ground arith in rw (e, first) moved
    | inr e ↦
        let j : has t xs ≡ true = ground arith in
        let rest = Linked-erase t x (n x) xs k.5 k.4 j in
        let before = Linked-prev t x (n x) xs k.5 j in
        let behind = Linked-next t x (n x) xs k.5 j in
        let first : (if p == t then n t else p) ≡ x = ground arith in
        let next : unlinked_next n v t x ≡ (if n x == t then n t else n x) = ground arith in
        let prev : unlinked_prev n v t x ≡ b = ground arith in
        rw (e, first) (refl, k.1, k.2, prev, has-erase_ne t x xs k.4, rw next rest)
  ]

  pub Linked-IsDistinct : (b p : Ptr) (xs : List Ptr) → Linked n v b p xs → IsDistinct xs
  Linked-IsDistinct b p [] k = tt
  Linked-IsDistinct b p (x ∷ xs) k = (k.4, Linked-IsDistinct x (n x) xs k.5)
