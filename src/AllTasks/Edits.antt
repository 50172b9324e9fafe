-- ===== src/AllTasks/Edits.antt =====
-- `link`, `unlink` and the length against the list of tasks.
use cosync.Base.{
  ℕ, suc, ◌+◌, ◌≡◌, ◌≢◌, ◌⊎◌, inl, inr, refl, true, false, List, [], ◌∷◌, arith, Ptr, null, stub,
  update, has, erase, has-erase, length, ◌==◌, if◌then◌else◌, Bool-cases, length-erase, some,
}
use cosync.AllTasks.{
  AllTasks, link, unlink, len_before, spin_next_all, atomic_load_head_and_len_all,
}
use cosync.AllTasks.Linked.{
  IsAll, Linked, Counted, unlinked_next, unlinked_prev, Linked-null, Linked-move, Linked-prev,
  Linked-next, Linked-erase, Linked-first, Linked-irrefl,
}

-- The length that is read at the head of a valid list is the number of its tasks, and 0 for the
-- empty list.
pub len-length :
    (a : AllTasks) (xs : List Ptr)
    → IsAll a xs
    → atomic_load_head_and_len_all a ≡ some (a.head_all, length xs)
unfolding atomic_load_head_and_len_all spin_next_all
len-length a [] v = ground (arith, v.linked)
len-length a (x ∷ []) v = ground (arith, v.linked, v.counted)
len-length a (x ∷ y ∷ ys) v = ground (arith, v.linked, v.counted)

len_before_lem :
    (a : AllTasks) (xs : List Ptr) → IsAll a xs → len_before a a.head_all ≡ some (length xs + 1)
unfolding len_before spin_next_all
len_before_lem a [] v = ground (arith, v.linked)
len_before_lem a (x ∷ []) v = ground (arith, v.linked, v.counted)
len_before_lem a (x ∷ y ∷ ys) v = ground (arith, v.linked, v.counted)

abbrev linked : AllTasks → Ptr → ℕ → AllTasks
linked a t n = record {
  next_all = update a.next_all t a.head_all;
  prev_all = if a.head_all == null then a.prev_all else update a.prev_all a.head_all t;
  len_all = update a.len_all t n;
  head_all = t;
}

-- `link` of a task that is not in a valid list puts it at the front and leaves a valid list, with
-- the length that the new head holds.
pub link-cons :
    (a : AllTasks) (xs : List Ptr) (t : Ptr)
    → IsAll a xs
    → t ≢ null
    → t ≢ stub
    → has t xs ≡ false
    → (a' : AllTasks) × (link a t ≡ some a') × IsAll a' (t ∷ xs)
unfolding link
link-cons a xs t v ne ns new = (
  linked a t (length xs + 1),
  ground (arith, len_before_lem a xs v, v.outside t new),
  record {
    linked = (refl, ne, ns, ground (arith, inside, prevs t, v.outside t new), new, rw at_t moved);
    counted = ground arith;
    outside =
        λ p o. (ground (arith, v.outside p, inside), ground (arith, v.outside p, prevs p, inside));
  },
)
  where
    inside : (a.head_all ≡ null) ⊎ (has a.head_all xs ≡ true)
    inside = Linked-first _ _ null a.head_all xs v.linked

    a' : AllTasks
    a' = linked a t (length xs + 1)

    prevs :
        (q : Ptr)
        → a'.prev_all q
          ≡ (if a.head_all == null then a.prev_all q else update a.prev_all a.head_all t q)
    prevs q = elim (Bool-cases (a.head_all == null)) [ inl e ↦ rw e | inr e ↦ rw e ]

    at_t : a'.next_all t ≡ a.head_all
    at_t = ground arith

    none_null : has null xs ≡ false
    none_null = Linked-null _ _ null a.head_all xs v.linked

    moved : Linked a'.next_all a'.prev_all t a.head_all xs
    moved =
        Linked-move _ _ a'.next_all a'.prev_all null t a.head_all xs v.linked
          λ q i. (ground arith, ground (arith, prevs q))

abbrev unlinked : AllTasks → Ptr → ℕ → AllTasks
unlinked a t n =
    let head = if a.prev_all t == null then a.next_all t else a.head_all in
    record {
      next_all = unlinked_next a.next_all a.prev_all t;
      prev_all = unlinked_prev a.next_all a.prev_all t;
      len_all = if head == null then a.len_all else update a.len_all head n;
      head_all = head;
    }

Counted-erase :
    (n v : Ptr → Ptr) (len : Ptr → ℕ) (b p t : Ptr) (xs : List Ptr) (k : ℕ)
    → Linked n v b p xs
    → has t xs ≡ true
    → length xs ≡ suc k
    → let head = if p == t then n t else p in
      Counted (if head == null then len else update len head k) (erase t xs)
Counted-erase n v len b p t [] k l i e = cc
Counted-erase n v len b p t (x ∷ []) k l i e = ground arith
Counted-erase n v len b p t (x ∷ y ∷ ys) k l i e = elim (Bool-cases (t == x)) [
  | inl h ↦ ground arith
  | inr h ↦ ground (arith, length-erase t (y ∷ ys))
]

module _ (a : AllTasks) (xs : List Ptr) (t : Ptr) (v : IsAll a xs) (i : has t xs ≡ true) where
  none_null : has null xs ≡ false
  none_null = Linked-null _ _ null a.head_all xs v.linked

  new_head :
      (if a.prev_all t == null then a.next_all t else a.head_all)
      ≡ (if a.head_all == t then a.next_all t else a.head_all)
  new_head =
      ground (arith, none_null, Linked-prev a.next_all a.prev_all t null a.head_all xs v.linked i)

  unlinked-outside :
      (p : Ptr)
      → has p (erase t xs) ≡ false
      → (unlinked_next a.next_all a.prev_all t p ≡ stub)
        × (unlinked_prev a.next_all a.prev_all t p ≡ null)
  unlinked-outside p o = elim (Bool-cases (p == t)) [
    | inl e ↦
        ground
          (arith, Linked-irrefl a.next_all a.prev_all t null a.head_all xs v.linked none_null i)
    | inr e ↦ ground (
      arith,
      none_null,
      has-erase t p xs,
      v.outside p,
      Linked-prev a.next_all a.prev_all t null a.head_all xs v.linked i,
      Linked-next a.next_all a.prev_all t null a.head_all xs v.linked i,
    )
  ]

  unlinked-IsAll : (k : ℕ) → length xs ≡ suc k → IsAll (unlinked a t k) (erase t xs)
  unlinked-IsAll k e = record {
    linked = rw new_head (Linked-erase _ _ t null a.head_all xs v.linked none_null i);
    counted = rw new_head (Counted-erase _ _ a.len_all null a.head_all t xs k v.linked i e);
    outside = unlinked-outside;
  }

unlink_run :
    (a : AllTasks) (t : Ptr) (k : ℕ)
    → a.head_all ≢ null
    → t ≢ null
    → a.len_all a.head_all ≡ suc k
    → unlink a t ≡ some (unlinked a t k)
unfolding unlink
unlink_run a t k h ne e = ground arith

-- `unlink` of a task of a valid list takes that task out of it and leaves a valid list: both links
-- of its neighbours, the head, and the length that the head holds are right, and the task itself is
-- unlinked.
pub unlink-erase :
    (a : AllTasks) (xs : List Ptr) (t : Ptr)
    → IsAll a xs
    → has t xs ≡ true
    → (a' : AllTasks) × (unlink a t ≡ some a') × IsAll a' (erase t xs)
unlink-erase a [] t v i = cc
unlink-erase a (x ∷ xs) t v i = (
  unlinked a t (length xs),
  unlink_run a t (length xs) (ground (arith, v.linked)) (ground (arith, none_null a (x ∷ xs) t v i))
      (ground (arith, v.linked, v.counted)),
  unlinked-IsAll a (x ∷ xs) t v i (length xs) refl,
)
