-- ===== src/Base/Lists.antt =====
-- Lists of numbers: length, membership as a test, removal of one element.
use Prim.Native.Nat.{ℕ, zero, suc, ◌+◌, ◌≤◌, ◌<◌}
use mathlib.Core.Path.{◌≡◌, refl}
use mathlib.Core.Logic.{◌≢◌, inl, inr}
use mathlib.Core.Bool.{Bool, true, false, ◌||◌}
use mathlib.Core.List.{List, [], ◌∷◌, ◌++◌}
use native.Mathlib.Omega.{arith}
use cosync.Base.Tests.{Bool-cases, ◌==◌, if◌then◌else◌}

module _ {ℓ} {A : Type ℓ} where
  abbrev pub length : List A → ℕ
  length [] = 0
  length (x ∷ xs) = suc (length xs)

abbrev pub has : ℕ → List ℕ → Bool
has a [] = false
has a (x ∷ xs) = (a == x) || has a xs

-- The first occurrence is removed.
abbrev pub erase : ℕ → List ℕ → List ℕ
erase a [] = []
erase a (x ∷ xs) = if a == x then xs else x ∷ erase a xs

abbrev pub IsDistinct : List ℕ → Type 0
IsDistinct [] = Unit
IsDistinct (x ∷ xs) = (has x xs ≡ false) × IsDistinct xs

pub has-append : (a : ℕ) (xs ys : List ℕ) → has a (xs ++ ys) ≡ (has a xs || has a ys)
has-append a [] ys = refl
has-append a (x ∷ xs) ys = ground (arith, has-append a xs ys)

pub has-erase_ne : (a b : ℕ) (xs : List ℕ) → has b xs ≡ false → has b (erase a xs) ≡ false
has-erase_ne a b [] h = refl
has-erase_ne a b (x ∷ xs) h = ground (arith, has-erase_ne a b xs)

pub length-erase : (a : ℕ) (xs : List ℕ) → has a xs ≡ true → length (erase a xs) + 1 ≡ length xs
length-erase a [] h = cc
length-erase a (x ∷ xs) h = ground (arith, length-erase a xs)

pub has-erase : (a b : ℕ) (xs : List ℕ) → a ≢ b → has b (erase a xs) ≡ has b xs
has-erase a b [] ne = refl
has-erase a b (x ∷ xs) ne = ground (arith, has-erase a b xs)

pub has-erase_self : (a : ℕ) (xs : List ℕ) → IsDistinct xs → has a (erase a xs) ≡ false
has-erase_self a [] d = refl
has-erase_self a (x ∷ xs) d = ground (arith, has-erase_self a xs)

pub erase-IsDistinct : (a : ℕ) (xs : List ℕ) → IsDistinct xs → IsDistinct (erase a xs)
erase-IsDistinct a [] d = tt
erase-IsDistinct a (x ∷ xs) d = ground (arith, erase-IsDistinct a xs, has-erase a x xs)

-- Different numbers under a bound are no more than the bound.
pub length-bound :
    (m : ℕ) (xs : List ℕ) → IsDistinct xs → ((t : ℕ) → has t xs ≡ true → t < m) → length xs ≤ m
length-bound zero [] d h = omega arith
length-bound zero (x ∷ xs) d h = absurd (omega (arith, h x (ground arith)))
length-bound (suc m) xs d h = elim (Bool-cases (has m xs)) [
  | inl e ↦
      let shorter = length-bound m (erase m xs) (erase-IsDistinct m xs d) (λ t i.
        ground (arith, h t, has-erase m t xs, has-erase_self m xs d, Bool-cases (t == m))) in
      omega (arith, shorter, length-erase m xs e)
  | inr e ↦ omega (arith, length-bound m xs d (λ t i. ground (arith, h t i, e)))
]

pub append_one-IsDistinct :
    (a : ℕ) (xs : List ℕ) → IsDistinct xs → has a xs ≡ false → IsDistinct (xs ++ a ∷ [])
append_one-IsDistinct a [] d h = (refl, tt)
append_one-IsDistinct a (x ∷ xs) d h =
    (ground (arith, d.0, has-append x xs (a ∷ [])), append_one-IsDistinct a xs (d.1) (ground arith))

pub append-IsDistinct :
    (xs ys : List ℕ)
    → IsDistinct xs
    → IsDistinct ys
    → ((i : ℕ) → has i xs ≡ true → has i ys ≡ false)
    → IsDistinct (xs ++ ys)
append-IsDistinct [] ys d e h = e
append-IsDistinct (x ∷ xs) ys d e h = (
  ground (arith, d.0, has-append x xs ys, h x),
  append-IsDistinct xs ys (d.1) e (λ i j. h i (ground arith)),
)
