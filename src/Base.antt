-- ===== src/Base.antt =====
-- The names that the other modules share, and the map updates that stand for writes to a field.
mod Tests
mod Lists
pub use Tests.*
pub use Lists.*
pub use Prim.Native.Nat.{ℕ, zero, suc, ◌+◌, ◌-◌, ◌*◌, ◌%◌, ◌^◌, ◌≤◌, ◌<◌}
pub use mathlib.Core.Path.{◌≡◌, refl, sym, ap, ◌∙◌, subst}
pub use mathlib.Core.Logic.{◌≢◌, ◌⊎◌, inl, inr}
pub use mathlib.Core.Bool.{Bool, true, false, ◌&&◌, ◌||◌, not}
pub use mathlib.Core.Option.{Option, none, some}
pub use mathlib.Core.List.{List, [], ◌∷◌, ◌++◌}
pub use native.Mathlib.Omega.{arith}

-- A pointer to a `Task`. Address 0 is the null pointer.
abbrev pub Ptr : Type 0
Ptr = ℕ

abbrev pub null : Ptr
null = 0

-- The stub task of the ready to run queue. Its address is also `pending_next_all`.
abbrev pub stub : Ptr
stub = 1

module _ {ℓ} {A : Type ℓ} where
  abbrev pub update : (Ptr → A) → Ptr → A → Ptr → A
  update f p a q = if q == p then a else f q

  -- `(*p).field`; `none` is the dereference of a null pointer.
  abbrev pub load : (Ptr → A) → Ptr → Option A
  load f p = if p == null then none else some (f p)

  -- `(*p).field = a`
  abbrev pub store : (Ptr → A) → Ptr → A → Option (Ptr → A)
  store f p a = if p == null then none else some (update f p a)

infixl 5 ◌>>=◌
abbrev pub ◌>>=◌ {ℓ κ} : {A : Type ℓ} {B : Type κ} → Option A → (A → Option B) → Option B
none >>= f = none
some a >>= f = f a
