-- ===== src/Driver/Pushed.antt =====
-- The tasks that `poll_pool` of src/lib.rs puts from the incoming queue into the pool.
use mathlib.Core.List.{append_assoc, append-nil}
use cosync.Base.{
  suc, ◌≤◌, ◌<◌, ◌≡◌, ◌⊎◌, inl, inr, refl, subst, ap, ◌∙◌, true, Option, some, List, [], ◌∷◌, ◌++◌,
  arith, Ptr, has, ◌==◌, Bool-cases,
}
use cosync.FuturesUnordered.Wakes.{push-IsPool}
use cosync.Executor.{World, FutureObject, ok, with_pool}
use cosync.Executor.Turns.{IsValid}
use cosync.Driver.{push_all}

-- The addresses from `t` on, one for every entry of the list.
abbrev pub addresses : {A : Type 0} → Ptr → List A → List Ptr
addresses t [] = []
addresses t (f ∷ fs) = t ∷ addresses (suc t) fs

-- The tasks of a list stand at such addresses, in order.
abbrev pub Placed : {Fut : Type 0} → (Ptr → Option Fut) → Ptr → List Fut → Type 0
Placed future t [] = Unit
Placed future t (f ∷ fs) = (future t ≡ some f) × Placed future (suc t) fs

-- Tasks were pushed: those that are new are queued, the others stay as they are.
pub record Pushed {Fut D : Type 0} (w : World Fut D) (xs ys : List Ptr)
    (fs : List (FutureObject Fut)) (w' : World Fut D) : Type 0 where
  pub tasks : List Ptr
  pub valid : IsValid w' (xs ++ addresses w.pool.fresh fs) tasks
  pub poll_counter : w'.pool.poll_counter ≡ w.pool.poll_counter
  pub fresh : w.pool.fresh ≤ w'.pool.fresh
  pub still : (s : Ptr) → has s ys ≡ true → has s tasks ≡ true
  pub new_task : (s : Ptr) → has s (addresses w.pool.fresh fs) ≡ true → has s tasks ≡ true
  pub new_queued :
      (s : Ptr)
      → has s tasks ≡ true
      → (has s (addresses w.pool.fresh fs) ≡ true) ⊎ (has s ys ≡ true)
  pub same :
      (s : Ptr)
      → s < w.pool.fresh
      → (w'.pool.last_polled s ≡ w.pool.last_polled s) × (w'.pool.future s ≡ w.pool.future s)
  pub unpolled : (s : Ptr) → has s (addresses w.pool.fresh fs) ≡ true → w'.pool.last_polled s ≡ 0
  pub placed : Placed w'.pool.future w.pool.fresh fs

pub addresses-bound : {A : Type 0} (t s : Ptr) (fs : List A) → has s (addresses t fs) ≡ true → t ≤ s
addresses-bound t s [] i = cc
addresses-bound t s (f ∷ fs) i = ground (arith, i, addresses-bound (suc t) s fs)

module _ {Fut D : Type 0} where
  pub push_all-Pushed :
      (fs : List (FutureObject Fut)) (w : World Fut D) (xs ys : List Ptr)
      → IsValid w xs ys
      → (w' : World Fut D) × (push_all fs w ≡ ok tt w') × Pushed w xs ys fs w'
  unfolding push_all
  push_all-Pushed [] w xs ys v = (
    w,
    refl,
    record {
      tasks = ys;
      valid = rw append-nil v;
      poll_counter = refl;
      fresh = omega arith;
      still = λ s i. i;
      new_task = λ s i. cc;
      new_queued = λ s i. inr i;
      same = λ s h. (refl, refl);
      unpolled = λ s i. cc;
      placed = tt;
    },
  )
  push_all-Pushed (f ∷ fs) w xs ys v =
      let (p, e, v', ef, el, ec, en) = push-IsPool w.pool xs ys ys v f in
      let t = w.pool.fresh in
      let (w', r, k) = push_all-Pushed fs (with_pool w p) (xs ++ t ∷ []) (t ∷ ys) v' in
      let queued = subst (λ a. IsValid w' ((xs ++ t ∷ []) ++ addresses a fs) k.tasks) en k.valid in
      let new_task : (s : Ptr) → has s (addresses (suc t) fs) ≡ true → has s k.tasks ≡ true =
        subst (λ a. (s : Ptr) → has s (addresses a fs) ≡ true → has s k.tasks ≡ true) en
          k.new_task in
      let new_queued : (s : Ptr)
          → has s k.tasks ≡ true
          → (has s (addresses (suc t) fs) ≡ true) ⊎ (has s (t ∷ ys) ≡ true) =
        subst
          (λ a.
            (s : Ptr)
            → has s k.tasks ≡ true
            → (has s (addresses a fs) ≡ true) ⊎ (has s (t ∷ ys) ≡ true))
          en k.new_queued in
      let unpolled : (s : Ptr) → has s (addresses (suc t) fs) ≡ true → w'.pool.last_polled s ≡ 0 =
        subst (λ a. (s : Ptr) → has s (addresses a fs) ≡ true → w'.pool.last_polled s ≡ 0) en
          k.unpolled in
      let (polls_t, future_t) = k.same t (omega (arith, en)) in
      (
        w',
        rw (e, push_all) r,
        record {
          tasks = k.tasks;
          valid =
              subst (λ zs. IsValid w' zs k.tasks) (append_assoc xs (t ∷ []) (addresses (suc t) fs))
                queued;
          poll_counter = k.poll_counter ∙ ec;
          fresh = omega (arith, k.fresh, en);
          still = λ s i. k.still s (ground arith);
          new_task = λ s i. elim (Bool-cases (s == t)) [
            | inl same ↦ k.still s (ground arith)
            | inr other ↦ new_task s (ground (arith, i))
          ];
          new_queued = λ s i. ground (arith, new_queued s i);
          same = λ s h.
              let (last, fut) = k.same s (omega (arith, en)) in
              (last ∙ ap (λ g. g s) el ∙ ground arith, fut ∙ ap (λ g. g s) ef ∙ ground arith);
          unpolled = λ s i. elim (Bool-cases (s == t)) [
            | inl same ↦
                let there : s ≡ t = ground arith in
                ap (λ q. w'.pool.last_polled q) there ∙ polls_t ∙ ap (λ g. g t) el ∙ ground arith
            | inr other ↦ unpolled s (ground (arith, i))
          ];
          placed = (
            future_t ∙ ap (λ g. g t) ef ∙ ground arith,
            subst (λ a. Placed w'.pool.future a fs) en k.placed,
          );
        },
      )
