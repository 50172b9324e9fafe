-- ===== src/Driver/Between.antt =====
-- From the end of one `poll_pool` of src/lib.rs to the next one, on futures that bring themselves
-- nearer to their end.
use cosync.Base.{
  ℕ, zero, suc, ◌≤◌, ◌<◌, ◌≡◌, inl, inr, refl, sym, ◌∙◌, subst, Bool, true, false, Option, none,
  some, arith, Ptr, has, is_some, Option-cases,
}
use cosync.Notify.{Thread, exit}
use cosync.Executor.{World, FutureObject, Run, ok, Poll}
use cosync.Executor.Works.{Fits}
use cosync.Executor.Frame.{Keeps, keeps_ok}
use cosync.Driver.{leave}
use cosync.Driver.Ends.{Stalled}
use cosync.Driver.Rest.{AtRest, Rested}
use cosync.Driver.Open.{IsOpen}

module _ {Fut : Type 0} (measure : Fut → ℕ) where
  Fits-AtRest :
      (b c n l : ℕ) (seen q u : Bool) (o : Option (FutureObject Fut))
      → (is_some o ≡ true → seen ≡ true)
      → Fits measure (suc b) c seen q u o
      → (is_some o ≡ true → l ≤ n)
      → AtRest measure b n o q l
  Fits-AtRest b c n l seen q u none h f m = tt
  Fits-AtRest b c n l true q u (some x) h f m = (f.0, omega (arith, f.2), m refl)
  Fits-AtRest b c n l false q u (some x) h f m = ground (arith, h refl)

  Fits-live :
      (b c : ℕ) (seen q u : Bool) (o : Option (FutureObject Fut))
      → seen ≡ true
      → is_some o ≡ true
      → Fits measure b c seen q u o
      → (u ≡ true) × (0 < b)
  Fits-live b c seen q u none e i f = cc
  Fits-live b c true q u (some x) e i f = (f.1, omega (arith, f.2))
  Fits-live b c false q u (some x) e i f = cc

module _ {Fut D : Type 0} (measure : Fut → ℕ) where
  pub Stalled-Rested :
      (b n : ℕ) (r : Poll) (w : World Fut D) (th : Thread)
      → Stalled measure (suc b) n r w
      → Rested measure b (record w { thread = th })
  Stalled-Rested b n r w th k = record {
    each = λ s.
        Fits-AtRest measure b zero _ _ _ _ _ _ (λ i. k.seen s (sym (k.valid.futures s) ∙ i))
          (k.tracked.fits s refl) (λ i. k.tracked.marks s (ground (arith, i)));
    registering = k.tracked.armed.registering;
    waking = k.tracked.armed.waking;
    strong = k.tracked.strong;
    incoming = rw k.incoming tt;
  }

  -- While a task is left the thread goes on.
  pub Stalled-live :
      (b n : ℕ) (r : Poll) (w : World Fut D) (k : Stalled measure b n r w) (t : Ptr)
      → has t k.tasks ≡ true
      → (w.thread.unparked ≡ true) × (0 < b)
  Stalled-live b n r w k t i =
      Fits-live measure b zero _ _ _ _ (k.seen t i) (k.valid.futures t ∙ i) (k.tracked.fits t refl)

-- The state that a run leaves.
abbrev pub left_world : {Fut D : Type 0} → World Fut D → World Fut D
left_world w = record w { heap_ptr = none; thread = record w.thread { entered = false } }

module _ {Fut D A : Type 0} where
  pub leave-ok :
      (a : A) (w : World Fut D) → IsOpen w → (d : D) × (leave (ok a w) ≡ ok d (left_world w))
  unfolding leave exit
  leave-ok a w (entered, given) = elim (Option-cases w.heap_ptr) [
    | inl e ↦ ground (arith, e, given)
    | inr (d, e) ↦ (d, rw (e, leave, entered) refl)
  ]

  pub returned-IsOpen :
      (r : Run Fut D A) (a : A) (w : World Fut D) → Keeps IsOpen r → r ≡ ok a w → IsOpen w
  returned-IsOpen r a w k e = go (subst (Keeps IsOpen) e k)
    where
      go : Keeps IsOpen (ok a w) → IsOpen w
      go (keeps_ok o) = o
