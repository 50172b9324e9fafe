-- ===== src/Driver/Handles/Ids.antt =====
-- The ids that `next_cosync_task_id` of src/lib.rs gives to the threads, and the incoming queue.
use cosync.Base.{
  append_one-IsDistinct, ◌&&◌, ℕ, ◌+◌, ◌^◌, ◌≡◌, ◌≤◌, ◌<◌, ◌⊎◌, refl, ap, Bool, true, false, not,
  ◌||◌, Option, none, some, List, [], ◌∷◌, ◌++◌, arith, has, erase, has-append, has-erase,
  has-erase_self, erase-IsDistinct, IsDistinct, ◌==◌, Bool-cases, Option-cases, inl, inr,
}
use cosync.FuturesUnordered.{u64}
use cosync.Executor.{World, FutureObject}
use cosync.Driver.{unqueue_task, remove_id}
use cosync.Driver.Handles.{
  Handles, Step, upgrade, take_id, push_back, unqueue, drop_ref, own_id, own_unqueue, own_drain,
  own_box, free_box, drop_queue, perform,
}

abbrev pub ids : {Fut : Type 0} → List (FutureObject Fut) → List ℕ
ids [] = []
ids (f ∷ fs) = f.id ∷ ids fs

module _ {Fut : Type 0} where
  ids-append : (fs gs : List (FutureObject Fut)) → ids (fs ++ gs) ≡ ids fs ++ ids gs
  ids-append [] gs = refl
  ids-append (f ∷ fs) gs = ap (λ is. f.id ∷ is) (ids-append fs gs)

  -- A queue whose ids are different and are some of those of another queue.
  abbrev pub Fewer : List (FutureObject Fut) → List (FutureObject Fut) → Type 0
  Fewer fs gs = IsDistinct (ids gs) × ((i : ℕ) → has i (ids gs) ≡ true → has i (ids fs) ≡ true)

  abbrev FewerOrSame : List (FutureObject Fut) → Option (List (FutureObject Fut)) → Type 0
  FewerOrSame fs none = Unit
  FewerOrSame fs (some gs) = Fewer fs gs

  remove_id-Fewer :
      (id : ℕ) (fs : List (FutureObject Fut))
      → IsDistinct (ids fs)
      → FewerOrSame fs (remove_id id fs)
  unfolding remove_id
  remove_id-Fewer id [] d = tt
  remove_id-Fewer id (f ∷ fs) d = elim (Bool-cases (f.id == id)) [
    | inl e ↦ rw e (d.1, λ i h. ground arith)
    | inr e ↦ rw e (go (remove_id id fs) (remove_id-Fewer id fs (d.1)))
  ]
    where
      go :
          (r : Option (List (FutureObject Fut)))
          → FewerOrSame fs r
          → FewerOrSame (f ∷ fs) (elim r [ none ↦ none | some gs ↦ some (f ∷ gs) ])
      go none u = tt
      go (some gs) (e, h) = ((ground (arith, d.0, h f.id), e), λ i j. ground (arith, h i))

  pub remove_id-append :
      (id : ℕ) (f : FutureObject Fut) (fs : List (FutureObject Fut))
      → has id (ids fs) ≡ false
      → f.id ≡ id
      → remove_id id (fs ++ f ∷ []) ≡ some fs
  unfolding remove_id
  remove_id-append id f [] h e = ground (arith, e)
  remove_id-append id f (g ∷ fs) h e = ground (arith, h, remove_id-append id f fs, e)

module _ {Fut D : Type 0} where
  unqueue_task-Fewer :
      (id : ℕ) (w : World Fut D)
      → IsDistinct (ids w.incoming)
      → Fewer w.incoming (unqueue_task id w).1.incoming
  unfolding unqueue_task
  unqueue_task-Fewer id w d = go (remove_id id w.incoming) (remove_id-Fewer id w.incoming d)
    where
      go :
          (r : Option (List (FutureObject Fut)))
          → FewerOrSame w.incoming r
          → Fewer w.incoming
              (elim r as (λ r. Bool × World Fut D) [
                | none ↦ (false, w)
                | some fs ↦ (true, record w { incoming = fs })
              ]).1.incoming
      go none u = (d, λ i h. h)
      go (some fs) u = u

-- The ids that wait in the incoming queue, or with a thread that has not yet queued its task.
pub record IsNumbered {Fut D : Type 0} (s : Handles Fut D) : Type 0 where
  pub counter : s.world.counter ≡ u64 s.issued
  pub waiting : IsDistinct (ids s.world.incoming)
  pub numbered : IsDistinct s.numbered
  pub apart : (i : ℕ) → has i s.numbered ≡ true → has i (ids s.world.incoming) ≡ false
  pub waiting_issued : (i : ℕ) → has i (ids s.world.incoming) ≡ true → i < s.issued
  pub numbered_issued : (i : ℕ) → has i s.numbered ≡ true → i < s.issued

module _ {Fut D : Type 0} where
  pub perform-issued :
      (e : Step Fut D) (s s' : Handles Fut D) → perform e s ≡ some s' → s.issued ≤ s'.issued
  unfolding perform
  perform-issued upgrade s s' e = ground (arith, e)
  perform-issued take_id s s' e = ground (arith, e)
  perform-issued (push_back id f) s s' e = ground (arith, e)
  perform-issued (unqueue id) s s' e = ground (arith, e)
  perform-issued drop_ref s s' e = ground (arith, e)
  perform-issued own_id s s' e = ground (arith, e)
  perform-issued (own_unqueue id) s s' e = ground (arith, e)
  perform-issued own_drain s s' e = ground (arith, e)
  perform-issued (own_box b) s s' e = ground (arith, e)
  perform-issued free_box s s' e = ground (arith, e)
  perform-issued drop_queue s s' e = ground (arith, e)

module _ {Fut D : Type 0} (s s' : Handles Fut D) (k : IsNumbered s) where
  -- No id is taken, and tasks may leave the queue.
  pub keep-IsNumbered :
      s'.world.counter ≡ s.world.counter
      → s'.issued ≡ s.issued
      → s'.numbered ≡ s.numbered
      → Fewer s.world.incoming s'.world.incoming
      → IsNumbered s'
  keep-IsNumbered ec ei en (d, h) = record {
    counter = ground (arith, ec, ei, k.counter);
    waiting = d;
    numbered = ground (arith, en, k.numbered);
    apart = λ i j. ground (arith, en, h i, k.apart i);
    waiting_issued = λ i j. ground (arith, ei, h i, k.waiting_issued i);
    numbered_issued = λ i j. ground (arith, ei, en, k.numbered_issued i);
  }

  pub same-IsNumbered :
      s'.world.counter ≡ s.world.counter
      → s'.issued ≡ s.issued
      → s'.numbered ≡ s.numbered
      → s'.world.incoming ≡ s.world.incoming
      → IsNumbered s'
  same-IsNumbered ec ei en ew = keep-IsNumbered ec ei en (rw ew (k.waiting, λ i h. h))

  pub unqueue-IsNumbered :
      (id : ℕ)
      → s'.world ≡ (unqueue_task id s.world).1
      → s'.issued ≡ s.issued
      → s'.numbered ≡ s.numbered
      → IsNumbered s'
  unfolding unqueue_task
  unqueue-IsNumbered id ew ei en =
      keep-IsNumbered (ground (arith, ew, Option-cases (remove_id id s.world.incoming))) ei en
        (rw ew (unqueue_task-Fewer id s.world k.waiting))

  -- An id is taken, by a thread that has yet to queue its task, or by the owner.
  pub take-IsNumbered :
      s'.issued ≤ 2 ^ 64
      → s'.world.counter ≡ u64 (s.world.counter + 1)
      → s'.issued ≡ s.issued + 1
      → (s'.numbered ≡ s.world.counter ∷ s.numbered) ⊎ (s'.numbered ≡ s.numbered)
      → s'.world.incoming ≡ s.world.incoming
      → IsNumbered s'
  take-IsNumbered b ec ei en ew = record {
    counter = ground (arith, ec, ei, k.counter);
    waiting = ground (arith, ew, k.waiting);
    numbered = ground (arith, en, k.numbered, fresh, k.numbered_issued s.issued);
    apart = λ i j. ground (arith, ew, en, fresh, k.apart i, k.waiting_issued i);
    waiting_issued = λ i j. ground (arith, ei, ew, k.waiting_issued i);
    numbered_issued = λ i j. ground (arith, ei, en, fresh, k.numbered_issued i);
  }
    where
      fresh : s.world.counter ≡ s.issued
      fresh = omega (arith, k.counter, b, ei)

  pub push-IsNumbered :
      (id : ℕ) (f : FutureObject Fut)
      → has id s.numbered ≡ true
      → f.id ≡ id
      → s'.world.counter ≡ s.world.counter
      → s'.issued ≡ s.issued
      → s'.numbered ≡ erase id s.numbered
      → s'.world.incoming ≡ s.world.incoming ++ f ∷ []
      → IsNumbered s'
  push-IsNumbered id f i ef ec ei en ew = record {
    counter = ground (arith, ec, ei, k.counter);
    waiting =
        rw (ew, ids-append s.world.incoming (f ∷ []), ef)
          (append_one-IsDistinct id (ids s.world.incoming) k.waiting (k.apart id i));
    numbered = rw en (erase-IsDistinct id s.numbered k.numbered);
    apart = λ j h. ground (arith, moved j, left j, h, k.apart j);
    waiting_issued =
        λ j h. ground (arith, moved j, h, ei, k.waiting_issued j, k.numbered_issued j, i);
    numbered_issued = λ j h. ground (arith, left j, h, ei, k.numbered_issued j);
  }
    where
      moved : (j : ℕ) → has j (ids s'.world.incoming) ≡ (has j (ids s.world.incoming) || (j == id))
      moved j =
          rw (ew, ids-append s.world.incoming (f ∷ []), ef)
            (ground (arith, has-append j (ids s.world.incoming) (id ∷ [])))

      left : (j : ℕ) → has j s'.numbered ≡ (not (j == id) && has j s.numbered)
      left j =
          rw en (ground (arith, has-erase id j s.numbered, has-erase_self id s.numbered k.numbered))
