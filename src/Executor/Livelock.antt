-- ===== src/Executor/Livelock.antt =====
-- When the first task to return pending in a cycle has not woken itself.
use cosync.Base.{
  ℕ, zero, suc, ◌≡◌, refl, true, false, some, List, [], ◌∷◌, ◌++◌, arith, Ptr, has, has-append,
  has-erase, erase, leb, ◌==◌,
}
use cosync.Executor.{World, Script, out_of_fuel, poll_loop}
use cosync.Executor.Turns.{IsValid, turn-requeue}

-- Every task in the queue is in the pool and was polled in this cycle.
abbrev pub AllSeen : {Fut D : Type 0} → World Fut D → List Ptr → List Ptr → Type 0
AllSeen w ys [] = Unit
AllSeen w ys (t ∷ xs) =
    (has t ys ≡ true) × (leb w.pool.poll_counter (w.pool.last_polled t) ≡ true) × AllSeen w ys xs

module _ {Fut D : Type 0} (poll : Fut → Script Fut D) (a : Ptr) where
  AllSeen-requeue :
      (w w' : World Fut D) (ys : List Ptr) (t : Ptr) (xs zs : List Ptr)
      → w'.pool.last_polled ≡ w.pool.last_polled
      → w'.pool.poll_counter ≡ w.pool.poll_counter
      → AllSeen w ys xs
      → AllSeen w' (t ∷ erase t ys) zs
      → AllSeen w' (t ∷ erase t ys) (xs ++ zs)
  AllSeen-requeue w w' ys t [] zs el ec s r = r
  AllSeen-requeue w w' ys t (x ∷ xs) zs el ec s r = (
    ground (arith, has-erase t x ys, s.0),
    rw (el, ec) (s.1),
    AllSeen-requeue w w' ys t xs zs el ec (s.2) r,
  )

  -- If every task in the ready to run queue is in the pool and was polled in this cycle, the queue
  -- is not empty, and the remembered task is not in it, then the loop of `poll_next` never ends: no
  -- fuel is enough.
  pub livelock :
      (n : ℕ) (w : World Fut D) (t : Ptr) (xs ys : List Ptr)
      → IsValid w (t ∷ xs) ys
      → AllSeen w ys (t ∷ xs)
      → has a (t ∷ xs) ≡ false
      → poll_loop poll n (some a) w ≡ out_of_fuel
  unfolding poll_loop
  livelock zero w t xs ys v s o = refl
  livelock (suc n) w t [] ys v s o =
      let (w', e, v', el, ec, en) = turn-requeue poll (some a) w t [] ys v (s.0) (s.1) in
      let apart : (a == t) ≡ false = ground arith in
      let s' =
        AllSeen-requeue w w' ys t [] (t ∷ []) el ec tt (ground arith, rw (el, ec) (s.1), tt) in
      rw (e, apart) (livelock n w' t [] (t ∷ erase t ys) v' s' o)
  livelock (suc n) w t (x ∷ xs) ys v s o =
      let (w', e, v', el, ec, en) = turn-requeue poll (some a) w t (x ∷ xs) ys v (s.0) (s.1) in
      let apart : (a == t) ≡ false = ground arith in
      let s' =
        AllSeen-requeue w w' ys t (x ∷ xs) (t ∷ []) el ec (s.2)
          (ground arith, rw (el, ec) (s.1), tt) in
      rw (e, apart)
        (livelock n w' x (xs ++ t ∷ []) (t ∷ erase t ys) v' s'
          (ground (arith, has-append a (x ∷ xs) (t ∷ []))))
