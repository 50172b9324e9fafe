-- ===== src/Driver/Rest.antt =====
-- `poll_pool` of src/lib.rs ends on futures that bring themselves nearer to their end, and what it
-- leaves.
use cosync.Base.{
  ℕ, suc, ◌+◌, ◌≤◌, ◌<◌, ◌≡◌, ◌^◌, refl, ◌∙◌, subst, Bool, true, false, Option, none, some, List,
  [], ◌∷◌, arith, Ptr, is_some, leb,
}
use cosync.FuturesUnordered.{u64, increment_counter}
use cosync.FuturesUnordered.Valid.{IsPool-frame}
use cosync.Executor.{World, Script, FutureObject, ok, with_pool}
use cosync.Executor.Turns.{IsValid}
use cosync.Executor.Works.{Works, rank, Fits, Below}
use cosync.Executor.Yields.{Yields-returns}
use cosync.Executor.Ends.{Ends}
use cosync.Driver.{drain, pool_loop, poll_pool}
use cosync.Driver.Pushed.{push_all-Pushed}
use cosync.Driver.Spread.{Kind, Each, News, push_all-Spread}
use cosync.Driver.Ends.{Stalled, pool_loop-Ends}

-- Between runs: the tasks wait in the queue, none was polled after the counter's cycle, and what is
-- left of them is `b` at most.
abbrev pub AtRest : {Fut : Type 0} → (Fut → ℕ) → ℕ → ℕ → Kind Fut
AtRest measure b n none q l = Unit
AtRest measure b n (some f) q l = (q ≡ true) × (rank measure f.body ≤ b) × (l ≤ n)

pub record Rested {Fut D : Type 0} (measure : Fut → ℕ) (b : ℕ) (w : World Fut D) : Type 0 where
  pub each : Each (AtRest measure b w.pool.poll_counter) w
  pub registering : w.pool.waker.registering ≡ false
  pub waking : w.pool.waker.waking ≡ false
  pub strong : w.strong ≡ 1
  pub incoming : Below measure (suc b) w.incoming

module _ {Fut D : Type 0} (measure : Fut → ℕ) (poll : Fut → Script Fut D)
    (works : (f : Fut) (t : Ptr) → Works measure t false (measure f) (poll f)) (b : ℕ) where
  Below-AtRest :
      (n : ℕ) (fs : List (FutureObject Fut))
      → Below measure (suc b) fs
      → News (AtRest measure b n) fs
  Below-AtRest n [] h = tt
  Below-AtRest n (f ∷ fs) (h, hs) = ((refl, omega (arith, h), omega arith), Below-AtRest n fs hs)

  AtRest-Fits :
      (n : ℕ) (o : Option (FutureObject Fut)) (q u : Bool) (l : ℕ)
      → AtRest measure b n o q l
      → Fits measure b b (leb (suc n) l) q u o
  AtRest-Fits n none q u l h = tt
  AtRest-Fits n (some f) q u l (h, r, m) =
      let unseen : leb (suc n) l ≡ false = ground (arith, m) in rw unseen (h, r)

  AtRest-mark :
      (n : ℕ) (o : Option (FutureObject Fut)) (q : Bool) (l : ℕ)
      → AtRest measure b n o q l
      → is_some o ≡ true
      → l ≤ suc n
  AtRest-mark n none q l h i = cc
  AtRest-mark n (some f) q l (h, r, m) i = omega (arith, m)

  poll_pool_lem :
      (n k : ℕ) (w w1 : World Fut D)
      → drain w ≡ ok tt w1
      → poll_pool poll n k w ≡ pool_loop poll n k (with_pool w1 (increment_counter w1.pool))
  unfolding poll_pool
  poll_pool_lem n k w w1 e = rw e refl

  pub poll_pool-Ends :
      (w : World Fut D) (xs ys : List Ptr)
      → IsValid w xs ys
      → Rested measure b w
      → is_some w.heap_ptr ≡ true
      → suc w.pool.poll_counter < 2 ^ 64
      → Ends (suc b) (λ n k j. poll_pool poll n k w) (Stalled measure b (suc w.pool.poll_counter))
  unfolding drain increment_counter
  poll_pool-Ends w xs ys v r i small =
      let emptied = record w { incoming = [] } in
      let (w1, e, k) = push_all-Pushed w.incoming emptied xs ys v in
      let c = w.pool.poll_counter in
      let spread =
        Yields-returns
          (push_all-Spread (AtRest measure b c) w.incoming emptied r.each
            (Below-AtRest c w.incoming r.incoming))
          e in
      let counts : u64 (w1.pool.poll_counter + 1) ≡ suc c =
        omega (arith, spread.poll_counter, small) in
      let turned = with_pool w1 (increment_counter w1.pool) in
      let h =
        pool_loop-Ends measure poll works b b turned _ k.tasks (omega arith) (omega (arith, counts))
          (IsPool-frame w1.pool _ k.tasks k.tasks _ _ _ k.valid)
          (record {
            fits = λ s. rw counts (AtRest-Fits c _ _ _ _ (spread.each s));
            marks = λ s i. rw counts (AtRest-mark c _ _ _ (spread.each s) i);
            registering = rw spread.waker r.registering;
            waking = rw spread.waker r.waking;
            strong = spread.strong ∙ r.strong;
            input = rw spread.heap_ptr i;
            incoming = rw spread.incoming tt;
          }) in
      record {
        enough = h.enough;
        value = h.value;
        state = h.state;
        settles = λ n k j l m o. poll_pool_lem n k w w1 e ∙ h.settles n k j l m o;
        post = subst (λ q. Stalled measure b q h.value h.state) counts h.post;
      }
