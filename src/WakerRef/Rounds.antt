-- ===== src/WakerRef/Rounds.antt =====
-- The counts in a round of `poll_next` of src/futures/futures_unordered.rs.
use cosync.Base.{
  ℕ, ◌≡◌, refl, true, false, ◌||◌, ◌&&◌, not, Option, none, some, List, [], ◌∷◌, ◌++◌, arith, Ptr,
  has, update, erase, has-append, ◌==◌, leb, Option-cases, Bool-cases, inl, inr,
}
use cosync.ReadyToRunQueue.{ReadyToRunQueue}
use cosync.ReadyToRunQueue.Contents.{Holds, Holds-IsDistinct}
use cosync.FuturesUnordered.{FuturesUnordered, unlink_all, link_all, enqueue_task}
use cosync.FuturesUnordered.Valid.{IsPool, IsPool-frame}
use cosync.FuturesUnordered.Turns.{
  with_queue, started, with_queue-IsPool, dequeue_task_lem, discard-IsPool, start-IsPool,
  requeue-IsPool, pending-IsPool, release-released, release-IsPool, released, requeued,
  has-erase_iff,
}
use cosync.WakerRef.{
  Counted, with_pool, with_count, release, discard, put_back, start, round, finish_pending,
}
use cosync.WakerRef.Counts.{IsCounted, drop_arc-IsCounted}

-- No task is polled, and the task `t` is polled: `Bomb` holds its reference.
abbrev pub Idle : {Fut : Type 0} → (Ptr → ℕ) → Counted Fut → Type 0
Idle wakers s = (xs : List Ptr) × (ys : List Ptr) × IsCounted s wakers xs ys ys

pub record Polling {Fut : Type 0} (wakers : Ptr → ℕ) (t : Ptr) (s : Counted Fut) : Type 0 where
  pub queue : List Ptr
  pub tasks : List Ptr
  pub live : List Ptr
  pub counted : IsCounted s wakers queue tasks live
  pub holds : has t live ≡ true
  pub unlinked : has t tasks ≡ false
  pub only : (q : Ptr) → has q tasks ≡ (not (q == t) && has q live)

abbrev pub Ends : {Fut : Type 0} → (Ptr → ℕ) → Option Ptr → Counted Fut → Type 0
Ends wakers none s = Idle wakers s
Ends wakers (some t) s = Polling wakers t s

module _ {Fut : Type 0} (s : Counted Fut) (wakers : Ptr → ℕ) where
  -- The pool changes, but not the tasks that have a reference of it.
  pub same-IsCounted :
      (p : FuturesUnordered Fut) (xs ys live xs' ys' live' : List Ptr)
      → IsCounted s wakers xs ys live
      → IsPool p xs' ys' live'
      → ((q : Ptr) → (has q xs' || has q live') ≡ (has q xs || has q live))
      → p.fresh ≡ s.pool.fresh
      → IsCounted (with_pool s p) wakers xs' ys' live'
  same-IsCounted p xs ys live xs' ys' live' v k same e = record {
    pool = k;
    count = λ q b. ground (arith, v.count q b, same q);
    owned = λ q o. ground (arith, v.owned q o, e);
  }

module _ {Fut : Type 0} (s : Counted Fut) (wakers : Ptr → ℕ) (t : Ptr)
    (k : Polling wakers t s) where
  pub finish_pending-Idle :
      (f : Fut)
      → (s' : Counted Fut) × (finish_pending t f s ≡ some s') × Idle wakers s' × (s'.refs ≡ s.refs)
  unfolding finish_pending
  finish_pending-Idle f =
      let (p, e, v, same) =
        pending-IsPool s.pool t k.queue k.tasks k.live k.counted.pool k.holds k.unlinked k.only f in
      (
        with_pool s p,
        rw e refl,
        (
          k.queue,
          t ∷ k.tasks,
          same-IsCounted s wakers p k.queue k.tasks k.live k.queue (t ∷ k.tasks) (t ∷ k.tasks)
              k.counted v (λ q. ground (arith, k.only q, k.holds)) (ground (arith, same)),
        ),
        refl,
      )

  pub release-IsCounted :
      (s' : Counted Fut) × (release t s ≡ some s')
      × IsCounted s' wakers k.queue k.tasks k.tasks
      × (s'.refs ≡ s.refs)
  unfolding release
  release-IsCounted =
      let v = k.counted in
      let p = released s.pool t in
      let kept = release-IsPool s.pool t k.queue k.tasks k.live v.pool k.holds k.unlinked k.only in
      let e = release-released s.pool t k.queue k.tasks k.live v.pool k.holds k.unlinked k.only in
      let used = v.pool.live_used t k.holds in
      elim (Bool-cases (s.pool.queued t)) [
        | inl m ↦ (
          with_pool s p,
          ground (arith, e, m),
          same-IsCounted s wakers p k.queue k.tasks k.live k.queue k.tasks k.tasks v kept
              (λ q. ground (arith, k.only q, k.holds, v.pool.marked t, m)) refl,
          refl,
        )
        | inr m ↦
            let (n, d, v') =
              drop_arc-IsCounted (with_pool s p) wakers k.queue k.tasks k.tasks t (used.0) kept
                (λ q b. ground (arith, v.count q b, k.only q, k.holds, v.pool.marked t, m))
                v.owned in
            (with_count (with_pool s p) t n, ground (arith, e, m, d), v', refl)
      ]

module _ {Fut : Type 0} (s : Counted Fut) (wakers : Ptr → ℕ) (t : Ptr) (xs ys : List Ptr)
    (v : IsCounted s wakers (t ∷ xs) ys ys) (q : ReadyToRunQueue) (h : Holds q xs) where
  abbrev taken : Counted Fut
  taken = with_pool s (with_queue s.pool q)

  distinct : has t xs ≡ false
  distinct = (Holds-IsDistinct _ _ v.pool.waiting).0

  discard-Idle :
      has t ys ≡ false
      → (s' : Counted Fut) × (discard t taken ≡ some s') × Idle wakers s' × (s'.refs ≡ s.refs)
  unfolding discard
  discard-Idle o =
      let used = v.pool.waiting_used t (ground arith) in
      let (n, d, v') =
        drop_arc-IsCounted taken wakers xs ys ys t (used.0)
          (discard-IsPool s.pool t xs ys v.pool q h o)
          (λ p b. ground (arith, v.count p b, distinct, o)) v.owned in
      (with_count taken t n, ground (arith, d, v.pool.tasks.outside t o), (xs, ys, v'), refl)

  start-Ends :
      has t ys ≡ true
      → (r : Option Ptr) × (s' : Counted Fut) × (start t taken ≡ some (r, s'))
        × Ends wakers r s'
        × (s'.refs ≡ s.refs)
  unfolding start put_back unlink_all link_all enqueue_task
  start-Ends i =
      let (a, e, k) = start-IsPool s.pool t xs ys v.pool q h i in
      let p = started s.pool q a t in
      let marked : s.pool.queued t ≡ true = ground (arith, v.pool.marked t) in
      let only : (p : Ptr) → has p (erase t ys) ≡ (not (p == t) && has p ys) =
        has-erase_iff s.pool (t ∷ xs) ys ys v.pool t in
      let out : has t (erase t ys) ≡ false = ground (arith, only t) in
      elim (Bool-cases (leb s.pool.poll_counter (s.pool.last_polled t))) [
        | inl b ↦
            let (a2, q2, ea, eq, k2) =
              requeue-IsPool p t xs (erase t ys) ys k i out distinct only in
            (
              none,
              with_pool s (requeued p q2 a2 t),
              ground (arith, e, marked, b, ea, eq),
              (
                xs ++ t ∷ [],
                t ∷ erase t ys,
                same-IsCounted s wakers (requeued p q2 a2 t) (t ∷ xs) ys ys (xs ++ t ∷ [])
                    (t ∷ erase t ys) (t ∷ erase t ys) v k2
                    (λ p. ground (arith, only p, has-append p xs (t ∷ []))) refl,
              ),
              refl,
            )
        | inr b ↦
            let p2 = record p { last_polled = update p.last_polled t p.poll_counter } in
            (
              some t,
              with_pool s p2,
              ground (arith, e, marked, b),
              record {
                queue = xs;
                tasks = erase t ys;
                live = ys;
                counted =
                    same-IsCounted s wakers p2 (t ∷ xs) ys ys xs (erase t ys) ys v
                      (IsPool-frame p xs (erase t ys) ys _ _ _ k) (λ p. ground (arith, i)) refl;
                holds = i;
                unlinked = out;
                only = only;
              },
              refl,
            )
      ]

module _ {Fut : Type 0} (s : Counted Fut) (wakers : Ptr → ℕ) where
  pub round-Ends :
      (xs ys : List Ptr)
      → IsCounted s wakers xs ys ys
      → (r : Option Ptr) × (s' : Counted Fut) × (round s ≡ some (r, s'))
        × Ends wakers r s'
        × (s'.refs ≡ s.refs)
  unfolding round
  round-Ends [] ys v =
      let (q, e, h) = dequeue_task_lem s.pool [] ys ys v.pool in
      (
        none,
        with_pool s (with_queue s.pool q),
        ground (arith, e),
        (
          [],
          ys,
          record {
            pool = with_queue-IsPool s.pool [] ys ys v.pool q h;
            count = v.count;
            owned = v.owned;
          },
        ),
        refl,
      )
  round-Ends (t ∷ xs) ys v =
      let (q, e, h) = dequeue_task_lem s.pool (t ∷ xs) ys ys v.pool in
      elim (Bool-cases (has t ys)) [
        | inl i ↦
            let (r, s', d, k, a) = start-Ends s wakers t xs ys v q h i in
            (r, s', ground (arith, e, d, v.pool.futures t, i, Option-cases (s.pool.future t)), k, a)
        | inr i ↦
            let (s', d, k, a) = discard-Idle s wakers t xs ys v q h i in
            (
              none,
              s',
              ground (arith, e, d, v.pool.futures t, i, Option-cases (s.pool.future t)),
              k,
              a,
            )
      ]
