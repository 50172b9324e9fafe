-- ===== src/WakerRef/Seen.antt =====
-- The counts in every phase of the owner of the pool of src/futures/futures_unordered.rs.
use cosync.Base.{
  suc, ◌≤◌, length-bound, ℕ, ◌<◌, ◌≡◌, ◌∙◌, true, Option, none, some, List, [], arith, Ptr, has,
  length,
}
use cosync.AllTasks.Linked.{Linked-IsDistinct}
use cosync.WakerRef.{Counted, push_task}
use cosync.WakerRef.Counts.{IsCounted, push_task-IsCounted}
use cosync.WakerRef.Rounds.{Idle, Polling, Ends}
use cosync.WakerRef.Upgrades.{queue-fits}
use cosync.WakerRef.Uses.{Shared, Phase, idle, polling, dropped, phase_of, fuel, IsThere}

-- The queue has a reference of the pool, until that is dropped, and one of every wake under way.
abbrev pub Stands : {Fut : Type 0} → List Ptr → (Ptr → ℕ) → Phase → Counted Fut → Type 0
Stands fl w idle c = Idle w c × (c.refs ≡ suc (length fl))
Stands fl w (polling t) c = Polling w t c × (c.refs ≡ suc (length fl))
Stands {Fut} fl w dropped c =
    (xs : List Ptr) × IsCounted c w xs [] [] × (c.refs ≡ length fl) × (length fl ≡ 0 → xs ≡ [])

-- A wake under way has its waker.
abbrev pub Borrows : List Ptr → (Ptr → ℕ) → Type 0
Borrows fl w = (t : Ptr) → has t fl ≡ true → 1 ≤ w t

abbrev pub In : {Fut : Type 0} → Shared Fut → Type 0
In s = Stands s.flying s.wakers s.phase s.counted × Borrows s.flying s.wakers

-- What an operation of a waker needs, and the phase is left as it is.
pub record Seen {Fut : Type 0} (fl : List Ptr) (w : Ptr → ℕ) (ph : Phase) (c : Counted Fut)
    : Type 0 where
  pub queue : List Ptr
  pub tasks : List Ptr
  pub live : List Ptr
  pub counted : IsCounted c w queue tasks live
  pub polled : (t : Ptr) → ph ≡ polling t → has t live ≡ true
  pub back :
      (c' : Counted Fut) (w' : Ptr → ℕ) (xs : List Ptr)
      → IsCounted c' w' xs tasks live
      → c'.refs ≡ c.refs
      → (c.refs ≡ 0 → xs ≡ queue)
      → Stands fl w' ph c'

module _ {Fut : Type 0} (fl : List Ptr) (w : Ptr → ℕ) (c : Counted Fut) where
  pub see : (ph : Phase) → Stands fl w ph c → Seen fl w ph c
  see idle ((xs, ys, v), a) = record {
    queue = xs;
    tasks = ys;
    live = ys;
    counted = v;
    polled = λ t e. cc;
    back = λ c' w' xs' v' e k. ((xs', ys, v'), e ∙ a);
  }
  see (polling t) (k, a) = record {
    queue = k.queue;
    tasks = k.tasks;
    live = k.live;
    counted = k.counted;
    polled = λ q e. ground (arith, e, k.holds);
    back = λ c' w' xs' v' e f. (
      record {
        queue = xs';
        tasks = k.tasks;
        live = k.live;
        counted = v';
        holds = k.holds;
        unlinked = k.unlinked;
        only = k.only;
      },
      e ∙ a,
    );
  }
  see dropped (xs, v, a, z) = record {
    queue = xs;
    tasks = [];
    live = [];
    counted = v;
    polled = λ t e. cc;
    back = λ c' w' xs' v' e f. (xs', v', e ∙ a, λ d. f (a ∙ d) ∙ z d);
  }

  pub push-In :
      (ph : Phase) (f : Fut)
      → Stands fl w ph c
      → IsThere ph
      → (c' : Counted Fut) × (push_task f c ≡ some c') × Stands fl w ph c'
  push-In idle f ((xs, ys, v), a) u =
      let (c', e, v', b) = push_task-IsCounted c w xs ys ys v f in (c', e, ((_, _, v'), b ∙ a))
  push-In (polling t) f (k, a) u =
      let (c', e, v', b) = push_task-IsCounted c w k.queue k.tasks k.live k.counted f in
      let used = k.counted.pool.live_used t k.holds in
      (
        c',
        e,
        (
          record {
            queue = _;
            tasks = _;
            live = _;
            counted = v';
            holds = ground (arith, k.holds);
            unlinked = ground (arith, k.unlinked);
            only = λ q. ground (arith, k.only q);
          },
          b ∙ a,
        ),
      )
  push-In dropped f i u = absurd u

  pub enough :
      (xs ys : List Ptr) → IsCounted c w xs ys ys → (length xs < fuel c) × (length ys < fuel c)
  enough xs ys v = (
    queue-fits c w xs ys ys v,
    omega (
      arith,
      length-bound c.pool.fresh ys (Linked-IsDistinct _ _ _ _ ys v.pool.tasks.linked)
          (λ t i. (v.pool.live_used t i).1),
    ),
  )

  pub polled_end :
      (r : Option Ptr) (c' : Counted Fut)
      → Ends w r c'
      → c'.refs ≡ suc (length fl)
      → Stands fl w (phase_of r) c'
  polled_end none c' e a = (e, a)
  polled_end (some t) c' e a = (e, a)
