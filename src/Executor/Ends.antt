-- ===== src/Executor/Ends.antt =====
-- `poll_next` of src/futures/futures_unordered.rs ends on futures that bring themselves nearer to
-- their end, and what it leaves.
use cosync.Base.{
  ℕ, ◌+◌, ◌-◌, ◌≤◌, ◌≡◌, inr, refl, sym, ap, ◌∙◌, subst, true, false, none, List, arith, Ptr, has,
  is_some, length,
}
use cosync.AtomicWaker
use cosync.AtomicWaker.{try_register, set_waker, finish_register}
use cosync.Notify.{wake_thread}
use cosync.Executor.{
  World, Script, Run, ok, panic, fault, out_of_fuel, Poll, poll_next, register_waker,
}
use cosync.Executor.Turns.{IsValid, outcome}
use cosync.Executor.Safety.{IsSafe, poll_next-IsSafe}
use cosync.Executor.Rounds.{is_seen}
use cosync.Executor.Cycle.{Progress, Progresses, poll_next-Progresses}
use cosync.Executor.Halts.{Finished}
use cosync.Executor.Termination.{poll_next-Halts}
use cosync.Executor.Works.{Works, Works-WakesSelf, every, Fits, Fits-queued, Below, Tracked, Armed}
use cosync.Executor.Yields.{Yields, yields_ok, yields_fault, yields_out}
use cosync.Executor.Onward.{loop-Yields}

-- With enough fuel the code returns, always the same. The first fuel is that of `poll_next`; the
-- others are those of the loops of `poll_pool` and of `run_blocking`.
pub record Ends {Fut D A : Type 0} (least : ℕ) (m : ℕ → ℕ → ℕ → Run Fut D A)
    (Post : A → World Fut D → Type 0) : Type 0 where
  pub enough : ℕ
  pub value : A
  pub state : World Fut D
  pub settles : (n k j : ℕ) → enough ≤ n → least ≤ k → least ≤ j → m n k j ≡ ok value state
  pub post : Post value state

-- What `poll_next` needs: no other thread is within `register` or `take`.
pub record Waiting {Fut D : Type 0} (measure : Fut → ℕ) (b c : ℕ) (w : World Fut D) : Type 0 where
  pub fits :
      (s : Ptr)
      → Fits measure b c (is_seen w s) (w.pool.queued s) w.thread.unparked (w.pool.future s)
  pub marks :
      (s : Ptr) → is_some (w.pool.future s) ≡ true → w.pool.last_polled s ≤ w.pool.poll_counter
  pub registering : w.pool.waker.registering ≡ false
  pub waking : w.pool.waker.waking ≡ false
  pub strong : w.strong ≡ 1
  pub input : is_some w.heap_ptr ≡ true
  pub incoming : Below measure c w.incoming

-- What it leaves: all tasks were polled in this cycle.
pub record Advanced {Fut D : Type 0} (measure : Fut → ℕ) (b c : ℕ) (w : World Fut D) (r : Poll)
    (w' : World Fut D) : Type 0 where
  pub queue : List Ptr
  pub tasks : List Ptr
  pub valid : IsValid w' queue tasks
  pub tracked : Tracked measure b c every w'
  pub seen : (s : Ptr) → has s tasks ≡ true → is_seen w' s ≡ true
  pub told : r ≡ outcome tasks
  pub poll_counter : w'.pool.poll_counter ≡ w.pool.poll_counter

pub register_waker-Armed :
    {Fut D : Type 0} (w : World Fut D)
    → w.pool.waker.registering ≡ false
    → w.pool.waker.waking ≡ false
    → Armed (register_waker w)
unfolding register_waker AtomicWaker.register try_register set_waker finish_register wake_thread
register_waker-Armed w e h =
    rw (e, h) (record { registering = refl; waking = refl; alarm = inr refl })

register_waker-Tracked :
    {Fut D : Type 0} (measure : Fut → ℕ) (b c : ℕ) (w : World Fut D)
    → Waiting measure b c w
    → Tracked measure b c every (register_waker w)
unfolding register_waker AtomicWaker.register try_register set_waker finish_register wake_thread
register_waker-Tracked measure b c w k =
    rw (k.registering, k.waking)
      (record {
        fits = λ s o. k.fits s;
        marks = λ s i. k.marks s (ground (arith, i));
        armed = record { registering = refl; waking = refl; alarm = inr refl };
        strong = k.strong;
        input = k.input;
        incoming = k.incoming;
      })

module _ {Fut D : Type 0} (measure : Fut → ℕ) (poll : Fut → Script Fut D)
    (works : (f : Fut) (t : Ptr) → Works measure t false (measure f) (poll f)) (b c : ℕ)
    (cb : c ≤ b) where
  module _ (w : World Fut D) (xs ys : List Ptr) (v : IsValid w xs ys)
      (k : Waiting measure b c w) where
    was_queued : (s : Ptr) → has s ys ≡ true → has s xs ≡ true
    was_queued s i =
        let live : is_some (w.pool.future s) ≡ true = v.futures s ∙ i in
        let queued = Fits-queued measure b c _ _ _ _ (k.fits s) live in
        ground (arith, v.marked s, queued, i)

    all_seen :
        (w' : World Fut D) (xs' ys' : List Ptr)
        → IsValid w' xs' ys'
        → Progress w xs ys w'
        → (s : Ptr) → has s ys' ≡ true
        → is_seen w' s ≡ true
    all_seen w' xs' ys' v' p s i =
        let left : has s p.tasks ≡ true = sym (p.valid.futures s) ∙ v'.futures s ∙ i in
        p.todo_seen s (was_queued s (p.no_new s left)) left

    ended :
        (r : Run Fut D Poll)
        → Yields (Tracked measure b c every) r
        → Progresses w xs ys r
        → IsSafe (length ys) r
        → Finished r
        → (p : Poll) × (w' : World Fut D) × (r ≡ ok p w') × Advanced measure b c w p w'
    ended (ok p w') (yields_ok y) pr (xs', ys', v', h, o) f = (
      p,
      w',
      refl,
      record {
        queue = xs';
        tasks = ys';
        valid = v';
        tracked = y;
        seen = all_seen w' xs' ys' v' pr;
        told = o;
        poll_counter = pr.poll_counter;
      },
    )
    ended (panic w') y pr s f = elim y [ ]
    ended fault yields_fault pr s f = absurd f
    ended out_of_fuel yields_out pr s f = absurd f

    next-Yields : (n : ℕ) → Yields (Tracked measure b c every) (poll_next poll n w)
    unfolding poll_next
    next-Yields n =
        loop-Yields measure poll works b c cb n none (register_waker w)
          (register_waker-Tracked measure b c w k)

    pub poll_next-Ends : Ends 0 (λ n k j. poll_next poll n w) (Advanced measure b c w)
    poll_next-Ends =
        let h =
          poll_next-Halts poll
            (λ f t. Works-WakesSelf measure t false (measure f) (poll f) (works f t)) w xs ys v in
        let same : poll_next poll h.enough w ≡ h.result =
          (let none_more : h.enough ≡ 0 + h.enough = omega arith in
            ap (λ i. poll_next poll i w) none_more ∙ h.settles 0) in
        let (p, w', e, a) =
          ended h.result (subst (Yields (Tracked measure b c every)) same (next-Yields h.enough))
            (subst (Progresses w xs ys) same (poll_next-Progresses poll h.enough w xs ys v))
            (subst (IsSafe (length ys)) same
              (poll_next-IsSafe poll (length ys) h.enough w (xs, ys, v, omega arith)))
            h.finished in
        record {
          enough = h.enough;
          value = p;
          state = w';
          settles = λ n k j l kl jl.
              let split : n ≡ (n - h.enough) + h.enough = omega arith in
              ap (λ i. poll_next poll i w) split ∙ h.settles (n - h.enough) ∙ e;
          post = a;
        }
