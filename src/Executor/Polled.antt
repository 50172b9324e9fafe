-- ===== src/Executor/Polled.antt =====
-- The round of `poll_next` in which a task is polled.
use cosync.Base.{
  ℕ, ◌≡◌, refl, ap, ◌∙◌, true, false, Option, none, some, List, [], ◌∷◌, ◌++◌, ◌&&◌, not, arith,
  Ptr, has, erase, update, ◌==◌, leb,
}
use cosync.ReadyToRunQueue.{ReadyToRunQueue}
use cosync.AllTasks.{AllTasks}
use cosync.FuturesUnordered.{FuturesUnordered, link_all, release_task}
use cosync.FuturesUnordered.Valid.{IsPool-frame, IsPool}
use cosync.FuturesUnordered.Turns.{
  started, has-erase_iff, pending-IsPool, release-IsPool, released, release-released,
}
use cosync.Executor.{
  World, Script, FutureObject, Run, ok, panic, fault, out_of_fuel, Turn, again, or_first, exec,
  and_then, with_pool, after_poll, guarded, user, script, poll_task, poll_future, turn,
}
use cosync.Executor.Polls.{Polls, exec-Polls}
use cosync.Executor.Turns.{IsValid, run_task_lem}

module _ {Fut D : Type 0} (poll : Fut → Script Fut D) (initial : Option Ptr) (w : World Fut D) where
  -- The state in which `t` is polled.
  abbrev pub polling : ReadyToRunQueue → AllTasks → Ptr → World Fut D
  polling q a t = record w {
    pool = record (started w.pool q a t) {
      last_polled = update w.pool.last_polled t w.pool.poll_counter;
    };
    polled = w.polled ++ t ∷ [];
  }

  -- A task that was not polled in this cycle is polled.
  pub turn-poll :
      (t : Ptr) (xs ys : List Ptr)
      → IsValid w (t ∷ xs) ys
      → has t ys ≡ true
      → leb w.pool.poll_counter (w.pool.last_polled t) ≡ false
      → (q : ReadyToRunQueue) × (a : AllTasks) × (f : FutureObject Fut) × (w.pool.future t ≡ some f)
        × IsPool (polling q a t).pool xs (erase t ys) ys
        × (turn poll initial w
            ≡ and_then
                (guarded t (exec t (script poll f.body) (polling q a t)))
                (after_poll initial t f.id))
  unfolding poll_task poll_future
  turn-poll t xs ys v i b =
      let (q, a, f, ef, va, e) = run_task_lem poll initial w t xs ys v i in
      (q, a, f, ef, IsPool-frame (started w.pool q a t) xs (erase t ys) ys _ _ _ va, e ∙ rw b refl)

-- The task `t` at the head of the queue was polled, which left `w1`: it is gone, or pending, and then
-- it holds what is left of its future.
pub record Gone {Fut D : Type 0} (w w1 : World Fut D) (t : Ptr) (xs ys : List Ptr)
    (w' : World Fut D) : Type 0 where
  pub future : w'.pool.future ≡ update w1.pool.future t none
  pub unchanged : w' ≡ with_pool w1 w'.pool
  pub more : List Ptr
  pub valid : IsValid w' (xs ++ more) (erase t ys)
  pub last_polled : w'.pool.last_polled ≡ update w.pool.last_polled t w.pool.poll_counter
  pub poll_counter : w'.pool.poll_counter ≡ w.pool.poll_counter
  pub fresh : w'.pool.fresh ≡ w.pool.fresh

pub record Kept {Fut D : Type 0} (w w1 : World Fut D) (t : Ptr) (id : ℕ) (f : Fut)
    (xs ys : List Ptr) (w' : World Fut D) : Type 0 where
  pub future : w'.pool.future ≡ update w1.pool.future t (some (record { body = user f; id = id }))
  pub unchanged : w' ≡ with_pool w1 w'.pool
  pub more : List Ptr
  pub valid : IsValid w' (xs ++ more) (t ∷ erase t ys)
  pub last_polled : w'.pool.last_polled ≡ update w.pool.last_polled t w.pool.poll_counter
  pub poll_counter : w'.pool.poll_counter ≡ w.pool.poll_counter
  pub fresh : w'.pool.fresh ≡ w.pool.fresh

abbrev pub AfterPoll :
    {Fut D : Type 0}
    → Option Ptr
    → World Fut D
    → Ptr
    → ℕ
    → (xs ys : List Ptr) → Run Fut D (Option Fut)
    → Run Fut D Turn
    → Type 0
AfterPoll initial w t id xs ys (ok none w1) r =
    (w' : World _ _) × (r ≡ ok (again initial) w') × Gone w w1 t xs ys w'
AfterPoll initial w t id xs ys (ok (some f) w1) r =
    (w' : World _ _) × (r ≡ ok (again (or_first initial t)) w')
    × Kept w w1 t id f xs ys w'
    × (w'.pool.queued ≡ w1.pool.queued)
AfterPoll initial w t id xs ys (panic w1) r =
    (w' : World _ _) × (r ≡ panic w') × Gone w w1 t xs ys w'
AfterPoll initial w t id xs ys fault r = ⊥
AfterPoll initial w t id xs ys out_of_fuel r = ⊥

module _ {Fut D : Type 0} (initial : Option Ptr) (w : World Fut D) (t : Ptr) (id : ℕ) where
  after_poll-none :
      (w1 : World Fut D)
      → release_task w1.pool t ≡ some (released w1.pool t)
      → after_poll initial t id none w1 ≡ ok (again initial) (with_pool w1 (released w1.pool t))
  unfolding after_poll
  after_poll-none w1 e = ground (arith, e)

  after_poll-some :
      (f : Fut) (w1 : World Fut D) (p' : FuturesUnordered (FutureObject Fut))
      → link_all
          (record w1.pool {
            future = update w1.pool.future t (some (record { body = user f; id = id }));
          })
          t
        ≡ some p'
      → after_poll initial t id (some f) w1 ≡ ok (again (or_first initial t)) (with_pool w1 p')
  unfolding after_poll
  after_poll-some f w1 p' e = ground (arith, e)

  after_poll-AfterPoll :
      (p : FuturesUnordered (FutureObject Fut)) (xs ys : List Ptr) (r : Run Fut D (Option Fut))
      → has t ys ≡ true
      → has t (erase t ys) ≡ false
      → ((s : Ptr) → has s (erase t ys) ≡ (not (s == t) && has s ys))
      → p.last_polled ≡ update w.pool.last_polled t w.pool.poll_counter
      → p.poll_counter ≡ w.pool.poll_counter
      → p.fresh ≡ w.pool.fresh
      → Polls p xs (erase t ys) ys r
      → AfterPoll initial w t id xs ys r (and_then (guarded t r) (after_poll initial t id))
  after_poll-AfterPoll p xs ys (ok none w1) i o only el ec en s = (
    with_pool w1 (released w1.pool t),
    after_poll-none w1 (release-released w1.pool t _ _ ys s.valid i o only),
    record {
      future = refl;
      unchanged = refl;
      more = s.more;
      valid = release-IsPool w1.pool t _ _ ys s.valid i o only;
      last_polled = s.same.last_polled ∙ el;
      poll_counter = s.same.poll_counter ∙ ec;
      fresh = s.same.fresh ∙ en;
    },
  )
  after_poll-AfterPoll p xs ys (ok (some f) w1) i o only el ec en s =
      let (p', e, v, same) =
        pending-IsPool w1.pool t _ _ ys s.valid i o only (record { body = user f; id = id }) in
      (
        with_pool w1 p',
        after_poll-some f w1 p' e,
        record {
          future = ap (λ q. q.future) same;
          unchanged = refl;
          more = s.more;
          valid = v;
          last_polled = ap (λ q. q.last_polled) same ∙ s.same.last_polled ∙ el;
          poll_counter = ap (λ q. q.poll_counter) same ∙ s.same.poll_counter ∙ ec;
          fresh = ap (λ q. q.fresh) same ∙ s.same.fresh ∙ en;
        },
        ap (λ q. q.queued) same,
      )
  after_poll-AfterPoll p xs ys (panic w1) i o only el ec en s = (
    with_pool w1 (released w1.pool t),
    rw (release-released w1.pool t _ _ ys s.valid i o only, and_then) refl,
    record {
      future = refl;
      unchanged = refl;
      more = s.more;
      valid = release-IsPool w1.pool t _ _ ys s.valid i o only;
      last_polled = s.same.last_polled ∙ el;
      poll_counter = s.same.poll_counter ∙ ec;
      fresh = s.same.fresh ∙ en;
    },
  )
  after_poll-AfterPoll p xs ys fault i o only el ec en s = s
  after_poll-AfterPoll p xs ys out_of_fuel i o only el ec en s = s

module _ {Fut D : Type 0} (poll : Fut → Script Fut D) (initial : Option Ptr) (w : World Fut D) where
  -- A round of `poll_next` that takes a task of the pool not polled in this cycle polls its future
  -- once, in a state that is the one before but for the pool and the record of polls, with all
  -- futures in place. If that is ready or panics the task is gone; if it is pending the task is
  -- linked again and holds the future that the poll returned, with its id, and the other futures
  -- stay as the poll left them. The task is marked as polled in this cycle, and the first task that
  -- is pending is remembered.
  pub turn-AfterPoll :
      (t : Ptr) (xs ys : List Ptr)
      → IsValid w (t ∷ xs) ys
      → has t ys ≡ true
      → leb w.pool.poll_counter (w.pool.last_polled t) ≡ false
      → (w1 : World Fut D) × (f : FutureObject Fut) × (w.pool.future t ≡ some f)
        × (w1 ≡ record w { pool = w1.pool; polled = w.polled ++ t ∷ [] })
        × (w1.pool.future ≡ w.pool.future)
        × IsPool w1.pool xs (erase t ys) ys
        × AfterPoll initial w t f.id xs ys (exec t (script poll f.body) w1) (turn poll initial w)
  turn-AfterPoll t xs ys v i b =
      let (q, a, f, ef, v1, e) = turn-poll poll initial w t xs ys v i b in
      let only = has-erase_iff w.pool (t ∷ xs) ys ys v t in
      let w1 = polling poll initial w q a t in
      (
        w1,
        f,
        ef,
        refl,
        refl,
        v1,
        rw e (
            after_poll-AfterPoll initial w t f.id w1.pool xs ys (exec t (script poll f.body) w1) i
              (ground (arith, only t)) only refl refl refl
              (exec-Polls t (script poll f.body) w1 xs (erase t ys) ys v1)),
      )
