-- ===== src/Executor/Termination.antt =====
-- `poll_next` of src/futures/futures_unordered.rs on futures that wake themselves.
use cosync.Base.{
  ℕ, zero, suc, ◌<◌, ◌≡◌, ap, subst, Bool, true, false, Option, none, some, List, [], ◌∷◌, ◌++◌,
  arith, Ptr, has, erase, length, length-erase, Bool-cases, inl, inr, leb,
}
use cosync.Executor.{
  World, Script, FutureObject, Body, user, empty_block, Run, ok, panic, fault, out_of_fuel, exec,
  turn, poll_loop, poll_next, register_waker, script,
}
use cosync.Executor.Turns.{IsValid, register_waker-IsValid, turn-discard, turn-requeue}
use cosync.Executor.Polled.{AfterPoll, turn-AfterPoll}
use cosync.Executor.Wakeful.{WakesSelf, LeavesQueued, exec-LeavesQueued}
use cosync.Executor.Halts.{Halts, loop_again, panic-Halts, nil-Halts}
use cosync.Executor.Seen.{loop-Seen, has-split}

module _ {Fut D : Type 0} (poll : Fut → Script Fut D) where
  module _ (wakes : (f : Fut) (t : Ptr) → WakesSelf t false (poll f)) where
    wakes_body : (t : Ptr) (f : FutureObject Fut) → WakesSelf t false (script poll f.body)
    wakes_body t f = go f.body
      where
        go : (b : Body Fut) → WakesSelf t false (script poll b)
        go (user f) = wakes f t
        go empty_block = tt

    -- A task is polled before `initial_task_id` is set.
    first_polled :
        (t : Ptr) (id : ℕ) (w : World Fut D) (xs ys : List Ptr)
        → ((zs : List Ptr) (w' : World Fut D)
            → IsValid w' zs (erase t ys)
            → Halts (λ n. poll_loop poll n none w'))
        → has t ys ≡ true
        → (r : Run Fut D (Option Fut)) → LeavesQueued t r
        → AfterPoll none w t id xs ys r (turn poll none w)
        → Halts (λ n. poll_loop poll n none w)
    first_polled t id w xs ys rec live (ok none w1) l (w', e, g) =
        loop_again poll none none w w' e (rec (xs ++ g.more) w' g.valid)
    first_polled t id w xs ys rec live (ok (some f) w1) l (w', e, g, q) =
        let queued : has t (xs ++ g.more) ≡ true =
          ground (arith, g.valid.marked t, ap (λ (h : Ptr → Bool). h t) q) in
        let (pre, bs, split) = has-split poll t (xs ++ g.more) queued in
        loop_again poll none (some t) w w' e (
          loop-Seen poll pre t bs w' (t ∷ erase t ys)
            (subst (λ zs. IsValid w' zs (t ∷ erase t ys)) split g.valid) (ground arith)
            (rw (g.last_polled, g.poll_counter) (ground arith)))
    first_polled t id w xs ys rec live (panic w1) l (w', e, g) =
        panic-Halts poll none w w' _ _ e g.valid
    first_polled t id w xs ys rec live fault l a = absurd a
    first_polled t id w xs ys rec live out_of_fuel l a = absurd a

    -- Before that, tasks only leave: those in the queue whose future is gone, and those that end.
    loop-Halts :
        (m : ℕ) (xs ys : List Ptr) (w : World Fut D)
        → length ys < m
        → IsValid w xs ys
        → Halts (λ n. poll_loop poll n none w)
    loop-Halts zero xs ys w h v = absurd (omega arith)
    loop-Halts (suc m) [] ys w h v = nil-Halts poll none w ys v
    loop-Halts (suc m) (t ∷ xs) ys w h v = elim (Bool-cases (has t ys)) [
      | inr gone ↦
          let (w', e, v', el, ec, en) = turn-discard poll none w t xs ys v gone in
          loop_again poll none none w w' e (loop-Halts (suc m) xs ys w' h v')
      | inl live ↦ elim (Bool-cases (leb w.pool.poll_counter (w.pool.last_polled t))) [
        | inl seen ↦
            let (w', e, v', el, ec, en) = turn-requeue poll none w t xs ys v live seen in
            loop_again poll none (some t) w w' e
              (loop-Seen poll xs t [] w' (t ∷ erase t ys) v' (ground arith) (rw (el, ec) seen))
        | inr unseen ↦
            let (w1, f, ef, eb, eu, v1, a) = turn-AfterPoll poll none w t xs ys v live unseen in
            first_polled t f.id w xs ys
              (λ zs w' v'.
                loop-Halts m zs (erase t ys) w' (omega (arith, length-erase t ys live)) v')
              live (exec t (script poll f.body) w1)
              (exec-LeavesQueued t false (script poll f.body) w1 xs (erase t ys) ys v1
                (wakes_body t f) (λ g. cc))
              a
      ]
    ]

    -- If every future that returns pending has woken its own task before, then `poll_next` on a
    -- valid pool returns: from some fuel on the result is always the same one. It is no undefined
    -- behaviour and no failed assertion; the pool it leaves is valid, and without a panic of a
    -- future it says ready if and only if no task is left.
    pub poll_next-Halts :
        (w : World Fut D) (xs ys : List Ptr) → IsValid w xs ys → Halts (λ n. poll_next poll n w)
    unfolding poll_next
    poll_next-Halts w xs ys v =
        loop-Halts (suc (length ys)) xs ys (register_waker w) (omega arith)
          (register_waker-IsValid w xs ys v)
