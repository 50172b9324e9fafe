-- ===== src/Driver/Open.antt =====
-- What a run sets up before the pool is polled: the mark of `enter`, and the parameter
-- in the box.
use cosync.Base.{
  is_some, ℕ, zero, suc, ◌≡◌, refl, sym, subst, ◌∙◌, true, Option, List, [], ◌∷◌, arith, Bool-cases,
  inl, inr,
}
use cosync.Notify.{Thread, wake_thread, wake_by_ref}
use cosync.FuturesUnordered.{push, increment_counter}
use cosync.Executor.{World, Script, FutureObject, with_pool, raw_queue}
use cosync.Executor.Frame.{
  Stable, Keeps, keeps_ok, keeps_out, and_then-Keeps, pool-Keeps, poll_next-Keeps, Obeys-any,
}
use cosync.Executor.Polls.{handle_unqueue_task_lem}
use cosync.Driver.{push_all, drain, pool_loop, poll_pool, no_incoming}

abbrev pub IsOpen : {Fut D : Type 0} → World Fut D → Type 0
IsOpen w = (w.thread.entered ≡ true) × (is_some w.heap_ptr ≡ true)

wake_thread-entered : (t : Thread) (r : Option ℕ) → (wake_thread t r).entered ≡ t.entered
unfolding wake_thread wake_by_ref
wake_thread-entered t r = ground arith

module _ {Fut D : Type 0} where
  IsOpen-Stable : Stable {Fut = Fut} {D = D} true IsOpen
  unfolding raw_queue wake_by_ref
  IsOpen-Stable = record {
    pool = λ w p o. o;
    woken = λ w p r o. (wake_thread-entered w.thread r ∙ o.0, o.1);
    yielded = λ w o. (ground (arith, o), o.1);
    written = λ w d o. (o.0, refl);
    queued = λ w f o. o;
    unqueued = λ m w id o. let (fs, e, k) = handle_unqueue_task_lem id w in subst IsOpen (sym e) o;
  }

module _ {Fut D : Type 0} (poll : Fut → Script Fut D) where
  push_all-Keeps :
      (fs : List (FutureObject Fut)) (w : World Fut D) → IsOpen w → Keeps IsOpen (push_all fs w)
  unfolding push_all
  push_all-Keeps [] w o = keeps_ok o
  push_all-Keeps (f ∷ fs) w o =
      pool-Keeps (push w.pool f) (λ p. push_all-Keeps fs (with_pool w p) o)

  drain-Keeps : (w : World Fut D) → IsOpen w → Keeps IsOpen (drain w)
  unfolding drain
  drain-Keeps w o = push_all-Keeps w.incoming (record w { incoming = [] }) o

  pool_loop-Keeps : (n k : ℕ) (w : World Fut D) → IsOpen w → Keeps IsOpen (pool_loop poll n k w)
  unfolding pool_loop
  pool_loop-Keeps n zero w o = keeps_out
  pool_loop-Keeps n (suc k) w o =
      and_then-Keeps
        (poll_next-Keeps IsOpen-Stable (λ w t o. o) poll (λ f. Obeys-any (poll f)) n w o)
        λ r w1 o1. elim (Bool-cases (no_incoming w1.incoming)) [
          | inl e ↦ rw e (keeps_ok o1)
          | inr e ↦ rw e (and_then-Keeps (drain-Keeps w1 o1) λ _ w2 o2. pool_loop-Keeps n k w2 o2)
        ]

  pub poll_pool-Keeps : (n k : ℕ) (w : World Fut D) → IsOpen w → Keeps IsOpen (poll_pool poll n k w)
  unfolding poll_pool increment_counter
  poll_pool-Keeps n k w o = and_then-Keeps (drain-Keeps w o) λ _ w1 o1. pool_loop-Keeps n k _ o1
