-- ===== src/WakerRef/Owner.antt =====
-- The operations of the owner of the pool of src/futures/futures_unordered.rs, and the counts.
use cosync.Base.{ℕ, refl, ◌∙◌, List, length, [], Ptr}
use cosync.FuturesUnordered.{increment_counter}
use cosync.FuturesUnordered.Valid.{IsPool-frame}
use cosync.WakerRef.{with_pool, Counted}
use cosync.WakerRef.Rounds.{round-Ends, finish_pending-Idle, release-IsCounted}
use cosync.WakerRef.Drops.{clear-IsCounted}
use cosync.WakerRef.Upgrades.{drop_pool-IsCounted}
use cosync.WakerRef.Uses.{
  Phase, idle, polling, dropped, Shared, round_op, increment_op, pending_op, release_op, clear_op,
  drop_pool_op, phase_of, fuel, perform, IsIdle, IsPolling,
}
use cosync.WakerRef.Seen.{Stands, Borrows, enough, polled_end}
use cosync.WakerRef.Performed.{Performed}

module _ {Fut : Type 0} (fl : List Ptr) (c : Counted Fut) (w : Ptr → ℕ) (bs : Borrows fl w) where
  abbrev at : Phase → Shared Fut
  at ph = record { counted = c; wakers = w; flying = fl; phase = ph }

  pub increment_op-Performed :
      (ph : Phase) → Stands fl w ph c → IsIdle ph → Performed increment_op (at ph)
  unfolding perform increment_counter
  increment_op-Performed idle ((xs, ys, v), a) h = record {
    after = record {
      counted = with_pool c (increment_counter c.pool);
      wakers = w;
      flying = fl;
      phase = idle;
    };
    performs = refl;
    inside = (
      (
        (
          xs,
          ys,
          record {
            pool = IsPool-frame c.pool xs ys ys _ _ _ v.pool;
            count = v.count;
            owned = v.owned;
          },
        ),
        a,
      ),
      bs,
    );
  }
  increment_op-Performed (polling t) i h = absurd h
  increment_op-Performed dropped i h = absurd h

  pub round_op-Performed : (ph : Phase) → Stands fl w ph c → IsIdle ph → Performed round_op (at ph)
  unfolding perform
  round_op-Performed idle ((xs, ys, v), a) h =
      let (r, c', e, k, b) = round-Ends c w xs ys v in
      record {
        after = record { counted = c'; wakers = w; flying = fl; phase = phase_of r };
        performs = rw e refl;
        inside = (polled_end fl w c r c' k (b ∙ a), bs);
      }
  round_op-Performed (polling t) i h = absurd h
  round_op-Performed dropped i h = absurd h

  pub pending_op-Performed :
      (f : Fut) (ph : Phase) → Stands fl w ph c → IsPolling ph → Performed (pending_op f) (at ph)
  unfolding perform
  pending_op-Performed f idle i h = absurd h
  pending_op-Performed f (polling t) (k, a) h =
      let (c', e, v, b) = finish_pending-Idle c w t k f in
      record {
        after = record { counted = c'; wakers = w; flying = fl; phase = idle };
        performs = rw e refl;
        inside = ((v, b ∙ a), bs);
      }
  pending_op-Performed f dropped i h = absurd h

  pub release_op-Performed :
      (ph : Phase) → Stands fl w ph c → IsPolling ph → Performed release_op (at ph)
  unfolding perform
  release_op-Performed idle i h = absurd h
  release_op-Performed (polling t) (k, a) h =
      let (c', e, v, b) = release-IsCounted c w t k in
      record {
        after = record { counted = c'; wakers = w; flying = fl; phase = idle };
        performs = rw e refl;
        inside = (((k.queue, k.tasks, v), b ∙ a), bs);
      }
  release_op-Performed dropped i h = absurd h

  pub clear_op-Performed : (ph : Phase) → Stands fl w ph c → IsIdle ph → Performed clear_op (at ph)
  unfolding perform
  clear_op-Performed idle ((xs, ys, v), a) h =
      let (hx, hy) = enough fl w c xs ys v in
      let (c', e, v', b) = clear-IsCounted w (fuel c) c xs ys v hx hy in
      record {
        after = record { counted = c'; wakers = w; flying = fl; phase = idle };
        performs = rw e refl;
        inside = ((([], [], v'), b ∙ a), bs);
      }
  clear_op-Performed (polling t) i h = absurd h
  clear_op-Performed dropped i h = absurd h

  pub drop_pool_op-Performed :
      (ph : Phase) → Stands fl w ph c → IsIdle ph → Performed drop_pool_op (at ph)
  unfolding perform
  drop_pool_op-Performed idle ((xs, ys, v), a) h =
      let (hx, hy) = enough fl w c xs ys v in
      let (c', xs', e, v', b, z) = drop_pool-IsCounted w (fuel c) c xs ys (length fl) v hy a in
      record {
        after = record { counted = c'; wakers = w; flying = fl; phase = dropped };
        performs = rw e refl;
        inside = ((xs', v', b, z), bs);
      }
  drop_pool_op-Performed (polling t) i h = absurd h
  drop_pool_op-Performed dropped i h = absurd h
