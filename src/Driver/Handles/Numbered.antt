-- ===== src/Driver/Handles/Numbered.antt =====
-- The ids and the incoming queue in all states that the threads of src/lib.rs reach.
use cosync.Base.{
  append-IsDistinct, ℕ, ◌+◌, ◌^◌, ◌≡◌, ◌≤◌, ◌<◌, refl, true, some, ◌++◌, arith, has, has-append,
  IsDistinct,
}
use cosync.FuturesUnordered.{u64}
use cosync.Executor.{user, raw_queue}
use cosync.Driver.{new, next_cosync_task_id, unqueue_task, clear_queue}
use cosync.Driver.Handles.{
  Handles, Step, upgrade, take_id, push_back, unqueue, drop_ref, own_id, own_unqueue, own_drain,
  own_box, free_box, drop_queue, perform, Reachable, starts, step,
}
use cosync.Driver.Handles.Ids.{
  ids, IsNumbered, remove_id-append, perform-issued, keep-IsNumbered, same-IsNumbered,
  unqueue-IsNumbered, take-IsNumbered, push-IsNumbered,
}

module _ {Fut D : Type 0} where
  perform-IsNumbered :
      (e : Step Fut D) (s s' : Handles Fut D)
      → IsNumbered s
      → s'.issued ≤ 2 ^ 64
      → perform e s ≡ some s'
      → IsNumbered s'
  unfolding perform next_cosync_task_id clear_queue
  perform-IsNumbered upgrade s s' k b e =
      same-IsNumbered s s' k (ground (arith, e)) (ground (arith, e)) (ground (arith, e))
        (ground (arith, e))
  perform-IsNumbered take_id s s' k b e =
      take-IsNumbered s s' k b (ground (arith, e)) (ground (arith, e)) (ground (arith, e))
        (ground (arith, e))
  perform-IsNumbered (push_back id f) s s' k b e =
      push-IsNumbered s s' k id (record { body = user f; id = id }) (ground (arith, e)) refl
        (ground (arith, e)) (ground (arith, e)) (ground (arith, e)) (ground (arith, e))
  perform-IsNumbered (unqueue id) s s' k b e =
      unqueue-IsNumbered s s' k id (ground (arith, e)) (ground (arith, e)) (ground (arith, e))
  perform-IsNumbered drop_ref s s' k b e =
      same-IsNumbered s s' k (ground (arith, e)) (ground (arith, e)) (ground (arith, e))
        (ground (arith, e))
  perform-IsNumbered own_id s s' k b e =
      take-IsNumbered s s' k b (ground (arith, e)) (ground (arith, e)) (ground (arith, e))
        (ground (arith, e))
  perform-IsNumbered (own_unqueue id) s s' k b e =
      unqueue-IsNumbered s s' k id (ground (arith, e)) (ground (arith, e)) (ground (arith, e))
  perform-IsNumbered own_drain s s' k b e =
      keep-IsNumbered s s' k (ground (arith, e)) (ground (arith, e)) (ground (arith, e))
        (ground (arith, e))
  perform-IsNumbered (own_box c) s s' k b e =
      same-IsNumbered s s' k (ground (arith, e)) (ground (arith, e)) (ground (arith, e))
        (ground (arith, e))
  perform-IsNumbered free_box s s' k b e =
      same-IsNumbered s s' k (ground (arith, e)) (ground (arith, e)) (ground (arith, e))
        (ground (arith, e))
  perform-IsNumbered drop_queue s s' k b e =
      same-IsNumbered s s' k (ground (arith, e)) (ground (arith, e)) (ground (arith, e))
        (ground (arith, e))

  Reachable-IsNumbered : (s : Handles Fut D) → Reachable s → s.issued ≤ 2 ^ 64 → IsNumbered s
  unfolding new
  Reachable-IsNumbered s (starts th) b = record {
    counter = refl;
    waiting = tt;
    numbered = tt;
    apart = λ i h. refl;
    waiting_issued = λ i h. cc;
    numbered_issued = λ i h. cc;
  }
  Reachable-IsNumbered s (step {s = s0} e r p) b =
      perform-IsNumbered e s0 s
        (Reachable-IsNumbered s0 r (omega (arith, b, perform-issued e s0 s p))) b p

  -- In every state that queue handles on any number of threads and the owner of the `Cosync` reach,
  -- in which at most `2 ^ 64` ids were taken, the ids in the incoming queue and those of the threads
  -- that have yet to queue their task are all different, and smaller than the number of ids taken.
  pub Reachable-IsDistinct :
      (s : Handles Fut D)
      → Reachable s
      → s.issued ≤ 2 ^ 64
      → IsDistinct (s.numbered ++ ids s.world.incoming)
        × ((i : ℕ) → has i (s.numbered ++ ids s.world.incoming) ≡ true → i < s.issued)
  Reachable-IsDistinct s r b =
      let k = Reachable-IsNumbered s r b in
      (
        append-IsDistinct s.numbered (ids s.world.incoming) k.numbered k.waiting k.apart,
        λ i h. ground (
          arith,
          has-append i s.numbered (ids s.world.incoming),
          k.numbered_issued i,
          k.waiting_issued i,
          h,
        ),
      )

  -- In every state that queue handles on any number of threads and the owner of the `Cosync` reach,
  -- in which less than `2 ^ 64` ids were taken, to unqueue the id that `raw_queue` returned succeeds
  -- and gives back the state before, but for the counter of ids.
  pub unqueue_task-raw_queue :
      (s : Handles Fut D) (f : Fut)
      → Reachable s
      → s.issued < 2 ^ 64
      → unqueue_task (raw_queue f s.world).0 (raw_queue f s.world).1
        ≡ (true, record s.world { counter = u64 (s.world.counter + 1) })
  unfolding unqueue_task raw_queue
  unqueue_task-raw_queue s f r b =
      let k = Reachable-IsNumbered s r (omega (arith, b)) in
      let new : s.world.counter ≡ s.issued = omega (arith, k.counter, b) in
      let found =
        remove_id-append s.world.counter (record { body = user f; id = s.world.counter })
          s.world.incoming (ground (arith, k.waiting_issued s.world.counter, new)) refl in
      ground (arith, found)
