-- ===== src/FuturesUnordered/Abort.antt =====
-- `ReadyToRunQueue::clear` of src/futures/ready_to_run_queue.rs, which `FuturesUnordered::clear` of
-- src/futures/futures_unordered.rs calls, among producers on other threads.
use cosync.Base.{
  ℕ, zero, suc, ◌<◌, ◌≡◌, ◌≢◌, refl, ap, subst, Bool, Option, none, some, List, [], ◌∷◌, arith, Ptr,
  stub, length, ◌==◌, if◌then◌else◌, Bool-cases, inl, inr,
}
use cosync.ReadyToRunQueue.{ReadyToRunQueue, Dequeue, task, empty, inconsistent, dequeue}
use cosync.ReadyToRunQueue.Chain.{IsQueue, without_stub}
use cosync.ReadyToRunQueue.Fifo.{Dequeues, pop_front, take_next, dequeue-take_next}
use cosync.FuturesUnordered.{FuturesUnordered, Cleared, cleared, aborts, dequeue_task, clear_queue}
use cosync.FuturesUnordered.Turns.{with_queue}

-- What is left of the list of tasks in the order of their `head.swap`. A gap behind the stub is the
-- end, and at a gap behind a task (`none`) the process aborts.
abbrev pub clear_list : (Ptr → Bool) → List Ptr → Option (List Ptr)
clear_list gap [] = some []
clear_list gap (x ∷ []) = some (stub ∷ [])
clear_list gap (x ∷ y ∷ ys) =
    if gap x then (if x == stub then some (x ∷ y ∷ ys) else none) else clear_list gap (y ∷ ys)

module _ {Fut : Type 0} (gap : Ptr → Bool) where
  abbrev pub Clears : FuturesUnordered Fut → Option (Cleared Fut) → Option (List Ptr) → Type 0
  Clears p r none = r ≡ some aborts
  Clears p r (some c) =
      (q : ReadyToRunQueue) × (r ≡ some (cleared (with_queue p q))) × IsQueue q gap c

  clear_queue-empty :
      (n : ℕ) (p : FuturesUnordered Fut) (q : ReadyToRunQueue)
      → dequeue p.ready_to_run_queue ≡ some (Dequeue.empty, q)
      → clear_queue (suc n) p ≡ some (cleared (with_queue p q))
  unfolding clear_queue dequeue_task
  clear_queue-empty n p q e = ground (arith, e)

  clear_queue-inconsistent :
      (n : ℕ) (p : FuturesUnordered Fut) (q : ReadyToRunQueue)
      → dequeue p.ready_to_run_queue ≡ some (Dequeue.inconsistent, q)
      → clear_queue (suc n) p ≡ some aborts
  unfolding clear_queue dequeue_task
  clear_queue-inconsistent n p q e = ground (arith, e)

  clear_queue-task :
      (n : ℕ) (p : FuturesUnordered Fut) (q : ReadyToRunQueue) (t : Ptr)
      → dequeue p.ready_to_run_queue ≡ some (Dequeue.task t, q)
      → clear_queue (suc n) p ≡ clear_queue n (with_queue p q)
  unfolding clear_queue dequeue_task
  clear_queue-task n p q t e = ground (arith, e)

  -- The rest of the loop when a task is in front, and the loop does what it should on `n`.
  front-Clears :
      (n : ℕ) (p : FuturesUnordered Fut) (z : Ptr) (zs : List Ptr)
      → z ≢ stub
      → Dequeues gap (dequeue p.ready_to_run_queue) (pop_front gap (z ∷ zs))
      → ((q : ReadyToRunQueue) (c : List Ptr)
          → IsQueue q gap c
          → length (without_stub c) < n
          → Clears p (clear_queue n (with_queue p q)) (clear_list gap c))
      → length (without_stub (z ∷ zs)) < suc n
      → Clears p (clear_queue (suc n) p) (clear_list gap (z ∷ zs))
  front-Clears n p z [] ne (q, e, v) rec h =
      rw (clear_queue-task n p q z e) (rec q (stub ∷ []) v (ground (arith, h)))
  front-Clears n p z (y ∷ ys) ne d rec h = elim (Bool-cases (gap z)) [
    | inl g ↦
        let (q, e, v) =
          subst (λ r. Dequeues gap (dequeue p.ready_to_run_queue) r)
            (ap (λ b. if b then (inconsistent, z ∷ y ∷ ys) else (task z, y ∷ ys)) g) d in
        let stops : clear_list gap (z ∷ y ∷ ys) ≡ none = ground (arith, g) in
        rw stops (clear_queue-inconsistent n p q e)
    | inr g ↦
        let (q, e, v) =
          subst (λ r. Dequeues gap (dequeue p.ready_to_run_queue) r)
            (ap (λ b. if b then (inconsistent, z ∷ y ∷ ys) else (task z, y ∷ ys)) g) d in
        let goes_on : clear_list gap (z ∷ y ∷ ys) ≡ clear_list gap (y ∷ ys) = ground (arith, g) in
        rw (goes_on, clear_queue-task n p q z e) (rec q (y ∷ ys) v (ground (arith, h)))
  ]

  -- The same for any list.
  first-Clears :
      (n : ℕ) (p : FuturesUnordered Fut)
      → ((q : ReadyToRunQueue) (c : List Ptr)
          → IsQueue q gap c
          → length (without_stub c) < n
          → Clears p (clear_queue n (with_queue p q)) (clear_list gap c))
      → (c : List Ptr) → IsQueue p.ready_to_run_queue gap c
      → length (without_stub c) < suc n
      → Dequeues gap (dequeue p.ready_to_run_queue) (take_next gap c)
      → Clears p (clear_queue (suc n) p) (clear_list gap c)
  first-Clears n p rec [] v h d = absurd v.chain
  first-Clears n p rec (x ∷ []) v h d = elim (Bool-cases (x == stub)) [
    | inl e ↦
        let stands : take_next gap (x ∷ []) ≡ (empty, stub ∷ []) = ground (arith, e) in
        let (q, r, v') = subst (λ z. Dequeues gap (dequeue p.ready_to_run_queue) z) stands d in
        (q, clear_queue-empty n p q r, v')
    | inr e ↦
        let takes : take_next gap (x ∷ []) ≡ pop_front gap (x ∷ []) = ground (arith, e) in
        front-Clears n p x [] (ground (arith, e))
          (subst (λ z. Dequeues gap (dequeue p.ready_to_run_queue) z) takes d) rec h
  ]
  first-Clears n p rec (x ∷ y ∷ ys) v h d = elim (Bool-cases (x == stub)) [
    | inl e ↦ elim (Bool-cases (gap x)) [
      | inl g ↦
          let stands : take_next gap (x ∷ y ∷ ys) ≡ (empty, x ∷ y ∷ ys) = rw (e, g) refl in
          let (q, r, v') = subst (λ z. Dequeues gap (dequeue p.ready_to_run_queue) z) stands d in
          rw (g, e) (q, clear_queue-empty n p q r, v')
      | inr g ↦
          let passes : take_next gap (x ∷ y ∷ ys) ≡ pop_front gap (y ∷ ys) = rw (e, g) refl in
          rw g (
            front-Clears n p y ys (ground (arith, v.chain, e))
              (subst (λ z. Dequeues gap (dequeue p.ready_to_run_queue) z) passes d) rec
              (ground (arith, h, e)))
    ]
    | inr e ↦
        let takes : take_next gap (x ∷ y ∷ ys) ≡ pop_front gap (x ∷ y ∷ ys) = rw e refl in
        front-Clears n p x (y ∷ ys) (ground (arith, e))
          (subst (λ z. Dequeues gap (dequeue p.ready_to_run_queue) z) takes d) rec h
  ]

  -- `ReadyToRunQueue::clear`, in a state in which producers on other threads may stand between the
  -- two writes of `enqueue`, with more fuel than tasks wait: it takes the tasks in the order of
  -- their `head.swap` up to the first gap. At a gap behind a task it aborts the process. At a gap
  -- behind the stub it ends and leaves what is behind the gap. With no gap it leaves the stub only.
  pub clear_queue-clear_list :
      (n : ℕ) (p : FuturesUnordered Fut) (c : List Ptr)
      → IsQueue p.ready_to_run_queue gap c
      → length (without_stub c) < n
      → Clears p (clear_queue n p) (clear_list gap c)
  clear_queue-clear_list zero p c v h = absurd (omega (arith, h))
  clear_queue-clear_list (suc n) p c v h =
      first-Clears n p (λ q c v h. clear_queue-clear_list n (with_queue p q) c v h) c v h
        (dequeue-take_next p.ready_to_run_queue gap c v)
