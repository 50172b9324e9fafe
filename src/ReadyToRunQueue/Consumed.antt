-- ===== src/ReadyToRunQueue/Consumed.antt =====
-- The second half of `dequeue` of src/futures/ready_to_run_queue.rs: from the load of `head` on.
use mathlib.Core.List.{append-nil}
use cosync.Base.{
  ◌≡◌, ◌≢◌, inl, inr, refl, ◌∙◌, true, false, List, [], ◌∷◌, ◌++◌, arith, Ptr, null, stub, update,
  has, has-append, Bool-cases, subst,
}
use cosync.ReadyToRunQueue.{
  task, inconsistent, Phase, idle, looking, last, adding, linking, again, goes_on, finished,
  consume,
}
use cosync.ReadyToRunQueue.Chain.{
  Adjacent, without_stub, without_stub-append, Chain-head_mem, Chain-first_ne, Chain-mem_ne,
}
use cosync.ReadyToRunQueue.Fifo.{first-append, swap_head_lem, link_prev_lem}
use cosync.ReadyToRunQueue.Contents.{rest}
use cosync.ReadyToRunQueue.Producers.{
  Producers, IsProducing, swapped-IsProducing, link_up-IsProducing,
}
use cosync.ReadyToRunQueue.Consumer.{linked_in}
use cosync.ReadyToRunQueue.Consumes.{At, Ends, moved, order-IsQueue, waits, idle-Ends, looking-Ends}

module _ (s : Producers) (v : IsProducing s) where
  last-Ends : (t : Ptr) → At (last t) v.order s → Ends s s (consume (last t) s.queue)
  unfolding consume
  last-Ends t (f, ns) = go v.order refl
    where
      go : (c : List Ptr) → v.order ≡ c → Ends s s (consume (last t) s.queue)
      go [] e = absurd (order-IsQueue s v [] e).chain
      go (x ∷ []) e =
          let w = order-IsQueue s v (x ∷ []) e in
          let here : x ≡ t = ground (arith, f, e) in
          let top : s.queue.head ≡ t = ground (arith, w.chain, here) in
          (
            goes_on (adding t),
            s.queue,
            ground (arith, top),
            tt,
            record { producing = v; at = (f, ns, rw e (ground (arith, here, ns))) },
          )
      go (x ∷ y ∷ ys) e =
          let w = order-IsQueue s v (x ∷ y ∷ ys) e in
          let here : x ≡ t = ground (arith, f, e) in
          let other : s.queue.head ≢ t = ground (
            arith,
            w.chain,
            here,
            Chain-head_mem s.queue.next_ready_to_run s.gap s.queue.head (y ∷ ys) w.chain.3,
          ) in
          let all = waits s v x (y ∷ ys) e (ground (arith, here, ns)) in
          (
            finished inconsistent,
            s.queue,
            ground (arith, other),
            ground (arith, all),
            record { producing = v; at = tt },
          )

  adding-Ends : (t : Ptr) → At (adding t) v.order s → Ends s s (consume (adding t) s.queue)
  unfolding consume
  adding-Ends t (f, ns, out) =
      let (q, e, v1, h) = swap_head_lem stub v.valid (omega arith) out in
      let kept : without_stub (v.order ++ stub ∷ []) ≡ s.waiting =
        rw (without_stub-append v.order (stub ∷ []))
          (append-nil (without_stub v.order) ∙ v.listed) in
      let (v2, o, g) =
        swapped-IsProducing s v stub s.queue.head q s.waiting (omega arith) out kept e in
      (
        goes_on (linking t s.queue.head),
        q,
        rw e refl,
        tt,
        record {
          producing = v2;
          at = rw o (
            first-append v.order stub (Chain-first_ne _ _ _ v.order v.valid.chain) ∙ f,
            ns,
            ground (arith, has-append stub v.order (stub ∷ [])),
            ground arith,
            ground arith,
          );
        },
      )

  linking-Ends :
      (t prev : Ptr)
      → At (linking t prev) v.order s
      → Ends s (record s { gap = update s.gap prev false }) (consume (linking t prev) s.queue)
  unfolding consume
  linking-Ends t prev (f, ns, i, g, o) =
      let behind : Adjacent prev stub v.order =
        subst (λ x. Adjacent prev x v.order) o (v.owing prev g) in
      let (q, e, v1) =
        link_prev_lem prev stub v.valid behind
          (Chain-mem_ne _ _ _ v.order v.valid.chain prev (v.valid.gaps prev g)) in
      let (v2, same) = link_up-IsProducing s v prev q g (rw o e) in
      (goes_on (again t), q, rw e refl, tt, record { producing = v2; at = rw same (f, ns, i) })

  again-Ends : (t : Ptr) → At (again t) v.order s → Ends s s (consume (again t) s.queue)
  unfolding consume
  again-Ends t (f, ns, i) = go v.order refl
    where
      go : (c : List Ptr) → v.order ≡ c → Ends s s (consume (again t) s.queue)
      go [] e = absurd (order-IsQueue s v [] e).chain
      go (x ∷ []) e =
          let there : has stub (x ∷ []) ≡ true = subst (λ c. has stub c ≡ true) e i in
          ground (arith, f, e, ns, there)
      go (x ∷ y ∷ ys) e =
          let w = order-IsQueue s v (x ∷ y ∷ ys) e in
          let here : x ≡ t = ground (arith, f, e) in
          let some_t : t ≢ null = ground (arith, w.chain, here) in
          let all = waits s v x (y ∷ ys) e (ground (arith, here, ns)) in
          elim (Bool-cases (s.gap x)) [
            | inl g ↦
                let next : s.queue.next_ready_to_run t ≡ null = ground (arith, w.chain, here, g) in
                (
                  finished inconsistent,
                  s.queue,
                  ground (arith, next, some_t),
                  ground (arith, all),
                  record { producing = v; at = tt },
                )
            | inr g ↦
                let next : s.queue.next_ready_to_run t ≡ y = ground (arith, w.chain, here, g) in
                let some_y : y ≢ null =
                  Chain-first_ne s.queue.next_ready_to_run s.gap s.queue.head (y ∷ ys) w.chain.3 in
                let (v1, o) = moved s v x y ys e g (rest s.waiting) (ground (arith, all)) in
                (
                  finished (task t),
                  record s.queue { tail = y },
                  ground (arith, next, some_y, some_t),
                  ground (arith, all, here),
                  record { producing = v1; at = tt },
                )
          ]

  -- The same for every phase.
  pub phase-Ends : (ph : Phase) → At ph v.order s → Ends s (linked_in ph s) (consume ph s.queue)
  phase-Ends idle a = idle-Ends s v
  phase-Ends (looking t) a = looking-Ends s v t a
  phase-Ends (last t) a = last-Ends t a
  phase-Ends (adding t) a = adding-Ends t a
  phase-Ends (linking t prev) a = linking-Ends t prev a
  phase-Ends (again t) a = again-Ends t a
