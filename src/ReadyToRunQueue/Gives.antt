-- ===== src/ReadyToRunQueue/Gives.antt =====
-- What `dequeue` of src/futures/ready_to_run_queue.rs gives while producers work.
use cosync.Base.{
  ◌≡◌, ◌≢◌, refl, ◌∙◌, true, false, some, List, [], ◌∷◌, ◌++◌, arith, Ptr, null, stub, update, has,
  has-append,
}
use cosync.ReadyToRunQueue.{
  ReadyToRunQueue, Phase, idle, looking, last, adding, linking, again, Outcome, consume,
}
use cosync.ReadyToRunQueue.Chain.{first, Chain-first_ne}
use cosync.ReadyToRunQueue.Fifo.{gap_behind, first-append}
use cosync.ReadyToRunQueue.Contents.{has-without_stub}
use cosync.ReadyToRunQueue.Producers.{Producers, swap-IsProducing, link_up-IsProducing}
use cosync.ReadyToRunQueue.Consumer.{
  Threads, consumed, Step, swap, link_up, consumes, Reachable, start, next,
}
use cosync.ReadyToRunQueue.Consumes.{At, IsConsuming, Gives}
use cosync.ReadyToRunQueue.Consumed.{phase-Ends}

module _ (c : List Ptr) (s s' : Producers) (t prev : Ptr) (n : first c ≢ null) (ns : t ≢ stub)
    (closed : s.gap prev ≡ false) (new : has t c ≡ false)
    (gaps : (p : Ptr) → s.gap p ≡ true → has p c ≡ true) (eg : s'.gap ≡ gap_behind s.gap prev t)
    (eo : s'.owes ≡ update s.owes prev t) where
  At-swap : (ph : Phase) → At ph c s → At ph (c ++ t ∷ []) s'
  At-swap idle a = tt
  At-swap (looking u) (e, m) = (first-append c t n ∙ e, m)
  At-swap (last u) (e, m) = (first-append c t n ∙ e, m)
  At-swap (adding u) (e, m, f) =
      (first-append c t n ∙ e, m, ground (arith, f, has-append stub c (t ∷ [])))
  At-swap (linking u p) (e, m, i, g, o) = (
    first-append c t n ∙ e,
    m,
    ground (arith, i, has-append stub c (t ∷ [])),
    rw eg (ground (arith, closed, g, new, gaps p)),
    rw eo (ground (arith, closed, g, o)),
  )
  At-swap (again u) (e, m, i) =
      (first-append c t n ∙ e, m, ground (arith, i, has-append stub c (t ∷ [])))

At-link_up :
    (c : List Ptr) (s : Producers) (q : ReadyToRunQueue) (prev : Ptr) (ph : Phase)
    → s.owes prev ≢ stub
    → At ph c s
    → At ph c (record s { queue = q; gap = update s.gap prev false })
At-link_up c s q prev idle o a = tt
At-link_up c s q prev (looking u) o a = a
At-link_up c s q prev (last u) o a = a
At-link_up c s q prev (adding u) o a = a
At-link_up c s q prev (linking u p) o (e, m, i, g, w) = (e, m, i, ground (arith, g, w, o), w)
At-link_up c s q prev (again u) o a = a

Step-IsConsuming : (s t : Threads) → IsConsuming s → Step s t → IsConsuming t
Step-IsConsuming s _ v (swap _ t prev q ne ns new e) =
    let (v1, o, g) = swap-IsProducing s.producers v.producing t prev q ne ns new e in
    let c = v.producing.order in
    let out : has t c ≡ false = ground (arith, has-without_stub t c ns, v.producing.listed, new) in
    record {
      producing = v1;
      at = rw o (
          At-swap c s.producers _ t prev (Chain-first_ne _ _ _ c v.producing.valid.chain) ns g out
            v.producing.valid.gaps refl refl s.phase v.at);
    }
Step-IsConsuming s _ v (link_up _ prev q g o e) =
    let (v1, same) = link_up-IsProducing s.producers v.producing prev q g e in
    record {
      producing = v1;
      at = rw same (At-link_up v.producing.order s.producers q prev s.phase o v.at);
    }
Step-IsConsuming s _ v (consumes _ o q e) =
    let (o1, q1, e1, t1, v1) = phase-Ends s.producers v.producing s.phase v.at in
    let same : (o1 ≡ o) × (q1 ≡ q) = (cc, cc) in rw (← same.0, ← same.1) v1

Reachable-IsConsuming : (s : Threads) → Reachable s → IsConsuming s
Reachable-IsConsuming _ start = record {
  producing = record {
    order = stub ∷ [];
    valid = record { chain = ground arith; starts = refl; gaps = λ p g. cc };
    owing = λ p g. cc;
    listed = refl;
  };
  at = tt;
}
Reachable-IsConsuming _ (next s t r e) = Step-IsConsuming s t (Reachable-IsConsuming s r) e

-- In every state that any number of producers and one consumer reach from the new queue, each by
-- single accesses of what they share, where a producer enqueues only a task that does not wait in
-- the queue, the next access of the consumer within `dequeue` dereferences no null pointer and fails
-- no assertion. A task that it gives is the one that waits longest, in the order of the first writes
-- of `enqueue`. It gives `Empty` only when no task waits or a producer is half done behind the stub,
-- and `Inconsistent` only when some task waits.
pub Reachable-Gives :
    (s : Threads)
    → Reachable s
    → (o : Outcome) × (q : ReadyToRunQueue) × (consume s.phase s.producers.queue ≡ some (o, q))
      × Gives s.producers o
      × Reachable (consumed s o q)
Reachable-Gives s r =
    let v = Reachable-IsConsuming s r in
    let (o, q, e, t, v1) = phase-Ends s.producers v.producing s.phase v.at in
    (o, q, e, t, next s (consumed s o q) r (consumes s o q e))
