-- ===== src/ReadyToRunQueue/Consumer.antt =====
-- The consumer of src/futures/ready_to_run_queue.rs access by access, among any number of producers.
use cosync.Base.{
  ℕ, zero, suc, none, ◌>>=◌, Option, ◌≡◌, ◌≢◌, true, false, some, List, [], ◌∷◌, ◌++◌, arith, Ptr,
  null, stub, update, has,
}
use cosync.ReadyToRunQueue.{
  ReadyToRunQueue, Dequeue, swap_head, link_prev, Phase, idle, looking, last, adding, linking,
  again, Outcome, goes_on, finished, consume, dequeue, dequeue_from, dequeue_last, enqueue,
}
use cosync.ReadyToRunQueue.Chain.{no_gap}
use cosync.ReadyToRunQueue.Fifo.{gap_behind}
use cosync.ReadyToRunQueue.Producers.{Producers, taken_from}

pub record Threads : Type 0 where
  pub producers : Producers
  pub phase : Phase

abbrev pub with_queue : Producers → ReadyToRunQueue → Producers
with_queue s q = record s { queue = q }

abbrev pub phase_after : Outcome → Phase
phase_after (goes_on ph) = ph
phase_after (finished d) = idle

abbrev pub waiting_after : Outcome → List Ptr → List Ptr
waiting_after (goes_on ph) xs = xs
waiting_after (finished d) xs = taken_from d xs

-- What the consumer has yet to write is kept as for a producer.
abbrev pub owed_after : Outcome → Producers → Producers
owed_after (goes_on (linking t prev)) s = record s {
  gap = gap_behind s.gap prev stub;
  owes = update s.owes prev stub;
}
owed_after (goes_on idle) s = s
owed_after (goes_on (looking t)) s = s
owed_after (goes_on (last t)) s = s
owed_after (goes_on (adding t)) s = s
owed_after (goes_on (again t)) s = s
owed_after (finished d) s = s

abbrev pub linked_in : Phase → Producers → Producers
linked_in (linking t prev) s = record s { gap = update s.gap prev false }
linked_in idle s = s
linked_in (looking t) s = s
linked_in (last t) s = s
linked_in (adding t) s = s
linked_in (again t) s = s

abbrev pub consumed : Threads → Outcome → ReadyToRunQueue → Threads
consumed s o q = record {
  producers = record (owed_after o (linked_in s.phase s.producers)) {
    queue = q;
    waiting = waiting_after o s.producers.waiting;
  };
  phase = phase_after o;
}

pub data Step : Threads → Threads → Type 0 where
  swap :
      (s : Threads) (t prev : Ptr) (q : ReadyToRunQueue)
      → t ≢ null
      → t ≢ stub
      → has t s.producers.waiting ≡ false
      → swap_head s.producers.queue t ≡ some (prev, q)
      → Step s (record s {
        producers = record {
          queue = q;
          gap = gap_behind s.producers.gap prev t;
          owes = update s.producers.owes prev t;
          waiting = s.producers.waiting ++ t ∷ [];
        };
      })
  link_up :
      (s : Threads) (prev : Ptr) (q : ReadyToRunQueue)
      → s.producers.gap prev ≡ true
      → s.producers.owes prev ≢ stub
      → link_prev s.producers.queue prev (s.producers.owes prev) ≡ some q
      → Step s (record s {
        producers = record s.producers { queue = q; gap = update s.producers.gap prev false };
      })
  consumes :
      (s : Threads) (o : Outcome) (q : ReadyToRunQueue)
      → consume s.phase s.producers.queue ≡ some (o, q)
      → Step s (consumed s o q)

pub data Reachable : Threads → Type 0 where
  start : Reachable (record {
    producers = record {
      queue = record { next_ready_to_run = λ p. null; head = stub; tail = stub };
      gap = no_gap;
      owes = λ p. null;
      waiting = [];
    };
    phase = idle;
  })
  next : (s t : Threads) → Reachable s → Step s t → Reachable t

-- With no producer in between the accesses are those of `dequeue`.
abbrev alone : ℕ → Phase → ReadyToRunQueue → Option (Dequeue × ReadyToRunQueue)
alone zero ph q = none
alone (suc n) ph q = consume ph q >>= λ r. elim (r.0) [
  | goes_on ph' ↦ alone n ph' (r.1)
  | finished d ↦ some (d, r.1)
]

pub consume-dequeue : (q : ReadyToRunQueue) → alone 6 idle q ≡ dequeue q
unfolding consume dequeue dequeue_from dequeue_last enqueue
consume-dequeue q = ground arith
