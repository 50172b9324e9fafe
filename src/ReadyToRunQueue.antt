-- ===== src/ReadyToRunQueue.antt =====
-- src/futures/ready_to_run_queue.rs: the intrusive multi-producer queue of tasks to poll.
pub mod Chain
pub mod Contents
pub mod Fifo
pub mod Producers
pub mod Consumer
pub mod Consumes
pub mod Consumed
pub mod Gives
use cosync.Base.{Option, none, some, Ptr, null, stub, load, store, ◌==◌, if◌then◌else◌, ◌>>=◌}

-- The field `next_ready_to_run` of every task, and the two ends of the queue.
pub record ReadyToRunQueue : Type 0 where
  pub next_ready_to_run : Ptr → Ptr
  pub head : Ptr
  pub tail : Ptr

pub data Dequeue : Type 0 where
  task : Ptr → Dequeue
  empty : Dequeue
  inconsistent : Dequeue

-- The first half of `enqueue`: the task gets no successor and becomes the head. The old head is
-- returned.
unfoldable pub swap_head : ReadyToRunQueue → Ptr → Option (Ptr × ReadyToRunQueue)
swap_head q t = do
  next ← store q.next_ready_to_run t null
  some (q.head, record q { next_ready_to_run = next; head = t })

-- The second half: the old head gets its successor.
unfoldable pub link_prev : ReadyToRunQueue → Ptr → Ptr → Option ReadyToRunQueue
link_prev q prev t = do
  next ← store q.next_ready_to_run prev t
  some (record q { next_ready_to_run = next })

unfoldable pub enqueue : ReadyToRunQueue → Ptr → Option ReadyToRunQueue
unfolding swap_head link_prev
enqueue q t = swap_head q t >>= λ r. link_prev r.1 r.0 t

-- What follows when `tail` has no successor: it may be the last entry, and then the stub goes
-- behind it.
unfoldable pub dequeue_last : ReadyToRunQueue → Ptr → Option (Dequeue × ReadyToRunQueue)
dequeue_last q tail =
    if q.head == tail
    then (do
      q' ← enqueue q stub
      next ← load q'.next_ready_to_run tail
      if next == null then some (inconsistent, q') else some (task tail, record q' { tail = next }))
    else some (inconsistent, q)

-- A failed `debug_assert` is `none`.
unfoldable pub dequeue_from : ReadyToRunQueue → Ptr → Ptr → Option (Dequeue × ReadyToRunQueue)
dequeue_from q tail next =
    if next == null
    then dequeue_last q tail
    else if tail == stub
    then none
    else some (task tail, record q { tail = next })

unfoldable pub dequeue : ReadyToRunQueue → Option (Dequeue × ReadyToRunQueue)
dequeue q = do
  next ← load q.next_ready_to_run q.tail
  if q.tail == stub
      then (if next == null then some (empty, q) else do
        next' ← load q.next_ready_to_run next
        dequeue_from (record q { tail = next }) next next')
      else dequeue_from q q.tail next

-- Where the consumer stands within `dequeue`: before its first load, or before it loads the successor
-- of `tail` a second time behind the stub, before it loads `head`, before the two writes that put the
-- stub behind `tail`, and before the last load.
pub data Phase : Type 0 where
  idle : Phase
  looking : Ptr → Phase
  last : Ptr → Phase
  adding : Ptr → Phase
  linking : Ptr → Ptr → Phase
  again : Ptr → Phase

pub data Outcome : Type 0 where
  goes_on : Phase → Outcome
  finished : Dequeue → Outcome

abbrev pub looked : Ptr → Ptr → ReadyToRunQueue → Option (Outcome × ReadyToRunQueue)
looked t next q =
    if next == null
    then some (goes_on (last t), q)
    else if t == stub
    then none
    else some (finished (task t), record q { tail = next })

-- `dequeue` up to its next access of what other threads write.
unfoldable pub consume : Phase → ReadyToRunQueue → Option (Outcome × ReadyToRunQueue)
consume idle q = do
  next ← load q.next_ready_to_run q.tail
  if q.tail == stub
      then (if next == null
          then some (finished empty, q)
          else some (goes_on (looking next), record q { tail = next }))
      else looked q.tail next q
consume (looking t) q = load q.next_ready_to_run t >>= λ next. looked t next q
consume (last t) q =
    some (if q.head == t then (goes_on (adding t), q) else (finished inconsistent, q))
consume (adding t) q = swap_head q stub >>= λ r. some (goes_on (linking t (r.0)), r.1)
consume (linking t prev) q = link_prev q prev stub >>= λ q'. some (goes_on (again t), q')
consume (again t) q = do
  next ← load q.next_ready_to_run t
  if next == null
      then some (finished inconsistent, q)
      else some (finished (task t), record q { tail = next })
