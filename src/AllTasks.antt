-- ===== src/AllTasks.antt =====
-- src/futures/futures_unordered.rs: the doubly linked list of all tasks, newest first.
pub mod Linked
pub mod Edits
use cosync.Base.{
  ℕ, zero, suc, ◌+◌, Option, none, some, Ptr, null, stub, load, store, ◌==◌, if◌then◌else◌, ◌>>=◌,
}

-- The fields `next_all`, `prev_all` and `len_all` of every task, and the head of the list.
pub record AllTasks : Type 0 where
  pub next_all : Ptr → Ptr
  pub prev_all : Ptr → Ptr
  pub len_all : Ptr → ℕ
  pub head_all : Ptr

-- `Task::spin_next_all` on the thread that owns the set: no other thread ever ends the wait, so a
-- pending `next_all` is `none`.
unfoldable pub spin_next_all : AllTasks → Ptr → Option Ptr
spin_next_all a t = do next ← load a.next_all t; if next == stub then none else some next

unfoldable pub atomic_load_head_and_len_all : AllTasks → Option (Ptr × ℕ)
atomic_load_head_and_len_all a = if a.head_all == null then some (null, 0) else do
  next ← spin_next_all a a.head_all
  len ← load a.len_all a.head_all
  some (a.head_all, len)

-- The length that `link` stores in a task put in front of `next`.
unfoldable pub len_before : AllTasks → Ptr → Option ℕ
len_before a next =
    if next == null
    then some 1
    else do p ← spin_next_all a next; len ← load a.len_all next; some (len + 1)

-- A failed `debug_assert` is `none`, like a null dereference.
unfoldable pub link : AllTasks → Ptr → Option AllTasks
link a t =
    if a.next_all t == stub
    then (do
      new_len ← len_before a a.head_all
      lens ← store a.len_all t new_len
      nexts ← store a.next_all t a.head_all
      prevs ← if a.head_all == null then some a.prev_all else store a.prev_all a.head_all t
      some (record { next_all = nexts; prev_all = prevs; len_all = lens; head_all = t }))
    else none

-- `- 1` on a `usize`; an underflow is `none`.
abbrev pub less_one : ℕ → Option ℕ
less_one zero = none
less_one (suc n) = some n

unfoldable pub unlink : AllTasks → Ptr → Option AllTasks
unlink a t = do
  len ← load a.len_all a.head_all
  new_len ← less_one len
  next ← load a.next_all t
  prev ← load a.prev_all t
  nexts ← store a.next_all t stub
  prevs ← store a.prev_all t null
  prevs ← if next == null then some prevs else store prevs next prev
  nexts ← if prev == null then some nexts else store nexts prev next
  let head = if prev == null then next else a.head_all
  lens ← if head == null then some a.len_all else store a.len_all head new_len
  some (record { next_all = nexts; prev_all = prevs; len_all = lens; head_all = head })
