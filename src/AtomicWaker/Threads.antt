-- ===== src/AtomicWaker/Threads.antt =====
-- Any number of threads that register and take wakers, one atomic step after the other.
use cosync.Base.{
  is_some, ℕ, suc, ◌+◌, ◌≤◌, ◌≡◌, refl, Bool, true, false, ◌&&◌, ◌||◌, not, Option, none, some,
  arith, if◌then◌else◌,
}
use cosync.AtomicWaker.{
  AtomicWaker, locked, new, try_register, set_waker, finish_register, fetch_or_waking, take_waker,
  finish_take,
}

-- The cell, and how many threads stand where: with the lock of `register` before and after they
-- wrote the cell, and with the lock of `take` before and after they emptied it. `owed` says that a
-- wake came during a registration, which has not passed it on yet.
pub record Threads (W : Type 0) : Type 0 where
  pub cell : AtomicWaker W
  pub writing : ℕ
  pub closing : ℕ
  pub inside : ℕ
  pub leaving : ℕ
  pub owed : Bool

abbrev pub still_owed : {W : Type 0} → Bool → Option W → Bool
still_owed owed none = owed
still_owed owed (some w) = false

-- One step of one thread. A `register` that finds the lock taken changes nothing.
pub data Step {W : Type 0} : Threads W → Threads W → Type 0 where
  lock :
      (s : Threads W) (c : AtomicWaker W)
      → try_register s.cell ≡ locked c
      → Step s (record s { cell = c; writing = suc s.writing })
  write :
      (s : Threads W) (w : W) (n : ℕ)
      → s.writing ≡ suc n
      → Step s (record s { cell = set_waker s.cell w; writing = n; closing = suc s.closing })
  finish :
      (s : Threads W) (n : ℕ)
      → s.closing ≡ suc n
      → Step s (record s {
        cell = (finish_register s.cell).1;
        closing = n;
        owed = still_owed s.owed ((finish_register s.cell).0);
      })
  start_take :
      (s : Threads W)
      → Step s (record s {
        cell = (fetch_or_waking s.cell).1;
        inside = if (fetch_or_waking s.cell).0 then suc s.inside else s.inside;
        owed = s.cell.registering || s.owed;
      })
  empty_cell :
      (s : Threads W) (n : ℕ)
      → s.inside ≡ suc n
      → Step s (record s { cell = (take_waker s.cell).1; inside = n; leaving = suc s.leaving })
  end_take :
      (s : Threads W) (n : ℕ)
      → s.leaving ≡ suc n
      → Step s (record s { cell = finish_take s.cell; leaving = n })

pub data Reachable {W : Type 0} : Threads W → Type 0 where
  start :
      Reachable
        (record { cell = new; writing = 0; closing = 0; inside = 0; leaving = 0; owed = false })
  next : (s t : Threads W) → Reachable s → Step s t → Reachable t

abbrev bit : Bool → ℕ
bit false = 0
bit true = 1

record IsLocked {W : Type 0} (s : Threads W) : Type 0 where
  registers : s.writing + s.closing ≡ bit s.cell.registering
  takes : s.inside + s.leaving ≡ bit (not s.cell.registering && s.cell.waking)
  stored : 1 ≤ s.closing → is_some s.cell.waker ≡ true
  owing : s.owed ≡ true → (s.cell.registering ≡ true) × (s.cell.waking ≡ true)

module _ {W : Type 0} where
  Step-IsLocked : (s t : Threads W) → IsLocked s → Step s t → IsLocked t
  unfolding try_register set_waker finish_register fetch_or_waking take_waker finish_take
  Step-IsLocked s t v (lock _ c e) = record {
    registers = ground (arith, v.registers, e);
    takes = ground (arith, v.takes, v.registers, e);
    stored = λ h. ground (arith, v.stored, v.registers, e);
    owing = λ h. ground (arith, v.owing, v.registers, e);
  }
  Step-IsLocked s t v (write _ w n e) = record {
    registers = ground (arith, v.registers);
    takes = v.takes;
    stored = λ h. refl;
    owing = v.owing;
  }
  Step-IsLocked s t v (finish _ n e) = record {
    registers = ground (arith, v.registers);
    takes = ground (arith, v.takes, v.registers);
    stored = λ h. ground (arith, v.stored, v.registers);
    owing = λ h. ground (arith, v.owing, v.registers, v.stored);
  }
  Step-IsLocked s t v (start_take _) = record {
    registers = ground (arith, v.registers);
    takes = ground (arith, v.takes, v.registers);
    stored = λ h. ground (arith, v.stored);
    owing = λ h. ground (arith, v.owing);
  }
  Step-IsLocked s t v (empty_cell _ n e) = record {
    registers = v.registers;
    takes = ground (arith, v.takes);
    stored = λ h. ground (arith, v.stored, v.registers, v.takes);
    owing = v.owing;
  }
  Step-IsLocked s t v (end_take _ n e) = record {
    registers = v.registers;
    takes = ground (arith, v.takes, v.registers);
    stored = v.stored;
    owing = λ h. ground (arith, v.owing, v.registers, v.takes);
  }

  Reachable-IsLocked : (s : Threads W) → Reachable s → IsLocked s
  unfolding new
  Reachable-IsLocked _ start = record {
    registers = refl;
    takes = refl;
    stored = λ h. absurd (omega arith);
    owing = λ h. cc;
  }
  Reachable-IsLocked _ (next s t r e) = Step-IsLocked s t (Reachable-IsLocked s r) e

  -- In every state that any number of threads reach by the atomic steps of `register` and `take` on
  -- a new cell, at most one thread holds the cell, so that no two threads access the waker at once.
  pub Reachable-exclusive :
      (s : Threads W) → Reachable s → s.writing + s.closing + s.inside + s.leaving ≤ 1
  Reachable-exclusive s r = let v = Reachable-IsLocked s r in ground (arith, v.registers, v.takes)

  -- No wake is lost: in every reachable state in which a wake came during a registration and the
  -- registering thread has written its waker, the last step of `register` returns that waker, to be
  -- woken at once, and leaves the cell new.
  pub Reachable-owed :
      (s : Threads W) (n : ℕ)
      → Reachable s
      → s.owed ≡ true
      → s.closing ≡ suc n
      → (w : W) × (c : AtomicWaker W) × (s.cell.waker ≡ some w)
        × (finish_register s.cell ≡ (some w, c))
        × (c ≡ new)
  unfolding finish_register new
  Reachable-owed s n r o e = let v = Reachable-IsLocked s r in ground (arith, v.stored, v.owing)
