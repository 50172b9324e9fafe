-- ===== src/Tests/Moves.antt =====
-- The unit tests of src/lib.rs that are about moves and types, as programs. A move of a `Cosync`
-- leaves its state as it is.
use cosync.Base.{ℕ, Bool, true, false, ◌==◌, ◌&&◌, List, [], ◌∷◌, ◌++◌, if◌then◌else◌}
use cosync.Executor.{Script, ready, panics, get, Cmd, ok, ◌>>=◌, ◌>>◌}
use cosync.Driver.{cosync_queue, run}
use cosync.Tests.Sequences.{give_way, expect, Stalls, starts, poll_stalls}

pub data Prints : Type 0 where
  prints : Prints

-- What a task prints is not modelled.
abbrev pub poll_prints : {D : Type 0} → Prints → Script Prints D
poll_prints prints = ready

abbrev pub ordering : Cmd Prints ℕ ℕ
ordering = do cosync_queue prints; run poll_prints 20 5 0

-- The values after the run and after the one of the moved `Cosync`.
abbrev pub cosync_can_be_moved : Cmd Stalls ℕ (ℕ × ℕ)
cosync_can_be_moved = do
  cosync_queue starts
  a ← run poll_stalls 20 5 0
  b ← run poll_stalls 20 5 a
  ok (a, b)

-- A trait object: a number, or a text. `parse` is `str::parse`.
pub data DynDispatch (Text : Type 0) : Type 0 where
  number : ℕ → DynDispatch Text
  text : Text → DynDispatch Text

pub data Dispatch : Type 0 where
  calls calls_again : Dispatch

module _ {Text : Type 0} (parse : Text → ℕ) where
  abbrev pub test : DynDispatch Text → ℕ
  test (number n) = n
  test (text s) = parse s

  abbrev pub poll_dispatch : Dispatch → Script Dispatch (DynDispatch Text)
  poll_dispatch calls = get λ d. expect (test d) 3 (give_way calls_again)
  poll_dispatch calls_again = get λ d. expect (test d) 3 ready

  abbrev pub dynamic_dispatch : Text → Cmd Dispatch (DynDispatch Text) (DynDispatch Text)
  dynamic_dispatch three = do
    cosync_queue calls
    run poll_dispatch 20 5 (number 3)
    run poll_dispatch 20 5 (text three)

-- The task is queued and never polled.
abbrev pub unsized_type : {Text : Type 0} → Cmd Prints Text ℕ
unsized_type = cosync_queue prints

-- `==` of vectors.
abbrev same : List ℕ → List ℕ → Bool
same [] [] = true
same (a ∷ left) (b ∷ right) = (a == b) && same left right
same left right = false

-- The future owns its vector. It is queued and never polled, either.
abbrev pub poll_pushes : List ℕ → Script (List ℕ) ℕ
poll_pushes my_vec = if same (my_vec ++ 10 ∷ []) (10 ∷ 10 ∷ []) then ready else panics

abbrev pub can_move_non_copy : Cmd (List ℕ) ℕ ℕ
can_move_non_copy = cosync_queue (10 ∷ [])
