-- ===== src/Driver/Handles.antt =====
-- src/lib.rs: `CosyncQueueHandle::queue` and `unqueue_task` on any number of threads, next to the
-- thread that owns the `Cosync`. Each step is one operation of the `Arc`, or one critical section of
-- the mutex.
pub mod Strong
pub mod Ids
pub mod Numbered
use cosync.Base.{
  ◌&&◌, not, ◌≡◌, ℕ, zero, suc, ◌+◌, ◌-◌, Bool, true, false, Option, none, some, List, [], ◌∷◌,
  ◌++◌, has, erase, ◌==◌, if◌then◌else◌,
}
use cosync.Notify.{Thread}
use cosync.Executor.{World, FutureObject, user, Run, ok, panic, fault}
use cosync.Driver.{new, next_cosync_task_id, unqueue_task, clear_queue}

-- `boxed` says that the box of the parameter is allocated, and `alive` that the `Cosync` has its own
-- reference to the queue: its drop frees the box first, then the fields go. The threads that hold a
-- strong reference are those that went through `upgrade` only, those that have taken an id, which
-- `numbered` lists, and those that are done but for the drop of the reference. `issued` counts the
-- ids taken so far.
pub record Handles (Fut D : Type 0) : Type 0 where
  pub world : World Fut D
  pub boxed : Bool
  pub alive : Bool
  pub upgraded : ℕ
  pub numbered : List ℕ
  pub finished : ℕ
  pub issued : ℕ

pub data Step (Fut D : Type 0) : Type 0 where
  upgrade : Step Fut D
  take_id : Step Fut D
  push_back : ℕ → Fut → Step Fut D
  unqueue : ℕ → Step Fut D
  drop_ref : Step Fut D
  own_id : Step Fut D
  own_unqueue : ℕ → Step Fut D
  own_drain : Step Fut D
  own_box : Option D → Step Fut D
  free_box : Step Fut D
  drop_queue : Step Fut D

module _ {Fut D : Type 0} where
  abbrev pub start_with : Thread → Handles Fut D
  start_with th = record {
    world = new th;
    boxed = true;
    alive = true;
    upgraded = 0;
    numbered = [];
    finished = 0;
    issued = 0;
  }

  -- Only the owner of the `Cosync`, while it is there.
  abbrev pub owner : Handles Fut D → World Fut D → Option (Handles Fut D)
  owner s w = if s.boxed then some (record s { world = w }) else none

  -- The drop of the `Cosync` takes the box back, and frees it.
  abbrev pub drop_box : Handles Fut D → Option (Handles Fut D)
  drop_box s = if s.boxed then some (record s { boxed = false }) else none

  -- `none` is a step that no thread stands before, or an `upgrade` that fails.
  unfoldable pub perform : Step Fut D → Handles Fut D → Option (Handles Fut D)
  perform upgrade s =
      if s.world.strong == 0
      then none
      else some (record s {
        world = record s.world { strong = s.world.strong + 1 };
        upgraded = s.upgraded + 1;
      })
  perform take_id s = elim s.upgraded [
    | zero ↦ none
    | suc n ↦
        let (id, w) = next_cosync_task_id s.world in
        some
          (record s { world = w; upgraded = n; numbered = id ∷ s.numbered; issued = s.issued + 1 })
  ]
  perform (push_back id f) s =
      if has id s.numbered
      then some (record s {
        world = record s.world {
          incoming = s.world.incoming ++ record { body = user f; id = id } ∷ [];
        };
        numbered = erase id s.numbered;
        finished = s.finished + 1;
      })
      else none
  perform (unqueue id) s = elim s.upgraded [
    | zero ↦ none
    | suc n ↦
        some (record s {
          world = (unqueue_task id s.world).1;
          upgraded = n;
          finished = s.finished + 1;
        })
  ]
  perform drop_ref s = elim s.finished [
    | zero ↦ none
    | suc n ↦
        some (record s { world = record s.world { strong = s.world.strong - 1 }; finished = n })
  ]
  perform own_id s =
      if s.boxed
      then some (record s { world = (next_cosync_task_id s.world).1; issued = s.issued + 1 })
      else none
  perform (own_unqueue id) s = owner s (unqueue_task id s.world).1
  perform own_drain s = owner s (clear_queue s.world)
  perform (own_box b) s = owner s (record s.world { heap_ptr = b })
  perform free_box s = drop_box s
  perform drop_queue s =
      if s.alive && not s.boxed
      then some (record s { world = record s.world { strong = s.world.strong - 1 }; alive = false })
      else none

  -- `CosyncInput::get`, also on other threads and in what the drop of the `Cosync` calls. The box is
  -- freed memory then.
  unfoldable pub shared_get : Handles Fut D → Run Fut D D
  shared_get s =
      if s.world.strong == 1
      then (if s.boxed
          then (elim s.world.heap_ptr [ none ↦ panic s.world | some d ↦ ok d s.world ])
          else fault)
      else panic s.world

-- The states that the steps of all threads reach, in any order.
pub data Reachable {Fut D : Type 0} : Handles Fut D → Type 0 where
  starts : (th : Thread) → Reachable (start_with th)
  step :
      {s s' : Handles Fut D} (e : Step Fut D) → Reachable s → perform e s ≡ some s' → Reachable s'
