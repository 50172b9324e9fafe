-- ===== src/Notify.antt =====
-- src/lib.rs: `ThreadNotify`, and src/futures/enter.rs: the thread-local marks of an executor.
pub mod Threads
use cosync.Base.{ℕ, Bool, true, false, Option, none, some, ◌==◌, if◌then◌else◌}

-- The thread locals of one thread: `unparked` of `CURRENT_THREAD_NOTIFY`, the token that `unpark`
-- leaves for `park`, and `ENTERED`.
pub record Thread : Type 0 where
  pub id : ℕ
  pub unparked : Bool
  pub token : Bool
  pub entered : Bool

-- `ThreadNotify::wake_by_ref`
unfoldable pub wake_by_ref : Thread → Thread
wake_by_ref t = if t.unparked then t else record t { unparked = true; token = true }

-- Wakes the thread with this id. A thread other than `t` keeps its own locals.
unfoldable pub wake_thread : Thread → Option ℕ → Thread
unfolding wake_by_ref
wake_thread t none = t
wake_thread t (some w) = if w == t.id then wake_by_ref t else t

pub data Enter : Type 0 where
  enter_ok : Thread → Enter
  enter_error : Enter

-- `enter`, and the drop of its guard. The drop asserts that the mark is there.
unfoldable pub enter : Thread → Enter
enter t = if t.entered then enter_error else enter_ok (record t { entered = true })

unfoldable pub exit : Thread → Option Thread
exit t = if t.entered then some (record t { entered = false }) else none

-- What follows a poll that did not finish in `run_blocking`. `none` is a `park` that waits.
unfoldable pub park_or_continue : Thread → Option Thread
park_or_continue t =
    if t.unparked
    then some (record t { unparked = false })
    else if t.token
    then some (record t { unparked = false; token = false })
    else none
