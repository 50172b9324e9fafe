-- ===== src/Lib.antt =====
-- cosync, an executor for tasks that share one mutable parameter: a model of its pool of futures, of
-- the queues and wakers below it, and of `Cosync` above it, with the theorems that make them right.
--
-- The parts, from the bottom up:
-- - Base: numbers, options, lists; pointers are numbers (0 is null, 1 the stub task) and a field of a
--   heap object is a map from pointers. A null dereference is `none`.
-- - ReadyToRunQueue: src/futures/ready_to_run_queue.rs, the intrusive queue of tasks to poll. `Chain`
--   says what its pointers stand for while producers are between their two writes, `Fifo` and
--   `Contents` relate `enqueue` and `dequeue` to lists, `Producers` is about what producers
--   have yet to write, `Consumer` runs any number of them and one consumer access by access, `Consumes`,
--   `Consumed` and `Gives` say what each access of the consumer leads to.
-- - AllTasks: the doubly linked list of all tasks, from `link`, `unlink` and
--   `atomic_load_head_and_len_all` of src/futures/futures_unordered.rs and `spin_next_all` of
--   src/futures/task.rs. `Linked` says what its pointers stand for, `Edits` is its operations.
-- - AtomicWaker: src/futures/atomic_waker.rs, one function for each atomic access or critical section
--   and their composition with no other thread in between. `Threads` runs any number of threads step by
--   step.
-- - Notify: `ThreadNotify` of src/lib.rs and the guard of src/futures/enter.rs. `Threads` is the loop of
--   `run_blocking` among any number of threads that wake it.
-- - FuturesUnordered: the pool of src/futures/futures_unordered.rs over these parts, but for
--   `poll_next`, and `Task::wake_by_ref` of src/futures/task.rs. `Valid` is the invariant of the pool,
--   `Wakes`, `Turns` and `Clear` take its operations one by one, `Abort` has `clear` among
--   producers on other threads.
-- - WakerRef: the pool with the strong counts of its tasks: the waker table of src/futures/waker_ref.rs,
--   `ArcWake` of src/futures/mod.rs, the drop of src/futures/task.rs, and again every operation of
--   src/futures/futures_unordered.rs that makes, passes on or drops a reference. `Counts`, `Rounds` and
--   `Drops` take them one by one, `Upgrades` and `Flying` have a wake that is under way while the pool
--   is dropped, `Uses` is who may call what, `Seen`, `Performed`, `Owner` and `Freed` are about all that
--   such calls reach.
-- - Iter: src/futures/iter.rs, and the two loops over it in src/lib.rs. `Exact` goes call by call, `Visits`
--   has the loops.
-- - Executor: the state of a `Cosync` with its thread (`World`), what a future may do in a poll
--   (`Script`) and `poll_next`, as rounds of its loop (`turn`). `Frame` is about what no call in it
--   touches, `Polls` is one poll, `Turns` and `Polled` are the rounds, `Safety` all of `poll_next` on any
--   futures, `Halts`, `Seen`, `Wakeful` and `Termination` are about futures that wake themselves,
--   `Livelock` about a first pending task that nobody wakes. `Rounds` and `Cycle` follow the tasks through
--   all of `poll_next`, `Once` and `Order` the tasks that it polls, `Covers` what holds of these at the
--   end; `Interleaved` has other threads between its rounds, `Among` the polls of such a run, and
--   `HalfWoken` has a `poll_next` while a wake is half done. `Works` says
--   what it is for a future to come nearer to its end in every poll; `Working`, `Yields`, `Onward` and
--   `Ends` take such futures through one poll, a round and all of `poll_next`, with the waker of the
--   executor and the mark of its thread.
-- - Driver: `Cosync` and its handles in src/lib.rs: queueing, cancelling, `poll_pool`, `run` and
--   `run_blocking`. `Open` is about the box and the mark of `enter` during a run, `Safety`
--   about `poll_pool` and `run`, `Pushed` about the tasks that come into the pool, `Cycle`, `Each` and
--   `InOrder` about the tasks that a run polls, `Blocking` is about
--   `run_blocking`, `Cancel` about `stop_running_task` and `unqueue_task`. `Spread`, `Ends`, `Rest` and
--   `Between` take futures that come nearer to their end through `poll_pool`, `Lessens` through `run`,
--   `Completes` through `run_blocking`, and `Queued` has them queued. `Handles` has queue handles on
--   any number of threads, step by step: `Strong` is about the references to the incoming queue, `Ids`
--   and `Numbered` about the ids of the tasks.
-- - Serial: src/serial.rs; `Single` is about its pool of one task, `Order` about the order in which it
--   starts tasks, `Views` about what it says of itself.
-- - Ticks: `SleepForTick` and `Yield` of src/lib.rs as scripts.
-- - Tests: concrete futures and pools; the unit tests of src/lib.rs and src/serial.rs (`Sequences`,
--   `Queueing`, `Moves`) and the programs examples/basic.rs and examples/serial.rs (`Games`), which `Runs` runs to the
--   results that they assert.
--
-- State and failure. Each `&mut self` function is a function from state to state. `Option` is used
-- where the only failure is undefined behaviour or a failed assertion (`none`); the assertions of a
-- debug build are kept, while arithmetic on `u64` wraps as in a release build. `Run` adds panics, which
-- keep the state, and the end of the fuel.
--
-- User futures are parameters: the code of a future is `poll`, which gives for the state of a future
-- the calls that one poll makes, in order, as a `Script`: reading its waker, waking any task of the
-- pool, reading and writing the parameter through `CosyncInput::get`, queueing through
-- `CosyncInput::queue`, `unqueue_task` of a handle that it made, and its result. No future is fixed. The
-- field `polled` of `World` is no state of the program: it records the calls of `Future::poll`, so that
-- theorems can say which tasks were polled.
--
-- Bounds and fuel. `poll_next`, the loop of `poll_pool`, the loops of `clear` and the loops over
-- iterators take fuel, and one that ends its fuel gives `out_of_fuel` or `none`. A loop over the tasks
-- needs one round for every task and one more; WakerRef.Uses gives one more than there are addresses in
-- use. How many rounds `poll_next` and the loop of `poll_pool` need depends on the futures, and so does
-- whether they end; Executor.Works has the futures for which all loops end, with the fuel that is enough.
--
-- Threads. Where other threads matter there are steps of their own and `Reachable` states. In
-- AtomicWaker.Threads, Notify.Threads and Driver.Handles a step is a single atomic access or a critical
-- section; the end of `register` is one step, also where its exchange fails: there the state is
-- `REGISTERING | WAKING`, and no other thread may enter until the `swap` that follows. In
-- ReadyToRunQueue.Consumer a step is one access of what is shared, by a producer or by the consumer
-- within `dequeue`; the store of null in the successor of a task that is not yet in the queue goes with
-- the swap of `head`. In WakerRef.Uses a step is a whole call, but for a wake, which may also come in
-- two parts, so that no call there meets a half-done `enqueue`; FuturesUnordered.Abort is about a
-- `clear` that does. Executor.Interleaved has whole calls of other threads between the rounds of
-- `poll_next`, Executor.HalfWoken a whole `poll_next` between the two writes of an `enqueue`. The atomics are sequentially consistent.
--
-- Not modelled: weaker memory orderings; all of these threads in one state; the weak counts; the abort of `Arc` at `2 ^ 63`
-- clones. A task stays at its address for ever, and a new task has a new address. Formatting; `Send` and
-- `Sync`; poisoning of the mutex around the incoming queue; what tasks print; calls into the crate that the
-- destructor of a future makes. In `run` the parameter is copied into the box and back. A `park` that waits for ever is `out_of_fuel`.

pub mod Base
pub mod ReadyToRunQueue
pub mod AllTasks
pub mod AtomicWaker
pub mod Notify
pub mod FuturesUnordered
pub mod Iter
pub mod Executor
pub mod Driver
pub mod Serial
pub mod Ticks
pub mod WakerRef
pub mod Tests
