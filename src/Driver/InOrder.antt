-- ===== src/Driver/InOrder.antt =====
-- In which order `poll_pool` of src/lib.rs polls the tasks.
use cosync.Base.{◌+◌}
use cosync.FuturesUnordered.{u64}
use cosync.Executor.{World}
use cosync.Driver.Pushed.{Pushed}

-- A cycle begins.
abbrev pub cycle : {Fut D : Type 0} → World Fut D → World Fut D
cycle u = record u { pool = record u.pool { poll_counter = u64 (u.pool.poll_counter + 1) } }
