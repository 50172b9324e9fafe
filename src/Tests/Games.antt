-- ===== src/Tests/Games.antt =====
-- examples/basic.rs and examples/serial.rs, and the unit test of src/serial.rs in which a task
-- sleeps, as programs. A position is a number: it is stored and compared only.
use cosync.Base.{ℕ, zero, suc, Bool, true, false, List, [], ◌∷◌}
use cosync.Executor.{Script, ready, get, put, Cmd, ok, out_of_fuel, and_then, ◌>>◌}
use cosync.Driver.{cosync_queue, handle_queue, run}
use cosync.Serial.{serial_queue, serial_run}
use cosync.Tests.Sequences.{give_way, expect}
use cosync.Tests.Queueing.{total}

-- The two positions, and `cancel_game`. The world of the second example has the same fields.
pub record Scene : Type 0 where
  pub first_position : ℕ
  pub second_position : ℕ
  pub cancel_game : Bool

-- The main loop. `k` bounds its rounds.
abbrev main_loop : {Fut : Type 0} → (Scene → Cmd Fut Scene Scene) → ℕ → Scene → Cmd Fut Scene Scene
main_loop tick zero d w = out_of_fuel
main_loop tick (suc k) d w =
    and_then (tick d w)
      λ e w1. elim e.cancel_game [ true ↦ ok e w1 | false ↦ main_loop tick k e w1 ]

-- The player and the monster of the first example. The states are the points at which its tasks wait,
-- with the ticks that are left.
pub data Basic : Type 0 where
  sleeps : ℕ → Basic
  moves_monster : Basic
  defeats : ℕ → Basic

abbrev poll_basic : Basic → Script Basic Scene
poll_basic (sleeps zero) = get λ d. put (record d { first_position = 2 }) ready
poll_basic (sleeps (suc n)) = give_way (sleeps n)
poll_basic moves_monster = get λ d. put (record d { second_position = 2 }) (give_way (defeats 99))
poll_basic (defeats zero) = get λ d. put (record d { cancel_game = true }) ready
poll_basic (defeats (suc n)) = give_way (defeats n)

abbrev pub basic : Cmd Basic Scene Scene
basic = do
  total (handle_queue (sleeps 10))
  cosync_queue moves_monster
  main_loop (run poll_basic 20 5) 200
      (record { first_position = 0; second_position = 20; cancel_game = false })

-- The marks of an actor that are left.
pub data Actor : Type 0 where
  main_actor : List ℕ → Actor
  supporting_actor : List ℕ → Actor

abbrev poll_actor : Actor → Script Actor Scene
poll_actor (main_actor []) = ready
poll_actor (main_actor (pos ∷ marks)) =
    get λ d. put (record d { first_position = pos }) (give_way (main_actor marks))
poll_actor (supporting_actor []) = get λ d. put (record d { cancel_game = true }) ready
poll_actor (supporting_actor (pos ∷ marks)) =
    get λ d. put (record d { second_position = pos }) (give_way (supporting_actor marks))

abbrev pub serial : Cmd Actor Scene Scene
serial = do
  total (serial_queue (main_actor (100 ∷ 200 ∷ 300 ∷ [])))
  total (serial_queue (supporting_actor (0 ∷ 2 ∷ 3 ∷ [])))
  main_loop (serial_run poll_actor 20 5) 20
      (record { first_position = 100; second_position = 0; cancel_game = false })

pub data Remains : Type 0 where
  sets_ten expects_twenty : Remains
  sleeping : ℕ → Remains

abbrev poll_remains : Remains → Script Remains ℕ
poll_remains sets_ten = get λ d. put 10 (give_way (sleeping 99))
poll_remains (sleeping zero) = get λ d. put 20 ready
poll_remains (sleeping (suc n)) = give_way (sleeping n)
poll_remains expects_twenty = get λ d. expect d 20 ready

abbrev pub pool_remains_sequential : Cmd Remains ℕ ℕ
pool_remains_sequential = do
  total (serial_queue sets_ten)
  total (serial_queue expects_twenty)
  serial_run poll_remains 20 5 0
