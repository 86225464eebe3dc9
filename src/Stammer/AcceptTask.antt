-- ===== src/Stammer/AcceptTask.antt =====
-- stammer/src/task_accept.rs: the loop that takes connections and numbers the sessions. The listener
-- and the stop signal answer through the events, and a session's task is known by its id. `none` is
-- a panic.
use atof.Prelude.{ℕ, List, [], ◌∷◌, ◌++◌, Option, none, some, length, Result, IoError, ok, err}
use atof.Prelude.Words.{u32}
use atof.Control.Packet.{Protobuf}
use atof.Stammer.ControlTask.{ControlMessage, shutdown}

-- What `select!` waits for. A stream that was accepted is left out.
pub data AcceptEvent : Type 0 where
  stop_notified : AcceptEvent
  connection : Option (Result IoError (Unit {0})) → AcceptEvent

module _ (protobuf : Protobuf) (Sender : Type 0) where
  -- The ids of the sessions that were started, and what was sent to the control task.
  abbrev pub Accepted : Type 0
  Accepted = List ℕ × List (ControlMessage protobuf Sender)

  -- The loop over the events that occur, as far as they are given, and what follows its `break`.
  unfoldable pub run_accept_task : List ℕ → List AcceptEvent → Option Accepted
  run_accept_task sessions [] = some (sessions, [])
  run_accept_task sessions (stop_notified ∷ events) = some (sessions, shutdown ∷ [])
  run_accept_task sessions (connection none ∷ events) = none
  run_accept_task sessions (connection (some (err _)) ∷ events) = some (sessions, shutdown ∷ [])
  run_accept_task sessions (connection (some (ok _)) ∷ events) =
      run_accept_task (sessions ++ (u32 (length sessions) ∷ [])) events
