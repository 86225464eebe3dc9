-- ===== src/Stammer/ControlTask.antt =====
-- stammer/src/task_control.rs: the state of the control task, and what it does with a message.
-- A message for the routing task is sent by being returned, and that channel is open, as the
-- `expect`s on it say. `none` is a panic.
use atof.Prelude.{
  ℕ, List, [], ◌∷◌, ◌++◌, Option, none, some, Bool, true, false, if◌then◌else◌, Result, ok, err,
}
use atof.Prelude.Maps.{lookup, insert, remove}
use atof.Voice.Packet.{serverbound, VoicePacket}
use atof.Control.Packet.{version, authenticate, text_message, Protobuf, ControlPacket, proto}
use atof.Stammer.RoutingTable.{
  RoutingTable, TableResult, default, holds_session, enroll_session, expel_session,
}

-- The errors of `handle_packet`, by what their texts say.
pub data HandleError : Type 0 where
  bad_packet unknown_session : ℕ → HandleError

module _ (protobuf : Protobuf) (Sender : Type 0) where
  abbrev pub Table : Type 0
  Table = RoutingTable (protobuf.Message version) Sender

  pub record UnAuthSession : Type 0 where
    pub version : protobuf.Message version
    pub send : Sender

  pub data ControlMessage : Type 0 where
    packet : ℕ → ControlPacket protobuf serverbound → ControlMessage
    add_session : ℕ → UnAuthSession → ControlMessage
    remove_session : ℕ → ControlMessage
    shutdown : ControlMessage

  -- The messages of task_routing.rs.
  pub data RoutingMessage : Type 0 where
    voice : ℕ → VoicePacket serverbound.SessionId → RoutingMessage
    text : ℕ → protobuf.Message text_message → RoutingMessage
    update : Table → RoutingMessage
    shutdown : RoutingMessage

  -- The locals of `run_control_task`, and whether it closed its channel.
  pub record ControlState : Type 0 where
    pub unauth : List (ℕ × UnAuthSession)
    pub rtbl : Table
    pub closed : Bool

  abbrev pub initial : ControlState
  initial = record { unauth = []; rtbl = default; closed = false }

  -- `if let ControlPacket::Authenticate(_) = packet`
  abbrev pub is_authenticate : ControlPacket protobuf serverbound → Bool
  is_authenticate (proto authenticate _) = true
  is_authenticate _ = false

  -- The packet of a session that `unauth` held.
  abbrev pub authenticate_session :
      ℕ
      → UnAuthSession
      → ControlPacket protobuf serverbound
      → ControlState
      → ControlState × List RoutingMessage × Result HandleError (Unit {0})
  authenticate_session id session p s =
      let rtbl = enroll_session s.rtbl id session.version session.send in
      if is_authenticate p
      then (record s { rtbl = rtbl }, update rtbl ∷ [], ok tt)
      else (s, [], err (bad_packet id))

  unfoldable pub handle_packet :
      ℕ
      → ControlPacket protobuf serverbound
      → ControlState
      → ControlState × List RoutingMessage × Result HandleError (Unit {0})
  handle_packet id p s =
      if holds_session s.rtbl id then (s, [], ok tt) else (elim (lookup id s.unauth) [
        | some session ↦
            authenticate_session id session p (record s { unauth = remove id s.unauth })
        | none ↦ (s, [], err (unknown_session id))
      ])

  -- What `RemoveSession` does with the result of `expel_session`.
  abbrev pub after_expel :
      ControlState
      → TableResult (protobuf.Message version) Sender
      → Option (ControlState × List RoutingMessage)
  after_expel s none = none
  after_expel s (some (rtbl, err _)) = some (record s { rtbl = rtbl }, [])
  after_expel s (some (rtbl, ok _)) = some (record s { rtbl = rtbl }, update rtbl ∷ [])

  unfoldable pub control_step :
      ControlMessage → ControlState → Option (ControlState × List RoutingMessage)
  control_step (packet id p) s = let (s', sent, _) = handle_packet id p s in some (s', sent)
  control_step (add_session id session) s =
      some (record s { unauth = insert id session s.unauth }, [])
  control_step (remove_session id) s = elim (lookup id s.unauth) [
    | some _ ↦ some (record s { unauth = remove id s.unauth }, [])
    | none ↦ after_expel s (expel_session s.rtbl id)
  ]
  control_step shutdown s = some (record s { closed = true }, [])

  -- The loop over the messages that the channel delivers, until it is closed and drained.
  abbrev pub sent_before :
      List RoutingMessage
      → Option (ControlState × List RoutingMessage)
      → Option (ControlState × List RoutingMessage)
  sent_before sent none = none
  sent_before sent (some (s, later)) = some (s, sent ++ later)

  unfoldable pub run_control_task :
      List ControlMessage → ControlState → Option (ControlState × List RoutingMessage)
  run_control_task [] s = some (s, RoutingMessage.shutdown ∷ [])
  run_control_task (m ∷ ms) s = elim (control_step m s) [
    | none ↦ none
    | some (s', sent) ↦ sent_before sent (run_control_task ms s')
  ]
