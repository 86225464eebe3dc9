-- ===== src/Stammer/System.antt =====
-- stammer/src: the control and the routing task with their channels, in any interleaving of their
-- steps with what the session and the accept tasks send. A channel is a queue.
pub mod Coherence
pub mod Shutdown
mod Stopping
mod Tests
use atof.Prelude.{ℕ, ◌≡◌, List, [], ◌∷◌, ◌++◌, Bool, true, false, some}
use atof.Voice.Packet.{serverbound, VoicePacket}
use atof.Control.Packet.{MessageName, Protobuf}
use atof.Stammer.RoutingTable.{default}
use atof.Stammer.RoutingTask.{TextFields, Sent, routing_step}
use atof.Stammer.ControlTask.{
  ControlMessage, RoutingMessage, voice, text, ControlState, initial, Table, control_step,
}

module _ {protobuf : Protobuf} (fields : TextFields protobuf) (Sender : Type 0) where
  -- Whether the accept and the control task run, the states of the control and the routing task, the
  -- messages that wait for each, and whether the routing task has closed its channel. The field
  -- `closed` of the control task's state says this of its channel.
  pub record System : Type 0 where
    pub accepting : Bool
    pub control_runs : Bool
    pub control : ControlState protobuf Sender
    pub table : Table protobuf Sender
    pub routing_closed : Bool
    pub to_control : List (ControlMessage protobuf Sender)
    pub to_routing : List (RoutingMessage protobuf Sender)

  -- A session does not send a shutdown.
  abbrev pub FromSession : ControlMessage protobuf Sender → Type 0
  FromSession ControlMessage.shutdown = ⊥
  FromSession _ = Unit {0}

  abbrev pub closes : RoutingMessage protobuf Sender → Bool → Bool
  closes RoutingMessage.shutdown closed = true
  closes _ closed = closed

  -- A step of the server: a session sends a message to a channel that is open, the accept task stops,
  -- the control or the routing task takes its next message and handles it, or the control task ends,
  -- when its channel is closed and empty.
  pub data Moves (s : System) : System → Type 0 where
    control_message :
        (m : ControlMessage protobuf Sender)
        → FromSession m
        → s.control.closed ≡ false
        → Moves s (record s { to_control = s.to_control ++ (m ∷ []) })
    voice_message :
        (id : ℕ) (packet : VoicePacket serverbound.SessionId)
        → s.routing_closed ≡ false
        → Moves s (record s { to_routing = s.to_routing ++ (voice id packet ∷ []) })
    text_message :
        (id : ℕ) (msg : protobuf.Message MessageName.text_message)
        → s.routing_closed ≡ false
        → Moves s (record s { to_routing = s.to_routing ++ (text id msg ∷ []) })
    accept_stops :
        s.accepting ≡ true
        → Moves s (record s {
          accepting = false;
          to_control = s.to_control ++ (ControlMessage.shutdown ∷ []);
        })
    control_task :
        (m : ControlMessage protobuf Sender) (ms : List (ControlMessage protobuf Sender))
        (c : ControlState protobuf Sender) (sent : List (RoutingMessage protobuf Sender))
        → s.control_runs ≡ true
        → s.to_control ≡ m ∷ ms
        → control_step protobuf Sender m s.control ≡ some (c, sent)
        → Moves s (record s { control = c; to_control = ms; to_routing = s.to_routing ++ sent })
    control_ends :
        s.control_runs ≡ true
        → s.control.closed ≡ true
        → s.to_control ≡ []
        → Moves s (record s {
          control_runs = false;
          to_routing = s.to_routing ++ (RoutingMessage.shutdown ∷ []);
        })
    routing_task :
        (m : RoutingMessage protobuf Sender) (ms : List (RoutingMessage protobuf Sender))
        (t : Table protobuf Sender) (sent : List (Sent fields Sender))
        → s.to_routing ≡ m ∷ ms
        → routing_step fields Sender m s.table ≡ some (t, sent)
        → Moves s
            (record s { table = t; routing_closed = closes m s.routing_closed; to_routing = ms })

  -- The states that the server can come to from its start.
  pub data Reachable : System → Type 0 where
    start : Reachable (record {
      accepting = true;
      control_runs = true;
      control = initial protobuf Sender;
      table = default;
      routing_closed = false;
      to_control = [];
      to_routing = [];
    })
    moves : {s s' : System} → Reachable s → Moves s s' → Reachable s'
