-- ===== src/Stammer/System/Tests.antt =====
-- A run of the control and the routing task: a session is added, authenticates and speaks.
use atof.Prelude.{true, refl, List, [], ◌∷◌, ◌++◌, ◌≡◌, ℕ, none, false}
use atof.Voice.Packet.{audio, opus}
use atof.Control.Packet.{authenticate, proto}
use atof.Control.Plain.{plain_messages}
use atof.Stammer.RoutingTable.{RoutingTable, default, enroll_session}
use atof.Stammer.ControlTask.{
  ControlMessage, packet, add_session, RoutingMessage, voice, update, UnAuthSession, handle_packet,
  control_step,
}
use atof.Stammer.RoutingTask.{routing_step}
use atof.Stammer.Plain.{plain_fields}
use atof.Stammer.System.{
  System, Reachable, start, moves, accept_stops, control_message, control_task, voice_message,
  routing_task,
}
use atof.Stammer.System.Shutdown.{Open, Reachable-Open}
use atof.Stammer.System.Stopping.{ControlSteps, Reachable-ends}
use atof.Stammer.System.Coherence.{Coherent, Reachable-Coherent}

abbrev guest : UnAuthSession plain_messages ℕ
guest = record { version = 4 ∷ []; send = 101 }

abbrev enrolled : RoutingTable (List ℕ) ℕ
enrolled = enroll_session default 1 (4 ∷ []) 101

-- The update waits before the packet.
abbrev speaking : System plain_fields ℕ
speaking = record {
  accepting = true;
  control_runs = true;
  routing_closed = false;
  control = record { unauth = []; rtbl = enrolled; closed = false };
  table = default;
  to_control = [];
  to_routing = update enrolled ∷ voice 1 (audio 0 tt 0 (opus [] false) none) ∷ [];
}

speaking-Reachable : Reachable plain_fields ℕ speaking
unfolding control_step handle_packet
speaking-Reachable =
    moves
      (moves
        (moves
          (moves (moves start (control_message (add_session 1 guest) tt refl))
            (control_message (packet 1 (proto authenticate [])) tt refl))
          (control_task (add_session 1 guest) (packet 1 (proto authenticate []) ∷ [])
            (record { unauth = (1, guest) ∷ []; rtbl = default; closed = false }) [] refl refl
            refl))
        (control_task (packet 1 (proto authenticate [])) []
          (record { unauth = []; rtbl = enrolled; closed = false }) (update enrolled ∷ []) refl refl
          refl))
      (voice_message 1 (audio 0 tt 0 (opus [] false) none) refl)

abbrev taken_over : System plain_fields ℕ
taken_over = record speaking {
  table = enrolled;
  to_routing = voice 1 (audio 0 tt 0 (opus [] false) none) ∷ [];
}

taken_over-Reachable : Reachable plain_fields ℕ taken_over
unfolding routing_step
taken_over-Reachable = moves speaking-Reachable (
    routing_task (update enrolled) (voice 1 (audio 0 tt 0 (opus [] false) none) ∷ []) enrolled []
      refl refl)

Reachable-Coherent_example : Coherent plain_fields ℕ taken_over
Reachable-Coherent_example = Reachable-Coherent plain_fields ℕ taken_over taken_over-Reachable

abbrev stopped : System plain_fields ℕ
stopped = record taken_over { accepting = false; to_control = ControlMessage.shutdown ∷ [] }

Reachable-Open_example : Open plain_fields ℕ stopped
Reachable-Open_example =
    Reachable-Open plain_fields ℕ stopped (moves taken_over-Reachable (accept_stops refl))

Reachable-ends_example :
    (s' : System plain_fields ℕ) × ControlSteps plain_fields ℕ stopped s'
    × (s'.control_runs ≡ false)
    × (s'.to_control ≡ [])
    × (sent : List (RoutingMessage plain_messages ℕ)) × (s'.to_routing
        ≡ stopped.to_routing ++ (sent ++ (RoutingMessage.shutdown ∷ [])))
Reachable-ends_example =
    Reachable-ends plain_fields ℕ stopped (moves taken_over-Reachable (accept_stops refl)) refl refl
