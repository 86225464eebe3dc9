-- ===== src/Stutter/Tests/Server.antt =====
-- A client and the server: the handshake, and a frame of speech.
use atof.Prelude.{ℕ, ◌≡◌, refl, List, [], ◌∷◌, map, some, arith, All, ok}
use atof.Prelude.Maps.{lookup}
use atof.Control.Packet.{version, ping, proto}
use atof.Control.Plain.{plain_messages}
use atof.Stammer.RoutingTable.{Session, RoutingTable, default, enroll_session}
use atof.Stammer.Membership.{Valid, default-Valid}
use atof.Stammer.Operations.{enroll_session-Valid}
use atof.Stammer.Recipients.{PeerSenders}
use atof.Stammer.ControlTask.{ControlState}
use atof.Stammer.ControlTask
use atof.Stammer.Plain.{plain_fields}
use atof.Stutter.Messages.{inbound}
use atof.Stammer.SessionTask.{Event, from_client, keepalive, session_loop}
use atof.Stutter.Keepalive.{Timeline, ends, pings, checks, Stays, keepalive-Stays}
use atof.Stutter.Connection.{to_audio_codec}
use atof.Stutter.Speech.{speak, spoken, speak-heard}
use atof.Stutter.Plain.{plain_client}

abbrev test_control : ControlState plain_messages ℕ
test_control = ControlTask.initial plain_messages ℕ

abbrev two_sessions : RoutingTable (List ℕ) ℕ
two_sessions = enroll_session (enroll_session default 1 [] 101) 2 [] 102

two_sessions-Valid : Valid two_sessions
unfolding enroll_session
two_sessions-Valid =
    enroll_session-Valid (enroll_session default 1 [] 101) 2 [] 102
      (enroll_session-Valid default 1 [] 101 default-Valid refl) refl

abbrev speaker : Session (List ℕ) ℕ
speaker = record { room_id = 0; version = []; sender = 102 }

speaker_held : lookup 2 two_sessions.sessions ≡ some speaker
unfolding enroll_session
speaker_held = refl

speak-heard_example :
    (senders : List ℕ) × (speak plain_fields ℕ ℕ plain_client 30
        (λ x. x)
        (λ x. 3)
        2
        0
        5
        two_sessions
        (9 ∷ 8 ∷ [])
      ≡ some (
          map
            (λ (x : ℕ). (
              x,
              to_audio_codec (inbound (spoken plain_fields ℕ ℕ plain_client 2 (9 ∷ 8 ∷ []))) ∷ [],
            ))
            senders)
        ∷ [])
    × PeerSenders two_sessions 0 2 senders
speak-heard_example =
    speak-heard plain_fields ℕ ℕ plain_client 30 (λ x. x) (λ x. 3) 2 0 5 two_sessions (9 ∷ 8 ∷ [])
      speaker two_sessions-Valid speaker_held (omega arith) (omega arith)

-- A timeout of 30: a ping at once, a check of the time after 15, and the next ping after 25.
abbrev timely : List (Event plain_messages ℕ)
timely =
    from_client (some (ok (proto ping (7 ∷ [])))) (ok tt) 100
    ∷ keepalive 115
    ∷ from_client (some (ok (proto ping (8 ∷ [])))) (ok tt) 125
    ∷ keepalive 130
    ∷ []

timely-Timeline : Timeline plain_messages ℕ 30 15 100 0 100 timely
timely-Timeline = pings (7 ∷ []) 100 (omega arith) (omega arith) (omega arith) (
    checks 115 (omega arith) (omega arith) (
      pings (8 ∷ []) 125 (omega arith) (omega arith) (omega arith)
        (checks 130 (omega arith) (omega arith) ends)))

keepalive-Stays_example :
    All (Stays plain_messages ℕ 30 15 100) (session_loop plain_messages ℕ 30 7 100 timely)
keepalive-Stays_example =
    keepalive-Stays plain_messages ℕ 30 15 100 (omega arith) 7 100 timely (omega arith)
      timely-Timeline
