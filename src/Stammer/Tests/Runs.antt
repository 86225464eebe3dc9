-- ===== src/Stammer/Tests/Runs.antt =====
-- Runs of the server's tasks, and their theorems at these runs.
use atof.Stammer.Tests.{one_session, three_sessions, three_sessions-Valid, second, second_held}
use atof.Prelude.{
  arith, ℕ, ◌≡◌, ◌≢◌, refl, List, [], ◌∷◌, map, true, false, none, some, ok, get_or, All,
}
use atof.Prelude.Maps.{lookup}
use atof.Voice.Packet.{audio, opus}
use atof.Control.Packet.{version, authenticate, text_message, proto, tunnel}
use atof.Control.Plain.{plain_messages}
use atof.Stammer.RoutingTable.{Session, default, enroll_session, sender}
use atof.Stammer.Membership.{Valid, default-Valid}
use atof.Stammer.Recipients.{PeerSenders}
use atof.Stammer.ControlTask.{
  remove_session, UnAuthSession, ControlMessage, packet, add_session, shutdown, RoutingMessage,
  voice, text, update, ControlState, initial, handle_packet, control_step, run_control_task,
}
use atof.Stammer.Plain.{plain_fields}
use atof.Stammer.Removal.{Gone, Unadded, run_control_task-Gone}
use atof.Stammer.Lifetime.{run_control_task-lifetime}
use atof.Stammer.AcceptTask.{AcceptEvent, stop_notified, connection, run_accept_task}
use atof.Stammer.SessionIds.{run_accept_task-distinct}
use atof.Stammer.SessionTask.{
  Event, from_client, keepalive, to_client, to_control, to_routing, version_exchange, handle_client,
  session_step, session_loop, run_session_task,
}
use atof.Stammer.Sessions.{Own, run_session_task-Own}
use atof.Stammer.RoutingTask.{
  TextFields, Sent, routing_step, run_routing_task, route_text, session_senders, rooms_senders,
}
use atof.Stammer.Enrollment.{run_control_task-follows}
use atof.Stammer.Authentication.{Enrolls, control_step-Enrolls}
use atof.Stammer.Delivery.{ActorIs, routing_step-voice, routing_step-text}

abbrev waiting : UnAuthSession plain_messages ℕ
waiting = record { version = []; send = 101 }

abbrev arrivals : List (ControlMessage plain_messages ℕ)
arrivals = add_session 1 waiting ∷ packet 1 (proto authenticate []) ∷ shutdown ∷ []

after_arrivals :
    run_control_task plain_messages ℕ arrivals (initial plain_messages ℕ)
    ≡ some (
      record { unauth = []; rtbl = one_session; closed = true },
      update one_session ∷ RoutingMessage.shutdown ∷ [],
    )
unfolding run_control_task control_step handle_packet enroll_session
after_arrivals = refl

run_control_task-follows_example :
    (s' : ControlState plain_messages ℕ) × (sent : List (RoutingMessage plain_messages ℕ))
    × (run_control_task plain_messages ℕ arrivals (initial plain_messages ℕ) ≡ some (s', sent))
    × Valid s'.rtbl
    × ((fields : TextFields plain_messages)
        → run_routing_task fields ℕ sent default ≡ some (s'.rtbl, []))
run_control_task-follows_example =
    run_control_task-follows arrivals (initial plain_messages ℕ) default-Valid

abbrev one_waiting : ControlState plain_messages ℕ
one_waiting = record { unauth = (1, waiting) ∷ []; rtbl = default; closed = false }

abbrev enrolled : Session (List ℕ) ℕ
enrolled = record { room_id = 0; version = []; sender = 101 }

enroll_one :
    control_step plain_messages ℕ (packet 1 (proto authenticate [])) one_waiting
    ≡ some (record { unauth = []; rtbl = one_session; closed = false }, update one_session ∷ [])
unfolding control_step handle_packet enroll_session
enroll_one = refl

one_held : lookup 1 one_session.sessions ≡ some enrolled
unfolding enroll_session
one_held = refl

control_step-Enrolls_example : Enrolls (packet 1 (proto authenticate [])) one_waiting 1 enrolled
control_step-Enrolls_example =
    control_step-Enrolls (packet 1 (proto authenticate [])) one_waiting _ _ 1 enrolled default-Valid
      enroll_one refl one_held

-- A text message that is the list of its actor and of the sessions it is for.
routing_step-voice_example :
    (senders : List ℕ) × (routing_step plain_fields ℕ
        (voice 2 (audio 0 tt 9 (opus [] true) none))
        three_sessions
      ≡ some
          (three_sessions, map (λ (x : ℕ). (x, tunnel (audio 0 2 9 (opus [] true) none))) senders))
    × PeerSenders three_sessions 0 2 senders
routing_step-voice_example =
    routing_step-voice plain_fields three_sessions 2 9 (opus [] true) none second
      three_sessions-Valid second_held

abbrev spoofed_sent : List (Sent plain_fields ℕ)
spoofed_sent =
    (101, proto text_message (2 ∷ 1 ∷ 50 ∷ 3 ∷ []))
    ∷ (103, proto text_message (2 ∷ 1 ∷ 50 ∷ 3 ∷ []))
    ∷ []

-- Session 2 claims to be session 77.
spoofed :
    routing_step plain_fields ℕ (text 2 (77 ∷ 1 ∷ 50 ∷ 3 ∷ [])) three_sessions
    ≡ some (three_sessions, spoofed_sent)
unfolding routing_step route_text session_senders rooms_senders enroll_session sender
spoofed = refl

routing_step-text_example : All (ActorIs plain_fields 2) spoofed_sent
routing_step-text_example =
    routing_step-text plain_fields three_sessions three_sessions 2 (77 ∷ 1 ∷ 50 ∷ 3 ∷ []) _ spoofed

-- A client that says hello, talks, sends its authentication and goes away.
abbrev visit : List (Event plain_messages ℕ)
visit =
    from_client (some (ok (tunnel (audio 0 tt 9 (opus [] true) none)))) (ok tt) 3
    ∷ from_client (some (ok (proto authenticate []))) (ok tt) 4
    ∷ keepalive 20
    ∷ from_client none (ok tt) 25
    ∷ []

visit_effects :
    run_session_task plain_messages ℕ 30 5 []
      (ok tt)
      (some (ok (proto version (7 ∷ []))))
      105
      true
      0
      visit
    ≡ to_client (proto version [])
      ∷ to_control (add_session 5 (record { version = 7 ∷ []; send = 105 }))
      ∷ to_routing (voice 5 (audio 0 tt 9 (opus [] true) none))
      ∷ to_control (packet 5 (proto authenticate []))
      ∷ to_control (remove_session 5)
      ∷ []
unfolding run_session_task session_loop session_step handle_client version_exchange
visit_effects = refl

run_session_task-Own_example : All (Own 5) (
    run_session_task plain_messages ℕ 30 5 []
      (ok tt)
      (some (ok (proto version (7 ∷ []))))
      105
      true
      0
      visit)
run_session_task-Own_example =
    run_session_task-Own plain_messages ℕ 30 5 [] (ok tt) (some (ok (proto version (7 ∷ [])))) 105
      true 0 visit

abbrev silence : Event plain_messages ℕ
silence = keepalive 31

silence_ends : (session_step plain_messages ℕ 30 5 0 silence).0 ≡ none
unfolding session_step
silence_ends = refl

abbrev two_connections : List AcceptEvent
two_connections = connection (some (ok tt)) ∷ connection (some (ok tt)) ∷ stop_notified ∷ []

accept_two :
    run_accept_task plain_messages ℕ [] two_connections
    ≡ some (0 ∷ 1 ∷ [], ControlMessage.shutdown ∷ [])
unfolding run_accept_task
accept_two = refl

abbrev two_ids : List ℕ
two_ids = 0 ∷ 1 ∷ []

run_accept_task-distinct_example : get_or two_ids 0 0 ≢ get_or two_ids 1 0
run_accept_task-distinct_example =
    run_accept_task-distinct plain_messages ℕ two_connections two_ids (ControlMessage.shutdown ∷ [])
      0 1 accept_two (omega arith) (omega arith) (omega arith)

before_removal :
    All (Unadded {protobuf = plain_messages} {Sender = ℕ} 1) (packet 1 (proto authenticate []) ∷ [])
before_removal = (λ u e. cc, tt)

run_control_task-lifetime_example :
    (s' : ControlState plain_messages ℕ) × (sent : List (RoutingMessage plain_messages ℕ))
    × (run_control_task plain_messages ℕ
          (add_session 1 waiting ∷ packet 1 (proto authenticate []) ∷ remove_session 1 ∷ [])
          (initial plain_messages ℕ)
        ≡ some (s', sent))
    × Gone 1 s'
run_control_task-lifetime_example =
    run_control_task-lifetime plain_messages ℕ (packet 1 (proto authenticate []) ∷ []) []
      (initial plain_messages ℕ) 1 waiting default-Valid before_removal tt (refl, refl)

run_control_task-Gone_example :
    (s' : ControlState plain_messages ℕ) × (sent : List (RoutingMessage plain_messages ℕ))
    × (run_control_task plain_messages ℕ
          (packet 1 (proto authenticate []) ∷ [])
          (initial plain_messages ℕ)
        ≡ some (s', sent))
    × Gone 1 s'
run_control_task-Gone_example =
    run_control_task-Gone plain_messages ℕ (packet 1 (proto authenticate []) ∷ [])
      (initial plain_messages ℕ) 1 default-Valid before_removal (refl, refl)
