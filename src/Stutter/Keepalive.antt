-- ===== src/Stutter/Keepalive.antt =====
-- stutter/src/task_connection.rs and stammer/src/task_session.rs: the client's pings and the
-- server's check of the time since the last one.
use atof.Prelude.{
  ℕ, zero, suc, ◌+◌, ◌-◌, ◌≤◌, ◌≡◌, refl, List, [], ◌∷◌, some, arith, ltb-false, All, All-append,
  Result, IoError, ok,
}
use atof.Voice.Packet.{serverbound, clientbound}
use atof.Control.Packet.{ping, text_message, Protobuf, ControlPacket, proto, tunnel, other}
use atof.Stammer.ControlTask.{remove_session}
use atof.Stammer.SessionTask.{
  Event, from_client, from_server, keepalive, Effect, to_control, handle_client, session_step,
  session_loop,
}
use atof.Stutter.Connection.{ping_interval}

module _ (protobuf : Protobuf) (Sender : Type 0) (session_timeout delay begin : ℕ) where
  -- When the client sends its ping number `k`: the first when it begins, then one each interval.
  abbrev pub sent_at : ℕ → ℕ
  sent_at zero = begin
  sent_at (suc k) = sent_at k + ping_interval session_timeout

  abbrev pub NotPing : ControlPacket protobuf serverbound → Type 0
  NotPing (proto ping _) = ⊥
  NotPing _ = Unit {0}

  -- What happens to a session, in the order of time, from when the ping `k` is the next: each ping
  -- arrives after at most `delay`, at any time in between the session checks the time or handles
  -- other packets, and what it sends is accepted.
  pub data Timeline : (k now : ℕ) → List (Event protobuf Sender) → Type 0 where
    ends : {k now : ℕ} → Timeline k now []
    pings :
        {k now : ℕ} {events : List (Event protobuf Sender)} (msg : protobuf.Message ping)
        (later : ℕ)
        → now ≤ later
        → sent_at k ≤ later
        → later ≤ sent_at k + delay
        → Timeline (suc k) later events
        → Timeline k now (from_client (some (ok (proto ping msg))) (ok tt) later ∷ events)
    checks :
        {k now : ℕ} {events : List (Event protobuf Sender)} (later : ℕ)
        → now ≤ later
        → later ≤ sent_at k + delay
        → Timeline k later events
        → Timeline k now (keepalive later ∷ events)
    asks :
        {k now : ℕ} {events : List (Event protobuf Sender)} (p : ControlPacket protobuf serverbound)
        (sent : Result IoError (Unit {0})) (later : ℕ)
        → NotPing p
        → now ≤ later
        → Timeline k later events
        → Timeline k now (from_client (some (ok p)) sent later ∷ events)
    hears :
        {k now : ℕ} {events : List (Event protobuf Sender)} (p : ControlPacket protobuf clientbound)
        → Timeline k now events
        → Timeline k now (from_server (some p) (ok tt) ∷ events)

  -- Any effect but the session's request to be removed.
  abbrev pub Stays : Effect protobuf Sender → Type 0
  Stays (to_control (remove_session _)) = ⊥
  Stays _ = Unit {0}

  handle_client-Stays :
      (id last : ℕ) (p : ControlPacket protobuf serverbound) (sent : Result IoError (Unit {0}))
      (now : ℕ)
      → NotPing p
      → ((handle_client protobuf Sender id last p sent now).0 ≡ some last)
        × All Stays (handle_client protobuf Sender id last p sent now).1
  unfolding handle_client
  handle_client-Stays id last (tunnel _) sent now h = (refl, (tt, tt))
  handle_client-Stays id last (proto text_message msg) sent now h = (refl, (tt, tt))
  handle_client-Stays id last (proto ping msg) sent now h = elim h [ ]
  handle_client-Stays id last (proto _ msg) sent now h = (refl, (tt, tt))
  handle_client-Stays id last (other _) sent now h = (refl, (tt, tt))

  module _ (slack : ping_interval session_timeout + delay ≤ session_timeout) where
    loop-Stays :
        (id k now last : ℕ) (events : List (Event protobuf Sender))
        → sent_at k ≤ last + ping_interval session_timeout
        → Timeline k now events
        → All Stays (session_loop protobuf Sender session_timeout id last events)
    unfolding session_loop session_step handle_client
    loop-Stays id k now last [] recent ends = tt
    loop-Stays id k now last _ recent (pings {events = events} msg later _ sent _ timeline) =
        (tt, loop-Stays id (suc k) later later events (omega arith) timeline)
    loop-Stays id k now last _ recent (checks {events = events} later _ before timeline) =
        let alive = ltb-false session_timeout (later - last) (omega arith) in
        let goes_on : session_step protobuf Sender session_timeout id last (keepalive later)
            ≡ (some last, []) =
          rw (alive, session_step) refl in
        let effects = (session_step protobuf Sender session_timeout id last (keepalive later)).1 in
        let nothing : All Stays effects = rw goes_on tt in
        rw (goes_on, session_loop)
          (All-append Stays effects _ nothing (loop-Stays id k later last events recent timeline))
    loop-Stays id k now last _ recent
          (asks {events = events} p sent later other_packet _ timeline) =
        let (same, stays) = handle_client-Stays id last p sent later other_packet in
        rw (session_loop, session_step, same)
          (All-append Stays (handle_client protobuf Sender id last p sent later).1 _ stays
            (loop-Stays id k later last events recent timeline))
    loop-Stays id k now last _ recent (hears {events = events} p timeline) =
        (tt, loop-Stays id k now last events recent timeline)

    -- A session asks for its removal at no time, however its events fall, if its client pings at
    -- half the timeout and begins at most that long after the session, no ping takes longer than the
    -- other half, the connection works, and what the session sends is accepted.
    pub keepalive-Stays :
        (id start : ℕ) (events : List (Event protobuf Sender))
        → begin ≤ start + ping_interval session_timeout
        → Timeline 0 start events
        → All Stays (session_loop protobuf Sender session_timeout id start events)
    keepalive-Stays id start events soon timeline = loop-Stays id 0 start start events soon timeline
