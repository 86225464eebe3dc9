-- ===== src/Stammer/Sessions.antt =====
-- stammer/src/task_session.rs: what a session sends to the other tasks, and how it ends.
use atof.Prelude.{
  ℕ, ◌-◌, ◌≡◌, refl, ◌⊎◌, inl, inr, List, [], ◌∷◌, ◌++◌, Bool, true, false, Option, none, some,
  Option-cases, Bool-cases, Result-cases, ltb, Result, IoError, ok, err, All, All-append,
}
use atof.Voice.Packet.{serverbound, clientbound}
use atof.Control.Packet.{version, ping, text_message, Protobuf, ControlPacket, proto, tunnel, other}
use atof.Stammer.ControlTask.{
  ControlMessage, packet, add_session, remove_session, RoutingMessage, voice, text, update,
}
use atof.Stammer.SessionTask.{
  Event, from_client, from_server, keepalive, Effect, to_client, to_control, to_routing,
  version_exchange, after_send, handle_client, session_step, session_loop, run_session_task,
}

module _ {protobuf : Protobuf} {Sender : Type 0} where
  -- A message to another task names the session that it comes from.
  pub Own : ℕ → Effect protobuf Sender → Type 0
  Own id (to_client _) = Unit {0}
  Own id (to_control (packet k _)) = k ≡ id
  Own id (to_control (add_session k _)) = k ≡ id
  Own id (to_control (remove_session k)) = k ≡ id
  Own id (to_control ControlMessage.shutdown) = ⊥
  Own id (to_routing (voice k _)) = k ≡ id
  Own id (to_routing (text k _)) = k ≡ id
  Own id (to_routing (update _)) = ⊥
  Own id (to_routing RoutingMessage.shutdown) = ⊥

  -- What a session that fails sends last.
  abbrev pub Removed : ℕ → List (Effect protobuf Sender) → Type 0
  Removed id effects =
      (before : List (Effect protobuf Sender)) × (before ++ (to_control (remove_session id) ∷ [])
        ≡ effects)

module _ (protobuf : Protobuf) (Sender : Type 0) where
  after_send-Own :
      (id last : ℕ) (p : ControlPacket protobuf clientbound) (sent : Result IoError (Unit {0}))
      → All (Own id) (after_send protobuf Sender id last (to_client p ∷ []) sent).1
  unfolding Own
  after_send-Own id last p (ok _) = (tt, tt)
  after_send-Own id last p (err _) = (tt, (refl, tt))

  handle_client-Own :
      (id last : ℕ) (p : ControlPacket protobuf serverbound) (sent : Result IoError (Unit {0}))
      (now : ℕ)
      → All (Own id) (handle_client protobuf Sender id last p sent now).1
  unfolding Own handle_client
  handle_client-Own id last (tunnel _) sent now = (refl, tt)
  handle_client-Own id last (proto text_message msg) sent now = (refl, tt)
  handle_client-Own id last (proto ping msg) sent now = after_send-Own id now (proto ping msg) sent
  handle_client-Own id last (proto _ msg) sent now = (refl, tt)
  handle_client-Own id last (other _) sent now = (refl, tt)

  after_send-Removed :
      (id last : ℕ) (effects : List (Effect protobuf Sender)) (sent : Result IoError (Unit {0}))
      → (after_send protobuf Sender id last effects sent).0 ≡ none
      → Removed id (after_send protobuf Sender id last effects sent).1
  after_send-Removed id last effects (ok _) e = absurd cc
  after_send-Removed id last effects (err _) e = (effects, refl)

  handle_client-Removed :
      (id last : ℕ) (p : ControlPacket protobuf serverbound) (sent : Result IoError (Unit {0}))
      (now : ℕ)
      → (handle_client protobuf Sender id last p sent now).0 ≡ none
      → Removed id (handle_client protobuf Sender id last p sent now).1
  unfolding handle_client
  handle_client-Removed id last (tunnel _) sent now e = absurd cc
  handle_client-Removed id last (proto text_message msg) sent now e = absurd cc
  handle_client-Removed id last (proto ping msg) sent now e =
      after_send-Removed id now (to_client (proto ping msg) ∷ []) sent e
  handle_client-Removed id last (proto _ msg) sent now e = absurd cc
  handle_client-Removed id last (other _) sent now e = absurd cc

  module _ (timeout : ℕ) where
    session_step-Own :
        (id last : ℕ) (event : Event protobuf Sender)
        → All (Own id) (session_step protobuf Sender timeout id last event).1
    unfolding Own session_step
    session_step-Own id last (from_client none sent now) = (refl, tt)
    session_step-Own id last (from_client (some (err _)) sent now) = (refl, tt)
    session_step-Own id last (from_client (some (ok p)) sent now) =
        handle_client-Own id last p sent now
    session_step-Own id last (from_server none sent) = tt
    session_step-Own id last (from_server (some p) sent) = after_send-Own id last p sent
    session_step-Own id last (keepalive now) = elim (Bool-cases (ltb timeout (now - last))) [
      | inl late ↦ rw late (refl, tt)
      | inr alive ↦ rw alive tt
    ]

    session_loop-Own :
        (id last : ℕ) (events : List (Event protobuf Sender))
        → All (Own id) (session_loop protobuf Sender timeout id last events)
    unfolding session_loop
    session_loop-Own id last [] = tt
    session_loop-Own id last (event ∷ events) =
        let own = session_step-Own id last event in
        elim (Option-cases (session_step protobuf Sender timeout id last event).0) [
          | inl ends ↦ rw (session_loop, ends) own
          | inr (last', goes_on) ↦
              rw (session_loop, goes_on)
                (All-append (Own id) (session_step protobuf Sender timeout id last event).1 _ own
                  (session_loop-Own id last' events))
        ]

    -- Whatever the client sends and however the session ends, every message to another task names
    -- the session that it comes from, and none is an update of the table or a shutdown.
    pub run_session_task-Own :
        (id : ℕ) (server_version : protobuf.Message version) (sent : Result IoError (Unit {0}))
        (reply : Option (Result IoError (ControlPacket protobuf serverbound)))
        (session_send : Sender) (control_open : Bool) (start : ℕ)
        (events : List (Event protobuf Sender))
        → All (Own id) (
            run_session_task protobuf Sender timeout id server_version sent reply session_send
              control_open start events)
    unfolding run_session_task Own
    run_session_task-Own id server_version sent reply session_send true start events =
        elim (Result-cases (version_exchange protobuf Sender sent reply)) [
          | inl (v, agreed) ↦
              rw (run_session_task, agreed) (tt, (refl, session_loop-Own id start events))
          | inr (e, failed) ↦ rw (run_session_task, failed) (tt, tt)
        ]
    run_session_task-Own id server_version sent reply session_send false start events =
        elim (Result-cases (version_exchange protobuf Sender sent reply)) [
          | inl (v, agreed) ↦ rw (run_session_task, agreed) (tt, tt)
          | inr (e, failed) ↦ rw (run_session_task, failed) (tt, tt)
        ]

    -- The loop ends on an event only when the server has dropped the session's channel, or with a
    -- request to remove the session, which is the last thing it sends.
    pub session_step-Removed :
        (id last : ℕ) (event : Event protobuf Sender)
        → (session_step protobuf Sender timeout id last event).0 ≡ none
        → ((sent : Result IoError (Unit {0})) × (event ≡ from_server none sent))
          ⊎ Removed id (session_step protobuf Sender timeout id last event).1
    unfolding session_step
    session_step-Removed id last (from_client none sent now) e = inr ([], refl)
    session_step-Removed id last (from_client (some (err _)) sent now) e = inr ([], refl)
    session_step-Removed id last (from_client (some (ok p)) sent now) e =
        inr (handle_client-Removed id last p sent now e)
    session_step-Removed id last (from_server none sent) e = inl (sent, refl)
    session_step-Removed id last (from_server (some p) sent) e =
        inr (after_send-Removed id last (to_client p ∷ []) sent e)
    session_step-Removed id last (keepalive now) e = elim (Bool-cases (ltb timeout (now - last))) [
      | inl late ↦ inr (rw late ([], refl))
      | inr alive ↦ let e' = rw alive at e in absurd cc
    ]
