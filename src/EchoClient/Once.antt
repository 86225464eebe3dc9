-- ===== src/EchoClient/Once.antt =====
-- mumble-protocol/examples/echo_client.rs: `crypt_state_sender` is used once.
use atof.Prelude.{
  ℕ, ◌+◌, ◌≡◌, refl, List, [], ◌∷◌, ◌++◌, Bool, true, false, Option, none, some, arith, Result,
  IoError, ok, err, Option-cases, if◌then◌else◌, inl, inr,
}
use atof.Voice.Packet.{clientbound}
use atof.Control.Packet.{
  version, authenticate, ping, reject, channel_remove, channel_state, user_remove, user_state,
  ban_list, permission_denied, acl, query_users, context_action_modify, context_action, user_list,
  voice_target, permission_query, codec_version, user_stats, request_blob, server_config,
  suggest_config, text_message, crypt_setup, server_sync, Protobuf, ControlPacket, proto, tunnel,
  other,
}
use atof.Crypt.State.{CryptState}
use atof.EchoClient.Connection.{
  EchoMessages, Login, Effect, to_server, send_crypt_state, set_up, connect_step, connect_loop,
  connect, hand_over,
}

module _ (protobuf : Protobuf) (msgs : EchoMessages protobuf) where
  -- How many crypt states are handed over.
  abbrev pub handed : List (Effect protobuf msgs) → ℕ
  handed [] = 0
  handed (to_server packet ∷ effects) = handed effects
  handed (send_crypt_state c ∷ effects) = 1 + handed effects

  handed-append : (xs ys : List (Effect protobuf msgs)) → handed (xs ++ ys) ≡ handed xs + handed ys
  handed-append [] ys = omega arith
  handed-append (to_server packet ∷ xs) ys = handed-append xs ys
  handed-append (send_crypt_state c ∷ xs) ys = omega (arith, handed-append xs ys)

  -- The senders that are left.
  abbrev pub senders : Login → ℕ
  senders s = if s.has_sender then 1 else 0

  -- From `s` to `s'`, a sender was used for every crypt state that was handed over.
  abbrev Uses : Login → Login → List (Effect protobuf msgs) → Type 0
  Uses s s' effects = handed effects + senders s' ≡ senders s

  ignored :
      (s s' : Login) (effects : List (Effect protobuf msgs))
      → ◌≡◌ {A = Option (Login × List (Effect protobuf msgs))} (some (s, [])) (some (s', effects))
      → Uses s s' effects
  ignored s s' effects e =
      let same : s ≡ s' = cc in let nil : [] ≡ effects = cc in rw (← nil, ← same) (omega arith)

  set_up-Uses :
      (s s' : Login) (c : Option CryptState) (effects : List (Effect protobuf msgs))
      → set_up protobuf msgs s c ≡ some (s', effects)
      → Uses s s' effects
  set_up-Uses s s' none effects e = absurd cc
  set_up-Uses s s' (some c) effects e =
      let same : record s { crypt_state = some c } ≡ s' = cc in
      let nil : [] ≡ effects = cc in rw (← nil, ← same) (omega arith)

  hand_over-Uses :
      (has_sender : Bool) (c : Option CryptState) (s' : Login)
      (effects : List (Effect protobuf msgs))
      → hand_over protobuf msgs (record { has_sender = has_sender; crypt_state = c })
        ≡ some (s', effects)
      → Uses (record { has_sender = has_sender; crypt_state = c }) s' effects
  hand_over-Uses false c s' effects e = ignored _ s' effects e
  hand_over-Uses true none s' effects e = absurd cc
  hand_over-Uses true (some c) s' effects e =
      let same : record { has_sender = false; crypt_state = none } ≡ s' = cc in
      let one : send_crypt_state c ∷ [] ≡ effects = cc in rw (← one, ← same) refl

  connect_step-Uses :
      (s s' : Login) (effects : List (Effect protobuf msgs))
      (packet : Result IoError (ControlPacket protobuf clientbound))
      (sent : Result IoError (Unit {0}))
      → connect_step protobuf msgs s packet sent ≡ some (s', effects)
      → Uses s s' effects
  unfolding connect_step
  connect_step-Uses s s' effects (err x) sent e = absurd cc
  connect_step-Uses s s' effects (ok (tunnel packet)) sent e = ignored s s' effects e
  connect_step-Uses s s' effects (ok (other raw)) sent e = ignored s s' effects e
  connect_step-Uses s s' effects (ok (proto text_message msg)) (err x) e = absurd cc
  connect_step-Uses s s' effects (ok (proto text_message msg)) (ok _) e =
      let same : s ≡ s' = cc in
      let reply : to_server
              (proto text_message (msgs.message_to (msgs.get_actor msg) (msgs.get_message msg)))
            ∷ []
          ≡ effects =
        cc in
      rw (← reply, ← same) (omega arith)
  connect_step-Uses s s' effects (ok (proto crypt_setup msg)) sent e = set_up-Uses s s' _ effects e
  connect_step-Uses s s' effects (ok (proto server_sync msg)) sent e =
      hand_over-Uses s.has_sender s.crypt_state s' effects e
  connect_step-Uses s s' effects (ok (proto version msg)) sent e = ignored s s' effects e
  connect_step-Uses s s' effects (ok (proto authenticate msg)) sent e = ignored s s' effects e
  connect_step-Uses s s' effects (ok (proto ping msg)) sent e = ignored s s' effects e
  connect_step-Uses s s' effects (ok (proto reject msg)) sent e = ignored s s' effects e
  connect_step-Uses s s' effects (ok (proto channel_remove msg)) sent e = ignored s s' effects e
  connect_step-Uses s s' effects (ok (proto channel_state msg)) sent e = ignored s s' effects e
  connect_step-Uses s s' effects (ok (proto user_remove msg)) sent e = ignored s s' effects e
  connect_step-Uses s s' effects (ok (proto user_state msg)) sent e = ignored s s' effects e
  connect_step-Uses s s' effects (ok (proto ban_list msg)) sent e = ignored s s' effects e
  connect_step-Uses s s' effects (ok (proto permission_denied msg)) sent e = ignored s s' effects e
  connect_step-Uses s s' effects (ok (proto acl msg)) sent e = ignored s s' effects e
  connect_step-Uses s s' effects (ok (proto query_users msg)) sent e = ignored s s' effects e
  connect_step-Uses s s' effects (ok (proto context_action_modify msg)) sent e =
      ignored s s' effects e
  connect_step-Uses s s' effects (ok (proto context_action msg)) sent e = ignored s s' effects e
  connect_step-Uses s s' effects (ok (proto user_list msg)) sent e = ignored s s' effects e
  connect_step-Uses s s' effects (ok (proto voice_target msg)) sent e = ignored s s' effects e
  connect_step-Uses s s' effects (ok (proto permission_query msg)) sent e = ignored s s' effects e
  connect_step-Uses s s' effects (ok (proto codec_version msg)) sent e = ignored s s' effects e
  connect_step-Uses s s' effects (ok (proto user_stats msg)) sent e = ignored s s' effects e
  connect_step-Uses s s' effects (ok (proto request_blob msg)) sent e = ignored s s' effects e
  connect_step-Uses s s' effects (ok (proto server_config msg)) sent e = ignored s s' effects e
  connect_step-Uses s s' effects (ok (proto suggest_config msg)) sent e = ignored s s' effects e

  connect_loop-Uses :
      (s s' : Login) (effects : List (Effect protobuf msgs))
      (events : List
        (Result IoError (ControlPacket protobuf clientbound) × Result IoError (Unit {0})))
      → connect_loop protobuf msgs s events ≡ some (s', effects)
      → Uses s s' effects
  unfolding connect_loop
  connect_loop-Uses s s' effects [] e = ignored s s' effects e
  connect_loop-Uses s s' effects ((packet, sent) ∷ events) e =
      elim (Option-cases (connect_step protobuf msgs s packet sent)) [
        | inl panic ↦ absurd (let e' = rw (panic, connect_loop) at e in cc)
        | inr ((next, first), stepped) ↦
            elim (Option-cases (connect_loop protobuf msgs next events)) [
              | inl panic ↦
                  absurd (let e' = rw (stepped, connect_loop) at e in let e2 = rw panic at e' in cc)
              | inr ((last, later), looped) ↦
                  let e' = rw (stepped, connect_loop) at e in
                  let e2 = rw looped at e' in
                  let same : last ≡ s' = cc in
                  let all : first ++ later ≡ effects = cc in
                  let used = connect_step-Uses s next first packet sent stepped in
                  let rest = connect_loop-Uses next last later events looped in
                  rw (← all, ← same) (omega (arith, used, rest, handed-append first later))
            ]
      ]

  -- However the server's packets come, `connect` hands over one crypt state at most: if it does not
  -- panic, the sender is still there exactly if none was handed over.
  pub connect-once :
      (user_name : List ℕ) (sent : Result IoError (Unit {0}))
      (events : List
        (Result IoError (ControlPacket protobuf clientbound) × Result IoError (Unit {0})))
      (s : Login) (effects : List (Effect protobuf msgs))
      → connect protobuf msgs user_name sent events ≡ some (s, effects)
      → handed effects + senders s ≡ 1
  unfolding connect
  connect-once user_name (err x) events s effects e = absurd cc
  connect-once user_name (ok _) events s effects e =
      elim (Option-cases
        (connect_loop protobuf msgs (record { has_sender = true; crypt_state = none }) events)) [
          | inl panic ↦ absurd (let e' = rw (panic, connect_loop) at e in cc)
          | inr ((last, later), looped) ↦
              let e' = rw looped at e in
              let same : last ≡ s = cc in
              let hello : to_server (proto authenticate (msgs.authenticate_as user_name)) ∷ later
                  ≡ effects =
                cc in
              let rest =
                connect_loop-Uses (record { has_sender = true; crypt_state = none }) last later
                  events looped in
              rw (← hello, ← same) rest
        ]
