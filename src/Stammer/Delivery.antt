-- ===== src/Stammer/Delivery.antt =====
-- stammer/src/task_routing.rs: what is sent for a voice packet and for a text message.
use atof.Prelude.{
  ℕ, ◌≡◌, refl, sym, subst, inl, inr, List, [], ◌∷◌, map, Option, some, Option-cases, All,
}
use atof.Prelude.Maps.{lookup}
use atof.Voice.Packet.{VoicePacketPayload, audio}
use atof.Control.Packet.{version, text_message, Protobuf, proto, tunnel}
use atof.Stammer.RoutingTable.{Session}
use atof.Stammer.Membership.{Valid}
use atof.Stammer.Recipients.{PeerSenders, target_senders-PeerSenders}
use atof.Stammer.ControlTask.{Table, voice, text}
use atof.Stammer.RoutingTask.{
  TextFields, Sent, send_all, both, session_senders, rooms_senders, route_text, routing_step,
}

module _ {protobuf : Protobuf} (fields : TextFields protobuf) {Sender : Type 0} where
  -- A voice packet to target 0 from a session of a valid table is sent to the senders of the other
  -- sessions of its room, each exactly once, and to nothing else. What is sent names the session as
  -- its source, and is otherwise as it came. The table stays as it is.
  pub routing_step-voice :
      (t : Table protobuf Sender) (id seq_num : ℕ) (payload : VoicePacketPayload)
      (position_info : Option (List ℕ)) (s : Session (protobuf.Message version) Sender)
      → Valid t
      → lookup id t.sessions ≡ some s
      → (senders : List Sender) × (routing_step fields Sender
            (voice id (audio 0 tt seq_num payload position_info))
            t
          ≡ some (
            t,
            map (λ (x : Sender). (x, tunnel (audio 0 id seq_num payload position_info))) senders,
          ))
        × PeerSenders t s.room_id id senders
  unfolding routing_step
  routing_step-voice t id seq_num payload position_info s v held =
      let (senders, found, peers) = target_senders-PeerSenders t id s v held in
      (senders, rw (routing_step, found) refl, peers)

  -- The actor that a sent packet names, where it is a text message.
  pub ActorIs : ℕ → Sent fields Sender → Type 0
  ActorIs id (x, proto text_message msg) = fields.get_actor msg ≡ id
  ActorIs id _ = ⊥

  send_all-ActorIs :
      (id : ℕ) (msg : protobuf.Message text_message) (senders : List Sender)
      → All
          (ActorIs id)
          (send_all fields Sender (proto text_message (fields.set_actor msg id)) senders)
  unfolding ActorIs
  send_all-ActorIs id msg [] = tt
  send_all-ActorIs id msg (x ∷ xs) = (fields.get_actor-set_actor msg id, send_all-ActorIs id msg xs)

  -- Whatever actor a client wrote into a text message, every packet that is sent for it is a text
  -- message whose actor is the session that it came from.
  pub routing_step-text :
      (t t' : Table protobuf Sender) (id : ℕ) (msg : protobuf.Message text_message)
      (sent : List (Sent fields Sender))
      → routing_step fields Sender (text id msg) t ≡ some (t', sent)
      → All (ActorIs id) sent
  unfolding routing_step route_text
  routing_step-text t t' id msg sent e =
      let msg' = fields.set_actor msg id in
      elim (Option-cases (
        both fields Sender (some (session_senders fields Sender t (fields.get_session msg')))
          (rooms_senders fields Sender t (fields.get_channel_id msg')))) [
            | inl panic ↦ let e' = rw (routing_step, route_text, panic) at e in absurd cc
            | inr (senders, found) ↦
                let e' = rw (routing_step, route_text, found) at e in
                let same : sent ≡ send_all fields Sender (proto text_message msg') senders = cc in
                subst (All (ActorIs id)) (sym same) (send_all-ActorIs id msg senders)
          ]
