-- ===== src/Stammer/RoutingTask.antt =====
-- stammer/src/task_routing.rs: what the routing task does with a message. A packet is sent by being
-- returned with its sender; that a send fails when the session is gone is ignored, as in the source.
-- `none` is a panic.
use atof.Prelude.{ℕ, ◌≡◌, List, [], ◌∷◌, ◌++◌, map, Option, none, some, Result, ok, err}
use atof.Voice.Packet.{clientbound, ping, audio}
use atof.Control.Packet.{text_message, Protobuf, ControlPacket, proto, tunnel}
use atof.Stammer.RoutingTable.{TableError, keep, sender, room_senders, target_senders}
use atof.Stammer.ControlTask.{Table, RoutingMessage, voice, text, update, shutdown}

-- The generated accessors of `TextMessage`. What is set is what is got.
pub record TextFields (protobuf : Protobuf) : Type 0 where
  pub get_actor : protobuf.Message text_message → ℕ
  pub set_actor : protobuf.Message text_message → ℕ → protobuf.Message text_message
  pub get_session : protobuf.Message text_message → List ℕ
  pub get_channel_id : protobuf.Message text_message → List ℕ
  pub get_actor-set_actor :
      (msg : protobuf.Message text_message) (actor : ℕ) → get_actor (set_actor msg actor) ≡ actor

module _ {protobuf : Protobuf} (fields : TextFields protobuf) (Sender : Type 0) where
  abbrev pub Sent : Type 0
  Sent = Sender × ControlPacket protobuf clientbound

  -- One packet to every peer.
  abbrev pub send_all : ControlPacket protobuf clientbound → List Sender → List Sent
  send_all p senders = map (λ (s : Sender). (s, p)) senders

  abbrev pub route_voice :
      Table protobuf Sender
      → ControlPacket protobuf clientbound
      → Option (Result TableError (List Sender))
      → Option (Table protobuf Sender × List Sent)
  route_voice t p none = none
  route_voice t p (some (err e)) = some (t, [])
  route_voice t p (some (ok senders)) = some (t, send_all p senders)

  -- `filter_map` over the sessions that a text message names.
  unfoldable pub session_senders : Table protobuf Sender → List ℕ → List Sender
  session_senders t [] = []
  session_senders t (id ∷ ids) = keep (sender t id) (session_senders t ids)

  -- `map` and `flatten` over the rooms that it names.
  abbrev pub both : Option (List Sender) → Option (List Sender) → Option (List Sender)
  both none ys = none
  both (some xs) none = none
  both (some xs) (some ys) = some (xs ++ ys)

  unfoldable pub rooms_senders : Table protobuf Sender → List ℕ → Option (List Sender)
  rooms_senders t [] = some []
  rooms_senders t (room ∷ rooms) = both (room_senders t room none) (rooms_senders t rooms)

  unfoldable pub route_text :
      Table protobuf Sender
      → protobuf.Message text_message
      → Option (Table protobuf Sender × List Sent)
  route_text t msg =
      elim (both (some (session_senders t (fields.get_session msg)))
        (rooms_senders t (fields.get_channel_id msg))) [
          | none ↦ none
          | some senders ↦ some (t, send_all (proto text_message msg) senders)
        ]

  unfoldable pub routing_step :
      RoutingMessage protobuf Sender
      → Table protobuf Sender
      → Option (Table protobuf Sender × List Sent)
  routing_step (voice id (audio target _ seq_num payload position_info)) t =
      route_voice t (tunnel (audio target id seq_num payload position_info))
        (target_senders t id target)
  routing_step (voice id (ping _)) t = none
  routing_step (text id msg) t = route_text t (fields.set_actor msg id)
  routing_step (update rtbl) t = some (rtbl, [])
  routing_step shutdown t = some (t, [])

  abbrev pub after_sent :
      List Sent
      → Option (Table protobuf Sender × List Sent)
      → Option (Table protobuf Sender × List Sent)
  after_sent sent none = none
  after_sent sent (some (t, later)) = some (t, sent ++ later)

  unfoldable pub run_routing_task :
      List (RoutingMessage protobuf Sender)
      → Table protobuf Sender
      → Option (Table protobuf Sender × List Sent)
  run_routing_task [] t = some (t, [])
  run_routing_task (m ∷ ms) t = elim (routing_step m t) [
    | none ↦ none
    | some (t', sent) ↦ after_sent sent (run_routing_task ms t')
  ]
