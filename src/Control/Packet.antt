-- ===== src/Control/Packet.antt =====
-- `ControlPacket`, its conversions from and to `RawControlPacket`, and `ControlCodec` of control.rs.
-- The macro `define_packets` lists the packets; without the feature `webrtc-extensions` there are 26.
-- `none` is a panic. The message types and their codec, which protobuf generates, are a parameter.
use atof.Prelude.{
  ℕ, ◌≡◌, List, [], ◌∷◌, Option, none, some, ◌==◌, if◌then◌else◌, Result, IoError, ok, err,
}
use atof.Voice.Packet.{VoicePacketDst, VoicePacket}
use atof.Voice.Codec
use atof.Control.Raw.{RawControlPacket, raw_decode, raw_encode}

-- The names of the protobuf messages. `UDPTunnel` is no such message.
pub data MessageName : Type 0 where
  version authenticate ping reject server_sync channel_remove channel_state user_remove user_state
        ban_list text_message permission_denied acl query_users crypt_setup context_action_modify
        context_action user_list voice_target permission_query codec_version user_stats request_blob
        server_config suggest_config :
      MessageName

pub data PacketName : Type 0 where
  message : MessageName → PacketName
  udp_tunnel : PacketName

-- `msgs::id`: the names are numbered in the order of the list.
abbrev pub packet_names : List PacketName
packet_names =
    message version
    ∷ udp_tunnel
    ∷ message authenticate
    ∷ message ping
    ∷ message reject
    ∷ message server_sync
    ∷ message channel_remove
    ∷ message channel_state
    ∷ message user_remove
    ∷ message user_state
    ∷ message ban_list
    ∷ message text_message
    ∷ message permission_denied
    ∷ message acl
    ∷ message query_users
    ∷ message crypt_setup
    ∷ message context_action_modify
    ∷ message context_action
    ∷ message user_list
    ∷ message voice_target
    ∷ message permission_query
    ∷ message codec_version
    ∷ message user_stats
    ∷ message request_blob
    ∷ message server_config
    ∷ message suggest_config
    ∷ []

abbrev pub id : PacketName → ℕ
id (message version) = 0
id udp_tunnel = 1
id (message authenticate) = 2
id (message ping) = 3
id (message reject) = 4
id (message server_sync) = 5
id (message channel_remove) = 6
id (message channel_state) = 7
id (message user_remove) = 8
id (message user_state) = 9
id (message ban_list) = 10
id (message text_message) = 11
id (message permission_denied) = 12
id (message acl) = 13
id (message query_users) = 14
id (message crypt_setup) = 15
id (message context_action_modify) = 16
id (message context_action) = 17
id (message user_list) = 18
id (message voice_target) = 19
id (message permission_query) = 20
id (message codec_version) = 21
id (message user_stats) = 22
id (message request_blob) = 23
id (message server_config) = 24
id (message suggest_config) = 25

-- The first arm of the `match` in `TryFrom<RawControlPacket>` whose id is that of the packet.
unfoldable pub find_name : ℕ → List PacketName → Option PacketName
find_name i [] = none
find_name i (name ∷ names) = if i == id name then some name else find_name i names

-- The generated messages and `ProtobufError`. A message that lacks a required field is not written.
-- A message that was written is parsed back, and an `io::Error` survives the conversions.
pub record Protobuf : Type 1 where
  pub Message : MessageName → Type 0
  pub ProtobufError : Type 0
  pub from_io : IoError → ProtobufError
  pub to_io : ProtobufError → IoError
  pub write_to_bytes : (name : MessageName) → Message name → Option (List ℕ)
  pub parse_from_bytes : (name : MessageName) → List ℕ → Result ProtobufError (Message name)
  pub parse-write :
      (name : MessageName) (msg : Message name) (bytes : List ℕ)
      → write_to_bytes name msg ≡ some bytes
      → parse_from_bytes name bytes ≡ ok msg
  pub to_io-from_io : (e : IoError) → to_io (from_io e) ≡ e

module _ (protobuf : Protobuf) (Dst : VoicePacketDst) where
  open protobuf use {Message, ProtobufError, from_io, to_io, write_to_bytes, parse_from_bytes}

  pub data ControlPacket : Type 0 where
    proto : (name : MessageName) → Message name → ControlPacket
    tunnel : VoicePacket Dst.SessionId → ControlPacket
    other : RawControlPacket → ControlPacket

  -- `TryFrom<Bytes> for VoicePacket`, and its error as a `ProtobufError`.
  abbrev pub tunnel_result :
      Option (Result IoError (Option (VoicePacket Dst.SessionId)))
      → Option (Result ProtobufError ControlPacket)
  tunnel_result none = none
  tunnel_result (some (ok (some packet))) = some (ok (tunnel packet))
  tunnel_result (some (ok none)) = none
  tunnel_result (some (err e)) = some (err (from_io e))

  abbrev pub proto_result :
      (name : MessageName)
      → Result ProtobufError (Message name)
      → Result ProtobufError ControlPacket
  proto_result name (ok msg) = ok (proto name msg)
  proto_result name (err e) = err e

  -- `TryFrom<RawControlPacket> for ControlPacket`
  unfoldable pub try_from_raw : RawControlPacket → Option (Result ProtobufError ControlPacket)
  try_from_raw packet = elim (find_name packet.id packet_names) [
    | some (message name) ↦ some (proto_result name (parse_from_bytes name packet.bytes))
    | some udp_tunnel ↦ tunnel_result (Codec.decode Dst packet.bytes).0
    | none ↦ some (ok (other packet))
  ]

  -- `From<ControlPacket> for RawControlPacket`
  unfoldable pub into_raw : ControlPacket → Option RawControlPacket
  into_raw (proto name msg) = elim (write_to_bytes name msg) [
    | some bytes ↦ some (record { id = id (message name); bytes = bytes })
    | none ↦ none
  ]
  into_raw (tunnel packet) =
      some (record { id = id udp_tunnel; bytes = Codec.encode Dst packet [] })
  into_raw (other packet) = some packet

  -- What `ControlCodec::decode` makes of a raw packet.
  abbrev pub parsed_packet :
      Option (Result ProtobufError ControlPacket) → Option (Result IoError (Option ControlPacket))
  parsed_packet none = none
  parsed_packet (some (ok packet)) = some (ok (some packet))
  parsed_packet (some (err e)) = some (err (to_io e))

  abbrev pub after_raw :
      Option (Result IoError (Option RawControlPacket))
      → Option (Result IoError (Option ControlPacket))
  after_raw none = none
  after_raw (some (err e)) = some (err e)
  after_raw (some (ok none)) = some (ok none)
  after_raw (some (ok (some raw))) = parsed_packet (try_from_raw raw)

  unfoldable pub decode : List ℕ → Option (Result IoError (Option ControlPacket)) × List ℕ
  decode buf = let (result, left) = raw_decode buf in (after_raw result, left)

  unfoldable pub encode : ControlPacket → List ℕ → Option (List ℕ)
  encode item dst = elim (into_raw item) [ some raw ↦ some (raw_encode raw dst) | none ↦ none ]
