-- ===== src/Control/Conversions.antt =====
-- mumble-protocol/src/control.rs: the conversions that `define_packet_from` generates for a single
-- type of message, next to those of the enum `ControlPacket`.
use atof.Prelude.{
  ℕ, ◌+◌, ◌≡◌, ◌↔◌, refl, ap, subst, ◌∙◌, inl, inr, List, [], ◌∷◌, map, Option, none, some, ◌==◌,
  ==_iff, if◌then◌else◌, Bool-cases, Option-cases, Result, IoError, other_error, ok, err,
}
use atof.Voice.Packet.{VoicePacketDst, VoicePacket}
use atof.Voice.Codec
use atof.Control.Raw.{RawControlPacket}
use atof.Control.Packet.{
  MessageName, PacketName, message, udp_tunnel, packet_names, id, find_name, Protobuf,
  ControlPacket, proto, tunnel, other, tunnel_result, proto_result, try_from_raw, into_raw,
}
use atof.Control.Codec.{find_name-id, find_name-eq-some}

-- `define_packet_mappings`: the names get consecutive ids.
unfoldable pub number_from : ℕ → List PacketName → List (PacketName × ℕ)
number_from i [] = []
number_from i (name ∷ names) = (name, i) ∷ number_from (i + 1) names

module _ (protobuf : Protobuf) (Dst : VoicePacketDst) where
  open protobuf use {Message, ProtobufError, from_io, write_to_bytes, parse_from_bytes}

  -- `From<VoicePacket> for RawControlPacket`
  unfoldable pub raw_from_voice : VoicePacket Dst.SessionId → RawControlPacket
  raw_from_voice msg = record { id = id udp_tunnel; bytes = Codec.encode Dst msg [] }

  -- `TryFrom<Bytes> for VoicePacket`. `none` is a panic.
  abbrev pub expect_voice :
      Option (Result IoError (Option (VoicePacket Dst.SessionId)))
      → Option (Result IoError (VoicePacket Dst.SessionId))
  expect_voice none = none
  expect_voice (some (ok (some packet))) = some (ok packet)
  expect_voice (some (ok none)) = none
  expect_voice (some (err e)) = some (err e)

  unfoldable pub voice_from_bytes : List ℕ → Option (Result IoError (VoicePacket Dst.SessionId))
  voice_from_bytes bytes = expect_voice (Codec.decode Dst bytes).0

  -- `TryFrom<RawControlPacket> for VoicePacket`
  unfoldable pub voice_from_raw :
      RawControlPacket → Option (Result IoError (VoicePacket Dst.SessionId))
  voice_from_raw packet =
      if packet.id == id udp_tunnel then voice_from_bytes packet.bytes else some (err other_error)

  -- `From` of a voice packet, and of a message, for `ControlPacket`
  unfoldable pub packet_from_voice : VoicePacket Dst.SessionId → ControlPacket protobuf Dst
  packet_from_voice inner = tunnel inner

  unfoldable pub packet_from_message :
      (name : MessageName) → Message name → ControlPacket protobuf Dst
  packet_from_message name inner = proto name inner

  -- `From` of a message for `RawControlPacket`. `none` is a panic.
  abbrev pub with_id : MessageName → Option (List ℕ) → Option RawControlPacket
  with_id name none = none
  with_id name (some bytes) = some (record { id = id (message name); bytes = bytes })

  unfoldable pub raw_from_message : (name : MessageName) → Message name → Option RawControlPacket
  raw_from_message name msg = with_id name (write_to_bytes name msg)

  -- `TryFrom<RawControlPacket>` for a message
  unfoldable pub message_from_raw :
      (name : MessageName) → RawControlPacket → Result ProtobufError (Message name)
  message_from_raw name packet =
      if packet.id == id (message name)
      then parse_from_bytes name packet.bytes
      else err (from_io other_error)

  -- What the conversion of the packet's own type answers, where the enum's answered with it.
  abbrev Agrees : RawControlPacket → ControlPacket protobuf Dst → Type 0
  Agrees raw (proto name msg) = message_from_raw name raw ≡ ok msg
  Agrees raw (tunnel voice) = voice_from_raw raw ≡ some (ok voice)
  Agrees raw (other _) = Unit {0}

  message_from_raw-id :
      (name : MessageName) (raw : RawControlPacket)
      → raw.id ≡ id (message name)
      → message_from_raw name raw ≡ parse_from_bytes name raw.bytes
  unfolding message_from_raw
  message_from_raw-id name raw e =
      let same = (==_iff raw.id (id (message name))).1 e in rw (same, message_from_raw) refl

  voice_from_raw-id :
      (raw : RawControlPacket)
      → raw.id ≡ id udp_tunnel
      → voice_from_raw raw ≡ expect_voice (Codec.decode Dst raw.bytes).0
  unfolding voice_from_raw voice_from_bytes
  voice_from_raw-id raw e =
      let same = (==_iff raw.id (id udp_tunnel)).1 e in rw (same, voice_from_raw) refl

  proto_result-Agrees :
      (name : MessageName) (raw : RawControlPacket) (parsed : Result ProtobufError (Message name))
      (p : ControlPacket protobuf Dst)
      → message_from_raw name raw ≡ parsed
      → proto_result protobuf Dst name parsed ≡ ok p
      → Agrees raw p
  proto_result-Agrees name raw (err e) p h eq = absurd cc
  proto_result-Agrees name raw (ok msg) p h eq =
      let same : proto name msg ≡ p = cc in subst (Agrees raw) same h

  tunnel_result-Agrees :
      (raw : RawControlPacket)
      (decoded : Option (Result IoError (Option (VoicePacket Dst.SessionId))))
      (p : ControlPacket protobuf Dst)
      → voice_from_raw raw ≡ expect_voice decoded
      → tunnel_result protobuf Dst decoded ≡ some (ok p)
      → Agrees raw p
  tunnel_result-Agrees raw none p h eq = absurd cc
  tunnel_result-Agrees raw (some (err e)) p h eq = absurd cc
  tunnel_result-Agrees raw (some (ok none)) p h eq = absurd cc
  tunnel_result-Agrees raw (some (ok (some voice))) p h eq =
      let same : tunnel voice ≡ p = cc in subst (Agrees raw) same h

  try_from_raw-Agrees :
      (raw : RawControlPacket) (p : ControlPacket protobuf Dst)
      → try_from_raw protobuf Dst raw ≡ some (ok p)
      → Agrees raw p
  unfolding try_from_raw
  try_from_raw-Agrees raw p e = elim (Option-cases (find_name raw.id packet_names)) [
    | inl unknown ↦
        let e' = rw (unknown, try_from_raw) at e in
        let same : other raw ≡ p = cc in subst (Agrees raw) same tt
    | inr (udp_tunnel, found) ↦
        let e' = rw (found, try_from_raw) at e in
        tunnel_result-Agrees raw (Codec.decode Dst raw.bytes).0 p
          (voice_from_raw-id raw (find_name-eq-some raw.id udp_tunnel packet_names found)) e'
    | inr (message name, found) ↦
        let e' = rw (found, try_from_raw) at e in
        proto_result-Agrees name raw (parse_from_bytes name raw.bytes) p
          (message_from_raw-id name raw
            (find_name-eq-some raw.id (message name) packet_names found))
          cc
  ]

  message-try_from_raw :
      (name : MessageName) (msg : Message name) (raw : RawControlPacket)
      → message_from_raw name raw ≡ ok msg
      → try_from_raw protobuf Dst raw ≡ some (ok (proto name msg))
  unfolding try_from_raw message_from_raw
  message-try_from_raw name msg raw e = elim (Bool-cases (raw.id == id (message name))) [
    | inl same ↦
        let parsed : parse_from_bytes name raw.bytes ≡ ok msg = rw (same, message_from_raw) at e in
        let found : find_name raw.id packet_names ≡ some (message name) =
          ap (λ (i : ℕ). find_name i packet_names) ((==_iff raw.id (id (message name))).0 same)
          ∙ find_name-id (message name) in
        rw (found, try_from_raw) (rw parsed refl)
    | inr differ ↦ let e' = rw (differ, message_from_raw) at e in absurd cc
  ]

  expect_voice-tunnel :
      (decoded : Option (Result IoError (Option (VoicePacket Dst.SessionId))))
      (voice : VoicePacket Dst.SessionId)
      → expect_voice decoded ≡ some (ok voice)
      → tunnel_result protobuf Dst decoded ≡ some (ok (tunnel voice))
  expect_voice-tunnel none voice e = absurd cc
  expect_voice-tunnel (some (ok (some packet))) voice e = cc
  expect_voice-tunnel (some (ok none)) voice e = absurd cc
  expect_voice-tunnel (some (err x)) voice e = absurd cc

  voice-try_from_raw :
      (voice : VoicePacket Dst.SessionId) (raw : RawControlPacket)
      → voice_from_raw raw ≡ some (ok voice)
      → try_from_raw protobuf Dst raw ≡ some (ok (tunnel voice))
  unfolding try_from_raw voice_from_raw voice_from_bytes
  voice-try_from_raw voice raw e = elim (Bool-cases (raw.id == id udp_tunnel)) [
    | inl same ↦
        let read : expect_voice (Codec.decode Dst raw.bytes).0 ≡ some (ok voice) =
          rw (same, voice_from_raw) at e in
        let found : find_name raw.id packet_names ≡ some udp_tunnel =
          ap (λ (i : ℕ). find_name i packet_names) ((==_iff raw.id (id udp_tunnel)).0 same)
          ∙ find_name-id udp_tunnel in
        rw (found, try_from_raw) (expect_voice-tunnel (Codec.decode Dst raw.bytes).0 voice read)
    | inr differ ↦ let e' = rw (differ, voice_from_raw) at e in absurd cc
  ]

  -- The conversions of a single type and those of the enum write the same raw packets. A raw packet
  -- is a message of the type, or a voice packet, for the one conversion exactly if it is for the
  -- other.
  pub conversions-agree :
      (name : MessageName) (msg : Message name) (voice : VoicePacket Dst.SessionId)
      (raw : RawControlPacket)
      → (raw_from_message name msg ≡ into_raw protobuf Dst (packet_from_message name msg))
        × (some (raw_from_voice voice) ≡ into_raw protobuf Dst (packet_from_voice voice))
        × ((message_from_raw name raw ≡ ok msg)
            ↔ (try_from_raw protobuf Dst raw ≡ some (ok (packet_from_message name msg))))
        × ((voice_from_raw raw ≡ some (ok voice))
            ↔ (try_from_raw protobuf Dst raw ≡ some (ok (packet_from_voice voice))))
  unfolding raw_from_message into_raw packet_from_message raw_from_voice packet_from_voice
  conversions-agree name msg voice raw = (
    elim (Option-cases (write_to_bytes name msg)) [
      | inl panics ↦ rw (panics, raw_from_message, into_raw) refl
      | inr (bytes, written) ↦ rw (written, raw_from_message, into_raw) refl
    ],
    refl,
    (message-try_from_raw name msg raw, try_from_raw-Agrees raw (proto name msg)),
    (voice-try_from_raw voice raw, try_from_raw-Agrees raw (tunnel voice)),
  )

-- The generated ids are those of `id`.
number_from-id :
    number_from 0 packet_names ≡ map (λ (name : PacketName). (name, id name)) packet_names
unfolding number_from
number_from-id = refl
