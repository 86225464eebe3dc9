-- ===== src/Control/Codec.antt =====
-- mumble-protocol/src/control.rs: `ControlCodec` on what it wrote, and on any bytes.
use atof.Prelude.{
  ℕ, ◌+◌, ◌^◌, ◌≤◌, ◌<◌, ◌≡◌, ◌≢◌, refl, sym, ap, subst, ◌∙◌, inl, inr, List, [], ◌∷◌, ◌++◌, Option,
  none, some, arith, ◌==◌, ==_iff, Bool-cases, Option-cases, length, drop, Result, IoError, ok, err,
  All-take, All-drop, take-append_length,
}
use atof.Prelude.Words.{IsByte, IsBytes}
use atof.Voice.Packet.{VoicePacketDst, LawfulDst, VoicePacket}
use atof.Voice.Codec
use atof.Voice.RoundTrip.{Fits, decode-encode}
use atof.Voice.Decoding.{decode-no_panic, decode-ne-none}
use atof.Control.Raw.{RawControlPacket, max_len, raw_decode, raw_encode}
use atof.Control.Framing.{raw_decode-raw_encode, raw_decode_iff, raw_decode-no_panic}
use atof.Control.Packet.{
  MessageName, PacketName, message, udp_tunnel, packet_names, id, find_name, Protobuf,
  ControlPacket, proto, tunnel, other, tunnel_result, try_from_raw, into_raw, after_raw, decode,
  encode,
}

pub find_name-id : (name : PacketName) → find_name (id name) packet_names ≡ some name
unfolding find_name
find_name-id udp_tunnel = refl
find_name-id (message MessageName.version) = refl
find_name-id (message MessageName.authenticate) = refl
find_name-id (message MessageName.ping) = refl
find_name-id (message MessageName.reject) = refl
find_name-id (message MessageName.server_sync) = refl
find_name-id (message MessageName.channel_remove) = refl
find_name-id (message MessageName.channel_state) = refl
find_name-id (message MessageName.user_remove) = refl
find_name-id (message MessageName.user_state) = refl
find_name-id (message MessageName.ban_list) = refl
find_name-id (message MessageName.text_message) = refl
find_name-id (message MessageName.permission_denied) = refl
find_name-id (message MessageName.acl) = refl
find_name-id (message MessageName.query_users) = refl
find_name-id (message MessageName.crypt_setup) = refl
find_name-id (message MessageName.context_action_modify) = refl
find_name-id (message MessageName.context_action) = refl
find_name-id (message MessageName.user_list) = refl
find_name-id (message MessageName.voice_target) = refl
find_name-id (message MessageName.permission_query) = refl
find_name-id (message MessageName.codec_version) = refl
find_name-id (message MessageName.user_stats) = refl
find_name-id (message MessageName.request_blob) = refl
find_name-id (message MessageName.server_config) = refl
find_name-id (message MessageName.suggest_config) = refl

id-lt : (name : PacketName) → id name < 26
id-lt udp_tunnel = omega arith
id-lt (message name) = ground arith

pub find_name-eq-some :
    (i : ℕ) (name : PacketName) (names : List PacketName)
    → find_name i names ≡ some name
    → i ≡ id name
unfolding find_name
find_name-eq-some i name [] e = cc
find_name-eq-some i name (n ∷ names) e = elim (Bool-cases (i == id n)) [
  | inl same ↦ let e' : some n ≡ some name = rw same at e in (==_iff i (id n)).0 same ∙ ap id cc
  | inr differ ↦ find_name-eq-some i name names (rw differ at e)
]

-- The ids from 26 on are free.
find_name-unknown : (i : ℕ) → 26 ≤ i → find_name i packet_names ≡ none
find_name-unknown i h = elim (Option-cases (find_name i packet_names)) [
  | inl e ↦ e
  | inr (name, e) ↦ absurd (omega (arith, find_name-eq-some i name packet_names e, id-lt name))
]

module _ (protobuf : Protobuf) {Dst : VoicePacketDst} (law : LawfulDst Dst) where
  open protobuf use {write_to_bytes, parse_from_bytes, parse-write}

  -- Packets that are read back: voice packets that fit the wire format, and unknown packets with
  -- an id that is not taken. Any protobuf message is.
  abbrev pub WellFormed : ControlPacket protobuf Dst → Type 0
  WellFormed (proto name msg) = Unit {0}
  WellFormed (tunnel packet) = Fits law packet
  WellFormed (other raw) = (26 ≤ raw.id) × (raw.id < 2 ^ 16)

  -- A packet comes back from its raw form, whose id has 16 bits.
  try_from_raw-into_raw :
      (packet : ControlPacket protobuf Dst) (raw : RawControlPacket)
      → WellFormed packet
      → into_raw protobuf Dst packet ≡ some raw
      → (try_from_raw protobuf Dst raw ≡ some (ok packet)) × (raw.id < 2 ^ 16)
  unfolding try_from_raw into_raw
  try_from_raw-into_raw (proto name msg) raw h e = elim (Option-cases (write_to_bytes name msg)) [
    | inl panic ↦ let e' = rw (panic, into_raw) at e in cc
    | inr (bytes, written) ↦
        let e' : some (record { id = id (message name); bytes = bytes }) ≡ some raw =
          rw (written, into_raw) at e in
        let found : raw ≡ record { id = id (message name); bytes = bytes } = cc in
        (
          ap (try_from_raw protobuf Dst) found
              ∙ rw (try_from_raw, find_name-id (message name), parse-write name msg bytes written)
                  refl,
          rw found (omega (arith, id-lt (message name))),
        )
  ]
  try_from_raw-into_raw (tunnel packet) raw h e =
      let found : raw ≡ record { id = 1; bytes = Codec.encode Dst packet [] } = cc in
      (
        ap (try_from_raw protobuf Dst) found
            ∙ rw (try_from_raw, find_name-id udp_tunnel, decode-encode law packet h) refl,
        rw found (omega arith),
      )
  try_from_raw-into_raw (other item) raw (free, short) e =
      let found : raw ≡ item = cc in
      (
        ap (try_from_raw protobuf Dst) found
            ∙ rw (try_from_raw, find_name-unknown item.id free) refl,
        rw found short,
      )

  pub length-raw_encode :
      (raw : RawControlPacket) → length (raw_encode raw []) ≡ 6 + length raw.bytes
  unfolding raw_encode
  length-raw_encode raw = omega arith

  pub encode-eq-some :
      (packet : ControlPacket protobuf Dst) (out : List ℕ)
      → encode protobuf Dst packet [] ≡ some out
      → (raw : RawControlPacket) × (into_raw protobuf Dst packet ≡ some raw)
        × (out ≡ raw_encode raw [])
  unfolding encode
  encode-eq-some packet out e = elim (Option-cases (into_raw protobuf Dst packet)) [
    | inl panic ↦ let e' = rw (panic, encode) at e in cc
    | inr (raw, made) ↦
        let e' : some (raw_encode raw []) ≡ some out = rw (made, encode) at e in (raw, made, cc)
  ]

  -- A well-formed packet that is written in at most `max_len` bytes behind its header is read back,
  -- whatever follows it, and what follows it is left in the buffer.
  pub control_decode-encode :
      (packet : ControlPacket protobuf Dst) (out rest : List ℕ)
      → WellFormed packet
      → encode protobuf Dst packet [] ≡ some out
      → length out ≤ 6 + max_len
      → decode protobuf Dst (out ++ rest) ≡ (some (ok (some packet)), rest)
  unfolding decode
  control_decode-encode packet out rest h e size =
      let (raw, made, same) = encode-eq-some packet out e in
      let (back, short) = try_from_raw-into_raw packet raw h made in
      let whole : length (raw_encode raw []) ≤ 6 + max_len =
        subst (λ (o : List ℕ). length o ≤ 6 + max_len) same size in
      ap (λ (o : List ℕ). decode protobuf Dst (o ++ rest)) same
      ∙ rw
          (
            decode,
            raw_decode-raw_encode raw rest (short, omega (arith, length-raw_encode raw)),
            back,
          )
          refl

  -- The message of a raw packet that was decoded consists of bytes of the buffer.
  decoded-IsBytes :
      (buf rest : List ℕ) (raw : RawControlPacket)
      → IsBytes buf
      → raw_encode raw [] ++ rest ≡ buf
      → IsBytes raw.bytes
  unfolding raw_encode
  decoded-IsBytes buf rest raw bytes e =
      let tail : drop 6 buf ≡ raw.bytes ++ rest = ap (drop 6) (sym e) in
      subst IsBytes (take-append_length raw.bytes rest) (
        All-take IsByte (length raw.bytes) (raw.bytes ++ rest)
          (subst IsBytes tail (All-drop IsByte 6 buf bytes)))

  try_from_raw-ne-none :
      (raw : RawControlPacket) → IsBytes raw.bytes → try_from_raw protobuf Dst raw ≢ none
  unfolding try_from_raw
  try_from_raw-ne-none raw bytes e = elim (Option-cases (find_name raw.id packet_names)) [
    | inl unknown ↦ let e' = rw (unknown, try_from_raw) at e in cc
    | inr (message name, known) ↦ let e' = rw (known, try_from_raw) at e in cc
    | inr (udp_tunnel, known) ↦
        tunnel_result-ne-none (Codec.decode Dst raw.bytes) (decode-no_panic Dst raw.bytes)
          (λ rest. decode-ne-none law raw.bytes bytes rest) (rw (known, try_from_raw) at e)
  ]
    where
      tunnel_result-ne-none :
          (r : Option (Result IoError (Option (VoicePacket Dst.SessionId))) × List ℕ)
          → r.0 ≢ none
          → ((rest : List ℕ) → r ≢ (some (ok none), rest))
          → tunnel_result protobuf Dst r.0 ≢ none
      tunnel_result-ne-none (none, left) safe h e = safe refl
      tunnel_result-ne-none (some (ok none), left) safe h e = h left refl
      tunnel_result-ne-none (some (ok (some packet)), left) safe h e = cc
      tunnel_result-ne-none (some (err x), left) safe h e = cc

  after_raw-ne-none :
      (r : Option (Result IoError (Option RawControlPacket)))
      → r ≢ none
      → ((raw : RawControlPacket) → r ≡ some (ok (some raw)) → IsBytes raw.bytes)
      → after_raw protobuf Dst r ≢ none
  after_raw-ne-none none safe h e = safe refl
  after_raw-ne-none (some (err x)) safe h e = cc
  after_raw-ne-none (some (ok none)) safe h e = cc
  after_raw-ne-none (some (ok (some raw))) safe h e =
      elim (Option-cases (try_from_raw protobuf Dst raw)) [
        | inl panic ↦ try_from_raw-ne-none raw (h raw refl) panic
        | inr (ok packet, made) ↦ let e' = rw made at e in cc
        | inr (err x, made) ↦ let e' = rw made at e in cc
      ]

  -- The control codec never panics on bytes, for a direction whose session ids are lawful.
  pub control_decode-ne-none : (buf : List ℕ) → IsBytes buf → (decode protobuf Dst buf).0 ≢ none
  unfolding decode
  control_decode-ne-none buf bytes =
      after_raw-ne-none (raw_decode buf).0 (raw_decode-no_panic buf) (λ raw e.
        decoded-IsBytes buf (raw_decode buf).1 raw bytes
          ((raw_decode_iff buf (raw_decode buf).1 raw bytes).0 (λ i. (e i, (raw_decode buf).1))).0)
