-- ===== src/Crypt/State.antt =====
-- `CryptState` of crypt.rs: its constructors, accessors, `encrypt` and `decrypt`.
-- The key is that of the state; OpenSSL is the section's parameter. `none` is a panic. The counters
-- wrap at 32 bits, as they do in a release build.
use atof.Prelude.{
  ℕ, ◌+◌, ◌-◌, ◌%◌, ◌^◌, List, [], ◌∷◌, ◌++◌, Bool, true, false, not, Option, none, some, ltb, ◌==◌,
  if◌then◌else◌, length, take, drop, can_split, get_or, set, replicate, Result, IoError, ok, err,
  invalid_data,
}
use atof.Prelude.Words.{u8, u32, shr, to_be_bytes, to_le_bytes, from_le_bytes}
use atof.Ping.{bytes_eq}
use atof.Voice.Packet.{VoicePacketDst, VoicePacket}
use atof.Voice.Codec
use atof.Crypt.Cipher.{block_size, Aes, ocb_encrypt, ocb_decrypt}

pub record CryptState : Type 0 where
  pub key : List ℕ
  pub encrypt_nonce : ℕ
  pub decrypt_nonce : ℕ
  pub decrypt_history : List ℕ
  pub good : ℕ
  pub late : ℕ
  pub lost : ℕ

pub data DecryptError : Type 0 where
  eof repeated late mac : DecryptError

-- `generate_new`, with the bytes that `rand_bytes` wrote.
pub generate_new : List ℕ → CryptState
generate_new random_key = record {
  key = random_key;
  encrypt_nonce = 0;
  decrypt_nonce = 2 ^ 127;
  decrypt_history = replicate 0x100 0;
  good = 0;
  late = 0;
  lost = 0;
}

unfoldable pub new_from : (key encrypt_nonce decrypt_nonce : List ℕ) → CryptState
new_from key encrypt_nonce decrypt_nonce = record {
  key = key;
  encrypt_nonce = from_le_bytes encrypt_nonce;
  decrypt_nonce = from_le_bytes decrypt_nonce;
  decrypt_history = replicate 0x100 0;
  good = 0;
  late = 0;
  lost = 0;
}

unfoldable pub get_encrypt_nonce : CryptState → List ℕ
get_encrypt_nonce s = to_le_bytes block_size s.encrypt_nonce

unfoldable pub get_decrypt_nonce : CryptState → List ℕ
get_decrypt_nonce s = to_le_bytes block_size s.decrypt_nonce

unfoldable pub set_decrypt_nonce : CryptState → List ℕ → CryptState
set_decrypt_nonce s nonce = record s { decrypt_nonce = from_le_bytes nonce }

-- `wrapping_add` on a `u128`.
abbrev pub wrapping_add : ℕ → ℕ → ℕ
wrapping_add a b = (a + b) % 2 ^ 128

-- What becomes of the nonce for a packet whose header begins with `nonce_0`: the branches above
-- `ocb_decrypt`. `lost` is the 32-bit pattern that is added to the counter, so -1 is 2 ^ 32 - 1.
pub data Arrival : Type 0 where
  accept : (nonce : ℕ) (is_late : Bool) (lost : ℕ) → Arrival
  repeat : Arrival
  too_late : (nonce : ℕ) → Arrival

-- `nonce_0.wrapping_sub(nonce as u8)`, the bit pattern of an `i8`.
abbrev pub diff_of : ℕ → ℕ → ℕ
diff_of nonce nonce_0 = (nonce_0 + 256 - u8 nonce) % 256

-- `diff as u128`: sign extension of an `i8`.
abbrev pub sign_extend : ℕ → ℕ
sign_extend diff = if ltb diff 128 then diff else 2 ^ 128 - 256 + diff

-- `diff > 0` and `diff > -30` on the bit pattern of an `i8`.
abbrev pub is_positive : ℕ → Bool
is_positive diff = if diff == 0 then false else ltb diff 128

abbrev pub is_above_minus_30 : ℕ → Bool
is_above_minus_30 diff = if ltb diff 128 then true else ltb (256 - 30) diff

unfoldable pub arrival : CryptState → ℕ → Arrival
arrival s nonce_0 =
    if u8 (wrapping_add s.decrypt_nonce 1) == nonce_0
    then accept (wrapping_add s.decrypt_nonce 1) false 0
    else let diff = diff_of s.decrypt_nonce nonce_0 in
      let nonce = wrapping_add s.decrypt_nonce (sign_extend diff) in
      if is_positive diff
      then accept nonce false (diff - 1)
      else if is_above_minus_30 diff
      then (if get_or s.decrypt_history nonce_0 0 == u8 (shr nonce 8)
          then repeat
          else accept nonce true (2 ^ 32 - 1))
      else too_late nonce

-- What `decrypt` returns: a `DecryptError`, or the result of the voice codec.
pub data Decrypted (A : Type 0) : Type 0 where
  failed : DecryptError → Decrypted A
  parsed : Result IoError A → Decrypted A

-- `it.expect("VoiceCodec is stateless")`, unless the voice codec panicked.
abbrev pub expect_packet : {A : Type 0} → Option (Result IoError (Option A)) → Option (Decrypted A)
expect_packet none = none
expect_packet (some (ok (some packet))) = some (parsed (ok packet))
expect_packet (some (ok none)) = none
expect_packet (some (err e)) = some (parsed (err e))

-- The state after a packet whose tag matched.
abbrev pub count_packet : CryptState → ℕ → ℕ → Bool → ℕ → CryptState
count_packet s nonce_0 nonce is_late lost = record s {
  decrypt_nonce = if is_late then s.decrypt_nonce else nonce;
  decrypt_history = set s.decrypt_history nonce_0 (u8 (shr nonce 8));
  good = u32 (s.good + 1);
  late = if is_late then u32 (s.late + 1) else s.late;
  lost = u32 (s.lost + lost);
}

module _ (aes : Aes) (EncodeDst DecodeDst : VoicePacketDst) where
  -- `encrypt` overwrites its buffer: four bytes of header, and the sealed packet.
  unfoldable pub encrypt :
      CryptState → VoicePacket EncodeDst.SessionId → Option (CryptState × List ℕ)
  encrypt s packet =
      let nonce = wrapping_add s.encrypt_nonce 1 in
      let inner = Codec.encode EncodeDst packet [] in
      elim (ocb_encrypt aes s.key nonce inner) [
        | none ↦ none
        | some (tag, sealed) ↦ some (
          record s { encrypt_nonce = nonce },
          (u8 nonce ∷ take 3 (to_be_bytes block_size tag)) ++ sealed,
        )
      ]

  -- The state, the buffer and the answer of `decrypt`.
  abbrev pub Answer : Type 0
  Answer = Option (CryptState × List ℕ × Decrypted (VoicePacket DecodeDst.SessionId))

  abbrev pub answer :
      CryptState → List ℕ → Option (Decrypted (VoicePacket DecodeDst.SessionId)) → Answer
  answer s buf none = none
  answer s buf (some result) = some (s, buf, result)

  -- From `ocb_decrypt` on. The nonce is `saved` again whenever the tag does not match.
  unfoldable pub open_packet : CryptState → ℕ → List ℕ → List ℕ → ℕ → Bool → ℕ → Answer
  open_packet s nonce_0 mac_bytes buf nonce is_late lost = elim (ocb_decrypt aes s.key nonce buf) [
    | none ↦ none
    | some (tag, plain) ↦
        if not (bytes_eq (take 3 (to_be_bytes block_size tag)) mac_bytes)
        then some (s, plain, failed mac)
        else let (result, left) = Codec.decode DecodeDst plain in
          answer (count_packet s nonce_0 nonce is_late lost) left (expect_packet result)
  ]

  unfoldable pub decrypt : CryptState → List ℕ → Answer
  decrypt s buf =
      if ltb (length buf) 4
      then some (s, buf, failed eof)
      else if can_split 4 buf
      then (let header = take 4 buf in
          let nonce_0 = get_or header 0 0 in
          let rest = drop 4 buf in
          elim (arrival s nonce_0) [
            | repeat ↦ some (s, rest, failed repeated)
            | too_late nonce ↦
                some (record s { decrypt_nonce = nonce }, rest, failed DecryptError.late)
            | accept nonce is_late lost ↦
                open_packet s nonce_0 (take 3 (drop 1 header)) rest nonce is_late lost
          ])
      else none

  -- `Decoder::decode`: any decryption error becomes `InvalidData`.
  unfoldable pub decode :
      CryptState
      → List ℕ
      → Option (CryptState × List ℕ × Result IoError (Option (VoicePacket DecodeDst.SessionId)))
  decode s buf = elim (decrypt s buf) [
    | none ↦ none
    | some (s', left, failed e) ↦ some (s', left, err invalid_data)
    | some (s', left, parsed (ok packet)) ↦ some (s', left, ok (some packet))
    | some (s', left, parsed (err e)) ↦ some (s', left, err e)
  ]
