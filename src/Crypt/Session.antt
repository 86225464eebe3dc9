-- ===== src/Crypt/Session.antt =====
-- mumble-protocol/src/crypt.rs: `decrypt` on what `encrypt` wrote.
mod Arrivals
pub use Arrivals.{arrival-ahead, arrival-accept, arrival_again, arrival_too_late}
use atof.Prelude.{
  [], ℕ, ◌+◌, ◌<◌, ◌≡◌, refl, subst, ◌∙◌, inl, inr, List, ◌∷◌, ◌++◌, Bool, true, false, Option,
  none, some, arith, ltb, Bool-cases, Option-cases, length, can_split, take, ok, err, Result,
  IoError,
}
use atof.Prelude.Words.{u8, IsU128, IsBytes, to_be_bytes, to_le-from_le}
use atof.Ping.{bytes_eq}
use atof.Voice.Packet.{VoicePacketDst, LawfulDst, VoicePacket}
use atof.Voice.Codec
use atof.Voice.RoundTrip.{Fits, leftover, decode-encode}
use atof.Crypt.Cipher.{block_size, Aes, ocb_decrypt}
use atof.Crypt.Ocb.{ocb_decrypt-ocb_encrypt}
use atof.Crypt.State.{
  CryptState, DecryptError, repeated, mac, accept, repeat, too_late, wrapping_add, arrival, failed,
  parsed, expect_packet, count_packet, encrypt, open_packet, decrypt, Answer, answer, new_from,
  get_encrypt_nonce, get_decrypt_nonce,
}

-- The nonces that a state is made from are those that its accessors give.
pub new_from-nonces :
    (key e d : List ℕ)
    → length e ≡ block_size
    → IsBytes e
    → length d ≡ block_size
    → IsBytes d
    → (get_encrypt_nonce (new_from key e d) ≡ e) × (get_decrypt_nonce (new_from key e d) ≡ d)
unfolding new_from get_encrypt_nonce get_decrypt_nonce
new_from-nonces key e d he be hd bd = (to_le-from_le 16 e he be, to_le-from_le 16 d hd bd)

bytes_eq_refl : (xs : List ℕ) → bytes_eq xs xs ≡ true
bytes_eq_refl [] = refl
bytes_eq_refl (x ∷ xs) = ground (arith, bytes_eq_refl xs)

module _ (aes : Aes) (EncodeDst DecodeDst : VoicePacketDst) where
  module _ (s : CryptState) (nonce_0 a b c : ℕ) (sealed : List ℕ) where
    long_enough : ltb (length (nonce_0 ∷ a ∷ b ∷ c ∷ sealed)) 4 ≡ false
    long_enough = ground arith

    splits : can_split 4 (nonce_0 ∷ a ∷ b ∷ c ∷ sealed) ≡ true
    splits = ground arith

    -- A datagram is the first byte, the bytes of the tag, and what is sealed.
    pub decrypt-accept :
        (nonce : ℕ) (is_late : Bool) (lost : ℕ)
        → arrival s nonce_0 ≡ accept nonce is_late lost
        → decrypt aes EncodeDst DecodeDst s (nonce_0 ∷ a ∷ b ∷ c ∷ sealed)
          ≡ open_packet aes EncodeDst DecodeDst s nonce_0 (a ∷ b ∷ c ∷ []) sealed nonce is_late lost
    unfolding decrypt
    decrypt-accept nonce is_late lost e = rw (long_enough, splits, e, decrypt)

    pub decrypt-repeat :
        arrival s nonce_0 ≡ repeat
        → decrypt aes EncodeDst DecodeDst s (nonce_0 ∷ a ∷ b ∷ c ∷ sealed)
          ≡ some (s, sealed, failed repeated)
    unfolding decrypt
    decrypt-repeat e = rw (long_enough, splits, e, decrypt)

    pub decrypt-too_late :
        (nonce : ℕ)
        → arrival s nonce_0 ≡ too_late nonce
        → decrypt aes EncodeDst DecodeDst s (nonce_0 ∷ a ∷ b ∷ c ∷ sealed)
          ≡ some (record s { decrypt_nonce = nonce }, sealed, failed DecryptError.late)
    unfolding decrypt
    decrypt-too_late nonce e = rw (long_enough, splits, e, decrypt)

  -- A sealed packet whose tag matches is handed to the voice codec.
  open_packet-match :
      (s : CryptState) (nonce_0 : ℕ) (buf : List ℕ) (nonce : ℕ) (is_late : Bool) (lost : ℕ)
      (tag : ℕ) (plain : List ℕ) (packet : VoicePacket DecodeDst.SessionId) (left : List ℕ)
      → ocb_decrypt aes s.key nonce buf ≡ some (tag, plain)
      → Codec.decode DecodeDst plain ≡ (some (ok (some packet)), left)
      → open_packet aes EncodeDst DecodeDst s nonce_0
          (take 3 (to_be_bytes block_size tag))
          buf
          nonce
          is_late
          lost
        ≡ some (count_packet s nonce_0 nonce is_late lost, left, parsed (ok packet))
  unfolding open_packet
  open_packet-match s nonce_0 buf nonce is_late lost tag plain packet left opened decoded =
      rw (opened, open_packet) (rw (bytes_eq_refl (take 3 (to_be_bytes block_size tag)), decoded))

  -- What `open_packet` can answer: a panic, a wrong tag with the state as it was, or a packet that
  -- is counted.
  pub data Opened (s : CryptState) (nonce_0 nonce : ℕ) (is_late : Bool) (lost : ℕ)
      : Answer aes EncodeDst DecodeDst → Type 0 where
    panics : Opened s nonce_0 nonce is_late lost none
    wrong_tag : (plain : List ℕ) → Opened s nonce_0 nonce is_late lost (some (s, plain, failed mac))
    counted :
        (left : List ℕ) (result : Result IoError (VoicePacket DecodeDst.SessionId))
        → Opened s nonce_0 nonce is_late lost
            (some (count_packet s nonce_0 nonce is_late lost, left, parsed result))

  expect_packet-Opened :
      (s : CryptState) (nonce_0 nonce : ℕ) (is_late : Bool) (lost : ℕ) (left : List ℕ)
      (r : Option (Result IoError (Option (VoicePacket DecodeDst.SessionId))))
      → Opened s nonce_0 nonce is_late lost (
          answer aes EncodeDst DecodeDst
            (count_packet s nonce_0 nonce is_late lost)
            left
            (expect_packet r))
  expect_packet-Opened s nonce_0 nonce is_late lost left none = panics
  expect_packet-Opened s nonce_0 nonce is_late lost left (some (ok none)) = panics
  expect_packet-Opened s nonce_0 nonce is_late lost left (some (ok (some packet))) =
      counted left (ok packet)
  expect_packet-Opened s nonce_0 nonce is_late lost left (some (err e)) = counted left (err e)

  pub open_packet-Opened :
      (s : CryptState) (nonce_0 : ℕ) (mac_bytes buf : List ℕ) (nonce : ℕ) (is_late : Bool)
      (lost : ℕ)
      → Opened s nonce_0 nonce is_late lost
          (open_packet aes EncodeDst DecodeDst s nonce_0 mac_bytes buf nonce is_late lost)
  unfolding open_packet
  open_packet-Opened s nonce_0 mac_bytes buf nonce is_late lost =
      elim (Option-cases (ocb_decrypt aes s.key nonce buf)) [
        | inl panic ↦ rw (panic, open_packet) panics
        | inr ((tag, plain), opened) ↦
            rw (opened, open_packet)
              (elim (Bool-cases (bytes_eq (take 3 (to_be_bytes block_size tag)) mac_bytes)) [
                | inl same ↦ rw same (
                    expect_packet-Opened s nonce_0 nonce is_late lost
                      (Codec.decode DecodeDst plain).1 (Codec.decode DecodeDst plain).0)
                | inr other ↦ rw other (wrong_tag plain)
              ])
      ]

  pub counted_state :
      {s s' : CryptState} {nonce_0 nonce : ℕ} {is_late : Bool} {lost : ℕ} {left : List ℕ}
      {result : Result IoError (VoicePacket DecodeDst.SessionId)}
      {o : Answer aes EncodeDst DecodeDst}
      → Opened s nonce_0 nonce is_late lost o
      → o ≡ some (s', left, parsed result)
      → s' ≡ count_packet s nonce_0 nonce is_late lost
  counted_state panics e = cc
  counted_state (wrong_tag plain) e = cc
  counted_state (counted _ _) e = cc

  pub failed_state :
      {s s' : CryptState} {nonce_0 nonce : ℕ} {is_late : Bool} {lost : ℕ} {left : List ℕ}
      {x : DecryptError} {o : Answer aes EncodeDst DecodeDst}
      → Opened s nonce_0 nonce is_late lost o
      → o ≡ some (s', left, failed x)
      → (x ≡ mac) × (s' ≡ s)
  failed_state panics e = cc
  failed_state (wrong_tag plain) e = (cc, cc)
  failed_state (counted _ _) e = cc

pub decrypt-encrypt :
    (aes : Aes) (ReplyDst Dst : VoicePacketDst) (law : LawfulDst Dst) (sender receiver : CryptState)
    (behind : ℕ) (packet : VoicePacket Dst.SessionId)
    → sender.key ≡ receiver.key
    → IsU128 receiver.decrypt_nonce
    → behind < 127
    → sender.encrypt_nonce ≡ wrapping_add receiver.decrypt_nonce behind
    → Fits law packet
    → IsBytes (Codec.encode Dst packet [])
    → (sender' : CryptState) × (sent : List ℕ) × (encrypt aes Dst ReplyDst sender packet
        ≡ some (sender', sent))
      × (sender'.encrypt_nonce ≡ wrapping_add sender.encrypt_nonce 1)
      × (decrypt aes ReplyDst Dst receiver sent
          ≡ some (
            count_packet receiver (u8 sender'.encrypt_nonce) sender'.encrypt_nonce false behind,
            leftover law packet,
            parsed (ok packet),
          ))
decrypt-encrypt aes ReplyDst Dst law sender receiver behind packet keys hn hb nonces fits bytes =
    let nonce = wrapping_add sender.encrypt_nonce 1 in
    let (tag, out, sealed, _, _, opened) =
      ocb_decrypt-ocb_encrypt aes sender.key nonce (Codec.encode Dst packet []) bytes in
    let ahead : wrapping_add receiver.decrypt_nonce (behind + 1) ≡ nonce = omega (arith, nonces) in
    let arrives : arrival receiver (u8 nonce) ≡ accept nonce false behind =
      subst (λ (n : ℕ). arrival receiver (u8 n) ≡ accept n false behind) ahead
        (arrival-ahead receiver behind hn hb) in
    (
      record sender { encrypt_nonce = nonce },
      (u8 nonce ∷ take 3 (to_be_bytes block_size tag)) ++ out,
      unfold encrypt in rw (sealed, encrypt),
      refl,
      decrypt-accept aes ReplyDst Dst receiver (u8 nonce) _ _ _ out nonce false behind arrives
          ∙ open_packet-match aes ReplyDst Dst receiver (u8 nonce) out nonce false behind tag
              (Codec.encode Dst packet []) packet (leftover law packet)
              (subst
                (λ (k : List ℕ).
                  ocb_decrypt aes k nonce out ≡ some (tag, Codec.encode Dst packet []))
                keys opened)
              (decode-encode law packet fits),
    )
