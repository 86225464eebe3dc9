-- ===== src/Crypt/Accounting.antt =====
-- mumble-protocol/src/crypt.rs: what `decrypt` changes when it accepts a datagram.
use atof.Prelude.{
  ℕ, ◌+◌, ◌-◌, ◌%◌, ◌^◌, ◌≤◌, ◌<◌, ◌≡◌, ◌≢◌, sym, ap, ap₂, ◌∙◌, ◌⊎◌, inl, inr, List, [], ◌∷◌, Bool,
  true, false, some, arith, get_or, set, Result, IoError,
}
use atof.Prelude.Words.{u8, u32, shr, IsU128, IsBytes}
use atof.Voice.Packet.{VoicePacketDst, VoicePacket}
use atof.Crypt.Cipher.{Aes}
use atof.Crypt.State.{
  CryptState, accept, wrapping_add, diff_of, arrival, parsed, count_packet, decrypt,
}
use atof.Crypt.Session.{arrival-accept}
use atof.Crypt.Answers.{decrypt-short, parsed_long}

-- The state after a packet that is `ahead` of the last one: the nonce is taken over, and the
-- packets in between count as lost.
abbrev pub took_ahead : CryptState → ℕ → CryptState
took_ahead s ahead =
    let nonce = (s.decrypt_nonce + ahead) % 2 ^ 128 in
    record s {
      decrypt_nonce = nonce;
      decrypt_history = set s.decrypt_history (u8 nonce) (u8 (shr nonce 8));
      good = u32 (s.good + 1);
      lost = u32 (s.lost + (ahead - 1));
    }

-- The nonce of a packet that is `behind` the last one.
abbrev pub nonce_behind : CryptState → ℕ → ℕ
nonce_behind s behind = (s.decrypt_nonce + (2 ^ 128 - behind)) % 2 ^ 128

-- The state after such a packet: the nonce stays, and one packet less counts as lost.
abbrev pub took_behind : CryptState → ℕ → CryptState
took_behind s behind =
    let nonce = nonce_behind s behind in
    record s {
      decrypt_history = set s.decrypt_history (u8 nonce) (u8 (shr nonce 8));
      good = u32 (s.good + 1);
      late = u32 (s.late + 1);
      lost = u32 (s.lost + (2 ^ 32 - 1));
    }

-- From `s` to `s'`, a packet was accepted whose datagram begins with the byte.
abbrev pub Accepts : CryptState → CryptState → ℕ → Type 0
Accepts s s' byte =
    ((ahead : ℕ) × (1 ≤ ahead)
      × (ahead ≤ 127)
      × (byte ≡ u8 (s.decrypt_nonce + ahead))
      × (s' ≡ took_ahead s ahead))
    ⊎ ((behind : ℕ) × (behind < 30)
        × (byte ≡ u8 (nonce_behind s behind))
        × (get_or s.decrypt_history byte 0 ≢ u8 (shr (nonce_behind s behind) 8))
        × (s' ≡ took_behind s behind))

arrival-forward :
    (s : CryptState) (nonce_0 nonce lost : ℕ)
    → nonce_0 < 256
    → IsU128 s.decrypt_nonce
    → arrival s nonce_0 ≡ accept nonce false lost
    → (1 ≤ diff_of s.decrypt_nonce nonce_0)
      × (diff_of s.decrypt_nonce nonce_0 ≤ 127)
      × (nonce ≡ wrapping_add s.decrypt_nonce (diff_of s.decrypt_nonce nonce_0))
      × (lost ≡ diff_of s.decrypt_nonce nonce_0 - 1)
unfolding arrival
arrival-forward s nonce_0 nonce lost h hn e =
    (ground arith, ground arith, ground arith, ground arith)

arrival-backward :
    (s : CryptState) (nonce_0 nonce lost : ℕ)
    → nonce_0 < 256
    → IsU128 s.decrypt_nonce
    → arrival s nonce_0 ≡ accept nonce true lost
    → (behind : ℕ) × (behind < 30)
      × (nonce ≡ nonce_behind s behind)
      × (lost ≡ 2 ^ 32 - 1)
      × (get_or s.decrypt_history nonce_0 0 ≢ u8 (shr nonce 8))
unfolding arrival
arrival-backward s nonce_0 nonce lost h hn e = (
  (256 - diff_of s.decrypt_nonce nonce_0) % 256,
  ground arith,
  ground arith,
  ground arith,
  λ seen. ground arith,
)

counted-Accepts :
    (s s' : CryptState) (nonce_0 nonce : ℕ) (is_late : Bool) (lost : ℕ)
    → nonce_0 < 256
    → IsU128 s.decrypt_nonce
    → arrival s nonce_0 ≡ accept nonce is_late lost
    → s' ≡ count_packet s nonce_0 nonce is_late lost
    → Accepts s s' nonce_0
counted-Accepts s s' nonce_0 nonce false lost h hn arrived counted =
    let (low, high, moved, gap) = arrival-forward s nonce_0 nonce lost h hn arrived in
    let (last, _) = arrival-accept s nonce_0 nonce false lost h arrived in
    let ahead = diff_of s.decrypt_nonce nonce_0 in
    inl (
      ahead,
      low,
      high,
      omega (arith, moved, last),
      counted
          ∙ ap (λ (b : ℕ). count_packet s b nonce false lost) (sym last)
          ∙ ap₂ (λ (n l : ℕ). count_packet s (u8 n) n false l) moved gap,
    )
counted-Accepts s s' nonce_0 nonce true lost h hn arrived counted =
    let (behind, short, moved, gap, fresh) = arrival-backward s nonce_0 nonce lost h hn arrived in
    let (last, _) = arrival-accept s nonce_0 nonce true lost h arrived in
    inr (
      behind,
      short,
      sym last ∙ ap u8 moved,
      λ seen. fresh (seen ∙ ap (λ (n : ℕ). u8 (shr n 8)) (sym moved)),
      counted
          ∙ ap (λ (b : ℕ). count_packet s b nonce true lost) (sym last)
          ∙ ap₂ (λ (n l : ℕ). count_packet s (u8 n) n true l) moved gap,
    )

-- When `decrypt` accepts a datagram of bytes, the first byte stands for a nonce that is 1 to 127
-- ahead of the receiver's, or 0 to 29 behind it and not in the history. Ahead, the receiver takes
-- the nonce over and counts those in between as lost. Behind, its nonce stays, and it counts a late
-- packet and one less as lost. Either way it counts a good packet, writes the nonce's second byte
-- into the history at the first, and changes nothing else. The receiver's nonce has 128 bits.
pub decrypt-Accepts :
    (aes : Aes) (EncodeDst DecodeDst : VoicePacketDst) (s s' : CryptState) (buf left : List ℕ)
    (result : Result IoError (VoicePacket DecodeDst.SessionId))
    → IsBytes buf
    → IsU128 s.decrypt_nonce
    → decrypt aes EncodeDst DecodeDst s buf ≡ some (s', left, parsed result)
    → Accepts s s' (get_or buf 0 0)
decrypt-Accepts aes E D s s' (nonce_0 ∷ a ∷ b ∷ c ∷ sealed) left result bytes hn e =
    let (nonce, is_late, lost, arrived, counted) =
      parsed_long aes E D s s' nonce_0 a b c sealed left result e in
    counted-Accepts s s' nonce_0 nonce is_late lost bytes.0 hn arrived counted
decrypt-Accepts aes E D s s' [] left result bytes hn e =
    let short = decrypt-short aes E D s [] (omega arith) in absurd cc
decrypt-Accepts aes E D s s' (x ∷ []) left result bytes hn e =
    let short = decrypt-short aes E D s (x ∷ []) (omega arith) in absurd cc
decrypt-Accepts aes E D s s' (x ∷ y ∷ []) left result bytes hn e =
    let short = decrypt-short aes E D s (x ∷ y ∷ []) (omega arith) in absurd cc
decrypt-Accepts aes E D s s' (x ∷ y ∷ z ∷ []) left result bytes hn e =
    let short = decrypt-short aes E D s (x ∷ y ∷ z ∷ []) (omega arith) in absurd cc
