-- ===== src/Crypt/Answers.antt =====
-- mumble-protocol/src/crypt.rs: the state of a receiver after an answer of `decrypt`.
use atof.Prelude.{
  ℕ, ◌-◌, ◌^◌, ◌≤◌, ◌<◌, ◌≡◌, ◌≢◌, refl, sym, ap, ◌∙◌, ◌⊎◌, inl, inr, List, [], ◌∷◌, Bool, some,
  arith, length, drop, Result, IoError,
}
use atof.Prelude.Words.{IsBytes}
use atof.Voice.Packet.{VoicePacketDst, VoicePacket}
use atof.Crypt.Cipher.{Aes}
use atof.Crypt.State.{
  CryptState, DecryptError, eof, repeated, Arrival, accept, repeat, too_late, wrapping_add, arrival,
  failed, parsed, count_packet, decrypt,
}
use atof.Crypt.Session.{
  arrival_again, arrival_too_late, decrypt-accept, decrypt-repeat, decrypt-too_late,
  open_packet-Opened, counted_state, failed_state,
}

-- The three cases of an arrival, each with its equation.
data Cases (a : Arrival) : Type 0 where
  accepted : (nonce : ℕ) (is_late : Bool) (lost : ℕ) → a ≡ accept nonce is_late lost → Cases a
  repeats : a ≡ repeat → Cases a
  late : (nonce : ℕ) → a ≡ too_late nonce → Cases a

arrival-Cases : (a : Arrival) → Cases a
arrival-Cases (accept nonce is_late lost) = accepted nonce is_late lost refl
arrival-Cases repeat = repeats refl
arrival-Cases (too_late nonce) = late nonce refl

-- The state `s'` after the error `e` in the state `s`.
abbrev pub Failure : CryptState → CryptState → DecryptError → Type 0
Failure s s' e =
    ((e ≢ DecryptError.late) × (s' ≡ s))
    ⊎ ((e ≡ DecryptError.late)
        × (back : ℕ) × (30 ≤ back)
        × (back ≤ 128)
        × (s' ≡ record s { decrypt_nonce = wrapping_add s.decrypt_nonce (2 ^ 128 - back) }))

module _ (aes : Aes) (EncodeDst DecodeDst : VoicePacketDst) where
  pub decrypt-short :
      (s : CryptState) (buf : List ℕ)
      → length buf < 4
      → decrypt aes EncodeDst DecodeDst s buf ≡ some (s, buf, failed eof)
  unfolding decrypt
  decrypt-short s buf h = ground arith

  module _ (s s' : CryptState) (nonce_0 a b c : ℕ) (sealed left : List ℕ) where
    -- A datagram that was answered with a packet was accepted, and is counted.
    pub parsed_long :
        (result : Result IoError (VoicePacket DecodeDst.SessionId))
        → decrypt aes EncodeDst DecodeDst s (nonce_0 ∷ a ∷ b ∷ c ∷ sealed)
          ≡ some (s', left, parsed result)
        → (nonce : ℕ) × (is_late : Bool) × (lost : ℕ) × (arrival s nonce_0
            ≡ accept nonce is_late lost)
          × (s' ≡ count_packet s nonce_0 nonce is_late lost)
    parsed_long result e = elim (arrival-Cases (arrival s nonce_0)) [
      | accepted nonce is_late lost arrived ↦ (
        nonce,
        is_late,
        lost,
        arrived,
        counted_state aes EncodeDst DecodeDst
            (open_packet-Opened aes EncodeDst DecodeDst s nonce_0 _ sealed nonce is_late lost)
            (sym (
                decrypt-accept aes EncodeDst DecodeDst s nonce_0 a b c sealed nonce is_late lost
                  arrived)
              ∙ e),
      )
      | repeats arrived ↦
          let e' = decrypt-repeat aes EncodeDst DecodeDst s nonce_0 a b c sealed arrived in
          absurd cc
      | late nonce arrived ↦
          let e' = decrypt-too_late aes EncodeDst DecodeDst s nonce_0 a b c sealed nonce arrived in
          absurd cc
    ]

    replay_long :
        (result : Result IoError (VoicePacket DecodeDst.SessionId))
        → nonce_0 < 256
        → length s.decrypt_history ≡ 256
        → decrypt aes EncodeDst DecodeDst s (nonce_0 ∷ a ∷ b ∷ c ∷ sealed)
          ≡ some (s', left, parsed result)
        → decrypt aes EncodeDst DecodeDst s' (nonce_0 ∷ a ∷ b ∷ c ∷ sealed)
          ≡ some (s', sealed, failed repeated)
    replay_long result h hist e =
        let (nonce, is_late, lost, arrived, counted) = parsed_long result e in
        decrypt-repeat aes EncodeDst DecodeDst s' nonce_0 a b c sealed (
          ap (λ (t : CryptState). arrival t nonce_0) counted
          ∙ arrival_again s nonce_0 nonce is_late lost h hist arrived)

    failed_long :
        (x : DecryptError)
        → nonce_0 < 256
        → decrypt aes EncodeDst DecodeDst s (nonce_0 ∷ a ∷ b ∷ c ∷ sealed)
          ≡ some (s', left, failed x)
        → Failure s s' x
    failed_long x h e = elim (arrival-Cases (arrival s nonce_0)) [
      | accepted nonce is_late lost arrived ↦
          let (wrong, same) =
            failed_state aes EncodeDst DecodeDst
              (open_packet-Opened aes EncodeDst DecodeDst s nonce_0 _ sealed nonce is_late lost)
              (sym (
                  decrypt-accept aes EncodeDst DecodeDst s nonce_0 a b c sealed nonce is_late lost
                    arrived)
                ∙ e) in
          inl (λ l. cc, same)
      | repeats arrived ↦
          let e' = decrypt-repeat aes EncodeDst DecodeDst s nonce_0 a b c sealed arrived in
          inl (λ l. cc, cc)
      | late nonce arrived ↦
          let e' = decrypt-too_late aes EncodeDst DecodeDst s nonce_0 a b c sealed nonce arrived in
          let (back, low, high, moved) = arrival_too_late s nonce_0 nonce h arrived in
          inr (cc, back, low, high, cc)
    ]

-- A datagram of bytes that a receiver has just accepted is refused as repeated when it arrives
-- again, and leaves the receiver as it is. The receiver's history has its 256 entries.
pub decrypt_replay :
    (aes : Aes) (EncodeDst DecodeDst : VoicePacketDst) (s s' : CryptState) (buf left : List ℕ)
    (result : Result IoError (VoicePacket DecodeDst.SessionId))
    → IsBytes buf
    → length s.decrypt_history ≡ 256
    → decrypt aes EncodeDst DecodeDst s buf ≡ some (s', left, parsed result)
    → decrypt aes EncodeDst DecodeDst s' buf ≡ some (s', drop 4 buf, failed repeated)
decrypt_replay aes E D s s' (nonce_0 ∷ a ∷ b ∷ c ∷ sealed) left result bytes hist e =
    replay_long aes E D s s' nonce_0 a b c sealed left result bytes.0 hist e
decrypt_replay aes E D s s' [] left result bytes hist e =
    let short = decrypt-short aes E D s [] (omega arith) in cc
decrypt_replay aes E D s s' (x ∷ []) left result bytes hist e =
    let short = decrypt-short aes E D s (x ∷ []) (omega arith) in cc
decrypt_replay aes E D s s' (x ∷ y ∷ []) left result bytes hist e =
    let short = decrypt-short aes E D s (x ∷ y ∷ []) (omega arith) in cc
decrypt_replay aes E D s s' (x ∷ y ∷ z ∷ []) left result bytes hist e =
    let short = decrypt-short aes E D s (x ∷ y ∷ z ∷ []) (omega arith) in cc

-- When `decrypt` answers with an error on a datagram of bytes, the receiver is as it was, unless
-- the error is that the packet is late: then the receiver's nonce has moved back by 30 to 128, and
-- nothing else has changed.
pub decrypt-failed :
    (aes : Aes) (EncodeDst DecodeDst : VoicePacketDst) (s s' : CryptState) (buf left : List ℕ)
    (x : DecryptError)
    → IsBytes buf
    → decrypt aes EncodeDst DecodeDst s buf ≡ some (s', left, failed x)
    → Failure s s' x
decrypt-failed aes E D s s' (nonce_0 ∷ a ∷ b ∷ c ∷ sealed) left x bytes e =
    failed_long aes E D s s' nonce_0 a b c sealed left x bytes.0 e
decrypt-failed aes E D s s' [] left x bytes e =
    let short = decrypt-short aes E D s [] (omega arith) in inl (λ l. cc, cc)
decrypt-failed aes E D s s' (y ∷ []) left x bytes e =
    let short = decrypt-short aes E D s (y ∷ []) (omega arith) in inl (λ l. cc, cc)
decrypt-failed aes E D s s' (y ∷ z ∷ []) left x bytes e =
    let short = decrypt-short aes E D s (y ∷ z ∷ []) (omega arith) in inl (λ l. cc, cc)
decrypt-failed aes E D s s' (y ∷ z ∷ w ∷ []) left x bytes e =
    let short = decrypt-short aes E D s (y ∷ z ∷ w ∷ []) (omega arith) in inl (λ l. cc, cc)
