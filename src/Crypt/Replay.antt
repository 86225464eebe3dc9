-- ===== src/Crypt/Replay.antt =====
-- mumble-protocol/src/crypt.rs: datagrams that `decrypt` accepts more than once, or never.
mod Window
pub use Window.{Distinct, none_yet, another}
use atof.Prelude.{
  ℕ, ◌+◌, ◌*◌, ◌-◌, ◌^◌, ◌≤◌, ◌<◌, ◌≡◌, ◌≢◌, refl, sym, subst, ap, ◌∙◌, inl, inr, List, [], ◌∷◌,
  Bool, false, Option, none, some, arith, Bool-cases, Option-cases, length, take, get_or, Result,
  IoError, ok, err,
}
use atof.Prelude.Words.{u8, to_be_bytes, IsU128, IsBytes}
use atof.Ping.{bytes_eq}
use atof.Voice.Packet.{VoicePacketDst, VoicePacket}
use atof.Voice.Codec
use atof.Crypt.Cipher.{block_size, Aes, ocb_decrypt}
use atof.Crypt.State.{
  CryptState, DecryptError, accept, too_late, wrapping_add, arrival, failed, parsed, expect_packet,
  count_packet, open_packet, decrypt, answer,
}
use atof.Crypt.Session.{arrival-ahead, arrival-accept, decrypt-accept, decrypt-too_late}
use atof.Crypt.Answers.{decrypt-failed, decrypt-short, parsed_long}
use Window.{Kept, count_packet-Kept, count_packet-bound}

module _ (aes : Aes) (EncodeDst DecodeDst : VoicePacketDst) where
  -- What a receiver goes through: the datagrams that arrive, each answered by `decrypt`, and the
  -- nonces of those that were accepted, the last one first. None of them is refused as late.
  pub data Receives (s : CryptState) : List ℕ → CryptState → Type 0 where
    start : Receives s [] s
    takes :
        {ns : List ℕ} {t t' : CryptState}
        → Receives s ns t
        → (buf left : List ℕ) (result : Result IoError (VoicePacket DecodeDst.SessionId))
          (nonce : ℕ) (is_late : Bool) (lost : ℕ)
        → IsBytes buf
        → decrypt aes EncodeDst DecodeDst t buf ≡ some (t', left, parsed result)
        → arrival t (get_or buf 0 0) ≡ accept nonce is_late lost
        → Receives s (nonce ∷ ns) t'
    refuses :
        {ns : List ℕ} {t t' : CryptState}
        → Receives s ns t
        → (buf left : List ℕ) (e : DecryptError) → IsBytes buf
        → decrypt aes EncodeDst DecodeDst t buf ≡ some (t', left, failed e)
        → e ≢ DecryptError.late
        → Receives s ns t'

  -- A datagram that is answered with a packet has a first byte, and is counted.
  parsed_counts :
      (s s' : CryptState) (buf left : List ℕ)
      (result : Result IoError (VoicePacket DecodeDst.SessionId)) (nonce : ℕ) (is_late : Bool)
      (lost : ℕ)
      → IsBytes buf
      → decrypt aes EncodeDst DecodeDst s buf ≡ some (s', left, parsed result)
      → arrival s (get_or buf 0 0) ≡ accept nonce is_late lost
      → (get_or buf 0 0 < 256) × (s' ≡ count_packet s (get_or buf 0 0) nonce is_late lost)
  parsed_counts s s' (nonce_0 ∷ a ∷ b ∷ c ∷ sealed) left result nonce is_late lost bytes e arrived =
      let (nonce', is_late', lost', arrived', counted) =
        parsed_long aes EncodeDst DecodeDst s s' nonce_0 a b c sealed left result e in
      (bytes.0, cc)
  parsed_counts s s' [] left result nonce is_late lost bytes e arrived =
      let short = decrypt-short aes EncodeDst DecodeDst s [] (omega arith) in absurd cc
  parsed_counts s s' (x ∷ []) left result nonce is_late lost bytes e arrived =
      let short = decrypt-short aes EncodeDst DecodeDst s (x ∷ []) (omega arith) in absurd cc
  parsed_counts s s' (x ∷ y ∷ []) left result nonce is_late lost bytes e arrived =
      let short = decrypt-short aes EncodeDst DecodeDst s (x ∷ y ∷ []) (omega arith) in absurd cc
  parsed_counts s s' (x ∷ y ∷ z ∷ []) left result nonce is_late lost bytes e arrived =
      let short = decrypt-short aes EncodeDst DecodeDst s (x ∷ y ∷ z ∷ []) (omega arith) in
      absurd cc

  -- The window of the receiver, and how far its nonce can have moved.
  Receives-Kept :
      {s t : CryptState} {ns : List ℕ}
      → 30 ≤ s.decrypt_nonce
      → s.decrypt_nonce + 127 * length ns < 2 ^ 128
      → length s.decrypt_history ≡ 256
      → Receives s ns t
      → Kept t ns
        × (s.decrypt_nonce ≤ t.decrypt_nonce)
        × (t.decrypt_nonce ≤ s.decrypt_nonce + 127 * length ns)
  Receives-Kept low high hist start =
      (record { history = hist; seen = tt; distinct = none_yet }, omega arith, omega arith)
  Receives-Kept {s = s} {t = t'} low high hist
        (takes {ns = ns} {t = t} so_far buf left result nonce is_late lost bytes e arrived) =
      let (kept, above, below) = Receives-Kept low (omega arith) hist so_far in
      let (byte, counted) = parsed_counts t t' buf left result nonce is_late lost bytes e arrived in
      let room : t.decrypt_nonce + 127 < 2 ^ 128 = omega arith in
      let (up, down) = count_packet-bound t (get_or buf 0 0) nonce is_late lost room byte arrived in
      subst
        (λ (u : CryptState).
          Kept u (nonce ∷ ns)
          × (s.decrypt_nonce ≤ u.decrypt_nonce)
          × (u.decrypt_nonce ≤ s.decrypt_nonce + 127 * length (nonce ∷ ns)))
        (sym counted)
        (
          count_packet-Kept t ns (get_or buf 0 0) nonce is_late lost (omega arith) room byte arrived
              kept,
          omega arith,
          omega arith,
        )
  Receives-Kept {s = s} {t = t'} {ns = ns} low high hist
        (refuses {t = t} so_far buf left x bytes e early) =
      elim (decrypt-failed aes EncodeDst DecodeDst t t' buf left x bytes e) [
        | inl (_, same) ↦
            subst
              (λ (u : CryptState).
                Kept u ns
                × (s.decrypt_nonce ≤ u.decrypt_nonce)
                × (u.decrypt_nonce ≤ s.decrypt_nonce + 127 * length ns))
              (sym same) (Receives-Kept low high hist so_far)
        | inr (late, _, _, _, _) ↦ absurd (early late)
      ]

  answer-replay :
      (u v s' : CryptState) (left left' : List ℕ)
      (r : Option (Result IoError (Option (VoicePacket DecodeDst.SessionId))))
      (result : Result IoError (VoicePacket DecodeDst.SessionId))
      → answer aes EncodeDst DecodeDst u left' (expect_packet r) ≡ some (s', left, parsed result)
      → answer aes EncodeDst DecodeDst v left' (expect_packet r) ≡ some (v, left, parsed result)
  answer-replay u v s' left left' none result e = absurd cc
  answer-replay u v s' left left' (some (ok none)) result e = absurd cc
  answer-replay u v s' left left' (some (ok (some packet))) result e = cc
  answer-replay u v s' left left' (some (err x)) result e = cc

  -- What `open_packet` answers with a packet depends on the key, the nonce and the datagram.
  open_packet-replay :
      (s s' t : CryptState) (nonce_0 : ℕ) (mac_bytes buf : List ℕ) (nonce : ℕ)
      (is_late is_late' : Bool) (lost lost' : ℕ) (left : List ℕ)
      (result : Result IoError (VoicePacket DecodeDst.SessionId))
      → t.key ≡ s.key
      → open_packet aes EncodeDst DecodeDst s nonce_0 mac_bytes buf nonce is_late lost
        ≡ some (s', left, parsed result)
      → open_packet aes EncodeDst DecodeDst t nonce_0 mac_bytes buf nonce is_late' lost'
        ≡ some (count_packet t nonce_0 nonce is_late' lost', left, parsed result)
  unfolding open_packet
  open_packet-replay s s' t nonce_0 mac_bytes buf nonce is_late is_late' lost lost' left result same
        e =
      elim (Option-cases (ocb_decrypt aes s.key nonce buf)) [
        | inl panic ↦ absurd (let e' = rw (panic, open_packet) at e in cc)
        | inr ((tag, plain), opened) ↦
            let opened' : ocb_decrypt aes t.key nonce buf ≡ some (tag, plain) =
              ap (λ (k : List ℕ). ocb_decrypt aes k nonce buf) same ∙ opened in
            let e' = rw (opened, open_packet) at e in
            rw (opened', open_packet)
              (elim (Bool-cases (bytes_eq (take 3 (to_be_bytes block_size tag)) mac_bytes)) [
                | inl good ↦ rw good (
                    answer-replay (count_packet s nonce_0 nonce is_late lost)
                      (count_packet t nonce_0 nonce is_late' lost') s' left
                      (Codec.decode DecodeDst plain).1 (Codec.decode DecodeDst plain).0 result
                      (rw good at e'))
                | inr wrong ↦ absurd (let e'' = rw wrong at e' in cc)
              ])
      ]

-- The nonces that a receiver accepts are all different, whatever datagrams of bytes arrive, as long
-- as none is refused as late, its nonce begins at 30 or more, and would stay below 2 ^ 128 if every
-- accepted datagram moved it by 127: it accepts no nonce twice. Its history has 256 entries.
pub Receives-Distinct :
    (aes : Aes) (EncodeDst DecodeDst : VoicePacketDst) (s t : CryptState) (ns : List ℕ)
    → 30 ≤ s.decrypt_nonce
    → s.decrypt_nonce + 127 * length ns < 2 ^ 128
    → length s.decrypt_history ≡ 256
    → Receives aes EncodeDst DecodeDst s ns t
    → Distinct ns
Receives-Distinct aes EncodeDst DecodeDst s t ns low high hist so_far =
    (Receives-Kept aes EncodeDst DecodeDst low high hist so_far).0.distinct

arrival-back :
    (t : CryptState) (back : ℕ)
    → IsU128 t.decrypt_nonce
    → 30 ≤ back
    → back ≤ 127
    → arrival t (u8 (wrapping_add t.decrypt_nonce (2 ^ 128 - back)))
      ≡ too_late (wrapping_add t.decrypt_nonce (2 ^ 128 - back))
unfolding arrival
arrival-back t back h low high = ground arith

-- A receiver accepts a datagram that is in order or ahead. A second datagram of four bytes, which
-- anyone can write, begins with a byte that stands for a nonce 30 to 127 behind: it is refused as
-- late. Then the first datagram, sent again, is accepted again.
pub decrypt-after_late :
    (aes : Aes) (EncodeDst DecodeDst : VoicePacketDst) (s t : CryptState) (nonce_0 a b c : ℕ)
    (sealed left : List ℕ) (result : Result IoError (VoicePacket DecodeDst.SessionId))
    (nonce lost back x y z : ℕ)
    → IsBytes (nonce_0 ∷ a ∷ b ∷ c ∷ sealed)
    → arrival s nonce_0 ≡ accept nonce false lost
    → decrypt aes EncodeDst DecodeDst s (nonce_0 ∷ a ∷ b ∷ c ∷ sealed)
      ≡ some (t, left, parsed result)
    → 30 ≤ back
    → back ≤ 127
    → (u u' : CryptState) × (decrypt aes EncodeDst DecodeDst t
          (u8 (wrapping_add nonce (2 ^ 128 - back)) ∷ x ∷ y ∷ z ∷ [])
        ≡ some (u, [], failed DecryptError.late))
      × (decrypt aes EncodeDst DecodeDst u (nonce_0 ∷ a ∷ b ∷ c ∷ sealed)
          ≡ some (u', left, parsed result))
decrypt-after_late aes E D s t nonce_0 a b c sealed left result nonce lost back x y z bytes arrived
      e low high =
    let behind = wrapping_add nonce (2 ^ 128 - back) in
    let opened = sym (decrypt-accept aes E D s nonce_0 a b c sealed nonce false lost arrived) ∙ e in
    let (_, counted) =
      parsed_counts aes E D s t (nonce_0 ∷ a ∷ b ∷ c ∷ sealed) left result nonce false lost bytes e
        arrived in
    let (last, fits) = arrival-accept s nonce_0 nonce false lost bytes.0 arrived in
    let t' = count_packet s nonce_0 nonce false lost in
    let u = record t' { decrypt_nonce = behind } in
    let returns : wrapping_add behind (back - 1 + 1) ≡ nonce = omega arith in
    let again : arrival u nonce_0 ≡ accept nonce false (back - 1) =
      subst (λ (n_0 : ℕ). arrival u n_0 ≡ accept nonce false (back - 1)) last
        (subst (λ (n : ℕ). arrival u (u8 n) ≡ accept n false (back - 1)) returns
          (arrival-ahead u (back - 1) (omega arith) (omega arith))) in
    (
      u,
      count_packet u nonce_0 nonce false (back - 1),
      ap (λ (v : CryptState). decrypt aes E D v (u8 behind ∷ x ∷ y ∷ z ∷ [])) counted
          ∙ decrypt-too_late aes E D t' (u8 behind) x y z [] behind
              (arrival-back t' back fits low high),
      decrypt-accept aes E D u nonce_0 a b c sealed nonce false (back - 1) again
          ∙ open_packet-replay aes E D s t u nonce_0 (a ∷ b ∷ c ∷ []) sealed nonce false false lost
              (back - 1) left result refl opened,
    )
