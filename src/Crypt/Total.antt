-- ===== src/Crypt/Total.antt =====
-- mumble-protocol/src/crypt.rs: `decrypt` on any bytes.
use atof.Prelude.{
  ℕ, zero, suc, ◌-◌, ◌*◌, ◌≤◌, ◌<◌, bit_xor, ◌≡◌, ◌≢◌, refl, inl, inr, List, ◌++◌, Bool, true,
  Option, none, some, arith, ltb, leb, Bool-cases, length, length-drop, length-append, length-take,
  take, drop, can_split, All-take, All-append, Result, IoError, ok, err, get_or, replicate,
}
use atof.Prelude.Words.{IsByte, IsBytes, to_be_bytes, from_be_bytes, to_be-IsBytes, length-to_be}
use atof.Ping.{bytes_eq}
use atof.Voice.Packet.{VoicePacketDst, LawfulDst, VoicePacket}
use atof.Voice.Codec
use atof.Voice.Decoding.{decode-no_panic, decode-ne-none}
use atof.Crypt.Cipher.{
  block_size, Aes, s2, aes_encrypt, aes_decrypt, to_be, tag_of, put_chunk, decrypt_last,
  decrypt_blocks, ocb_decrypt,
}
use atof.Crypt.State.{
  CryptState, DecryptError, Arrival, accept, repeat, too_late, failed, arrival, expect_packet,
  count_packet, answer, open_packet, decrypt,
}

module _ (aes : Aes) (key : List ℕ) where
  -- A decryption that succeeds, and writes as many bytes as it read.
  abbrev pub Opens : List ℕ → Option (ℕ × List ℕ) → Type 0
  Opens buf result =
      (tag : ℕ) × (out : List ℕ) × (result ≡ some (tag, out))
      × IsBytes out
      × (length out ≡ length buf)

  decrypt_last-Opens :
      (offset0 checksum : ℕ) (buf : List ℕ)
      → length buf ≤ block_size
      → Opens buf (decrypt_last aes key offset0 checksum buf)
  unfolding decrypt_last
  decrypt_last-Opens offset0 checksum buf h =
      let fits : leb (length buf) block_size ≡ true = ground arith in
      let offset = s2 offset0 in
      let plain =
        bit_xor (from_be_bytes (buf ++ replicate (block_size - length buf) 0))
          (aes_encrypt aes key (bit_xor (length buf * 8) offset)) in
      (
        tag_of aes key offset (bit_xor checksum plain),
        take (length buf) (to_be_bytes block_size plain),
        rw (decrypt_last, fits) refl,
        All-take IsByte (length buf) (to_be_bytes block_size plain)
            (to_be-IsBytes block_size plain),
        omega (
          arith,
          length-take (length buf) (to_be_bytes block_size plain),
          length-to_be block_size plain,
        ),
      )

  put_chunk-Opens :
      (chunk : ℕ) (buf : List ℕ) (rest : Option (ℕ × List ℕ))
      → block_size < length buf
      → Opens (drop block_size buf) rest
      → Opens buf (put_chunk aes key chunk rest)
  put_chunk-Opens chunk buf rest h (tag, out, e, bytes, size) = (
    tag,
    to_be_bytes block_size chunk ++ out,
    rw e refl,
    All-append IsByte (to_be_bytes block_size chunk) out (to_be-IsBytes block_size chunk) bytes,
    omega (
      arith,
      size,
      length-append (to_be_bytes block_size chunk) out,
      length-to_be block_size chunk,
      length-drop block_size buf,
    ),
  )

  decrypt_blocks-Opens :
      (fuel offset0 checksum : ℕ) (buf : List ℕ)
      → length buf ≤ fuel
      → Opens buf (decrypt_blocks aes key fuel offset0 checksum buf)
  unfolding decrypt_blocks
  decrypt_blocks-Opens zero offset0 checksum buf h =
      decrypt_last-Opens offset0 checksum buf (omega arith)
  decrypt_blocks-Opens (suc fuel) offset0 checksum buf h =
      let plain =
        bit_xor (aes_decrypt aes key (bit_xor (s2 offset0) (from_be_bytes (take block_size buf))))
          (s2 offset0) in
      let rest =
        decrypt_blocks-Opens fuel (s2 offset0) (bit_xor checksum plain) (drop block_size buf)
          (omega (arith, length-drop block_size buf)) in
      elim (Bool-cases (ltb block_size (length buf))) [
        | inl more ↦
            let splits : can_split block_size buf ≡ true = ground arith in
            rw (decrypt_blocks, more, splits) (put_chunk-Opens plain buf _ (ground arith) rest)
        | inr last ↦
            rw (decrypt_blocks, last) (decrypt_last-Opens offset0 checksum buf (ground arith))
      ]

  -- `ocb_decrypt` never panics: on any buffer it returns a tag and as many bytes.
  pub ocb_decrypt-Opens : (nonce : ℕ) (buf : List ℕ) → Opens buf (ocb_decrypt aes key nonce buf)
  unfolding ocb_decrypt
  ocb_decrypt-Opens nonce buf =
      decrypt_blocks-Opens (length buf) (aes_encrypt aes key (to_be nonce)) 0 buf (omega arith)

module _ (aes : Aes) (EncodeDst : VoicePacketDst) {DecodeDst : VoicePacketDst}
    (law : LawfulDst DecodeDst) where
  -- The voice codec never panics or answers `Ok(None)`, so its `expect` succeeds.
  answer-ne-none :
      (s : CryptState)
      (r : Option (Result IoError (Option (VoicePacket DecodeDst.SessionId))) × List ℕ)
      → r.0 ≢ none
      → ((rest : List ℕ) → r ≢ (some (ok none), rest))
      → answer aes EncodeDst DecodeDst s r.1 (expect_packet r.0) ≢ none
  answer-ne-none s (none, left) safe h e = safe refl
  answer-ne-none s (some (ok none), left) safe h e = h left refl
  answer-ne-none s (some (ok (some packet)), left) safe h e = cc
  answer-ne-none s (some (err x), left) safe h e = cc

  open_packet-ne-none :
      (s : CryptState) (nonce_0 : ℕ) (mac_bytes buf : List ℕ) (nonce : ℕ) (is_late : Bool)
      (lost : ℕ)
      → open_packet aes EncodeDst DecodeDst s nonce_0 mac_bytes buf nonce is_late lost ≢ none
  unfolding open_packet
  open_packet-ne-none s nonce_0 mac_bytes buf nonce is_late lost e =
      let (tag, plain, opened, bytes, _) = ocb_decrypt-Opens aes s.key nonce buf in
      elim (Bool-cases (bytes_eq (take 3 (to_be_bytes block_size tag)) mac_bytes)) [
        | inl same ↦
            answer-ne-none (count_packet s nonce_0 nonce is_late lost)
              (Codec.decode DecodeDst plain) (decode-no_panic DecodeDst plain)
              (decode-ne-none law plain bytes) (rw (opened, open_packet, same) at e)
        | inr other ↦ let e' = rw (opened, open_packet, other) at e in absurd cc
      ]

  -- `decrypt` never panics, whatever the datagram and the state, if the session ids of the
  -- direction that is decoded are lawful.
  pub decrypt-ne-none :
      (s : CryptState) (buf : List ℕ) → decrypt aes EncodeDst DecodeDst s buf ≢ none
  unfolding decrypt
  decrypt-ne-none s buf e = elim (Bool-cases (ltb (length buf) 4)) [
    | inl short ↦ let e' = rw (decrypt, short) at e in absurd cc
    | inr long ↦
        let splits : can_split 4 buf ≡ true = ground arith in
        by_arrival (arrival s (get_or (take 4 buf) 0 0)) (rw (decrypt, long, splits) at e)
  ]
    where
      by_arrival :
          (a : Arrival)
          → (elim a [
            | repeat ↦ some (s, drop 4 buf, failed DecryptError.repeated)
            | too_late nonce ↦
                some (record s { decrypt_nonce = nonce }, drop 4 buf, failed DecryptError.late)
            | accept nonce is_late lost ↦
                open_packet aes EncodeDst DecodeDst s
                  (get_or (take 4 buf) 0 0)
                  (take 3 (drop 1 (take 4 buf)))
                  (drop 4 buf)
                  nonce
                  is_late
                  lost
          ])
            ≢ none
      by_arrival (accept nonce is_late lost) e =
          open_packet-ne-none s (get_or (take 4 buf) 0 0) (take 3 (drop 1 (take 4 buf)))
            (drop 4 buf) nonce is_late lost e
      by_arrival repeat e = cc
      by_arrival (too_late nonce) e = cc
