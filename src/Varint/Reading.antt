-- ===== src/Varint/Reading.antt =====
-- mumble-protocol/src/varint.rs: what is written for any number, and read from any bytes.
use atof.Prelude.{
  ℕ, ◌-◌, ◌%◌, ◌^◌, ◌≤◌, ◌<◌, bit_and, bit_or, ◌≡◌, List, [], ◌∷◌, ◌++◌, arith, length, ok, err,
  Result, IoError, ap, sym, ◌∙◌, ◌⊎◌, Bool-cases, ◌==◌, Reader, read_u8, ◌>>=◌, dec_lt, inl, inr,
}
use atof.Prelude.Bits.Masks.{
  byte_low_four, byte_low_five, byte_low_six, byte_low_seven, bit_or_disjoint,
}
use atof.Prelude.Readers.{Reads, Reads-pure, Reads-bind, Reads-if, Reads-read_u8}
use atof.Prelude.Words.{shl64, IsU64, IsByte, IsBytes, not64, u8, shr}
use atof.Varint.{read_varint, read_after, complement, write_sized, write_varint}
use atof.Varint.Encoding.{join_two, join_three, join_four, join_eight}
use atof.Varint.RoundTrip.{write_varint-small, write_varint-last, write_varint-top}

write_sized-shape :
    (v : ℕ)
    → v < 2 ^ 63
    → IsBytes (write_sized v) × (1 ≤ length (write_sized v)) × (length (write_sized v) ≤ 9)
unfolding write_sized
write_sized-shape v h = ground (
  arith,
  bit_or_disjoint 6 2 (u8 (shr v 8)),
  bit_or_disjoint 5 6 (u8 (shr v 16)),
  bit_or_disjoint 4 14 (u8 (shr v 24)),
)

-- `write_varint` writes 1 to 10 elements on a `u64`, and each is a byte.
pub write_varint-shape :
    (v : ℕ)
    → IsU64 v
    → IsBytes (write_varint v) × (1 ≤ length (write_varint v)) × (length (write_varint v) ≤ 10)
write_varint-shape v h = elim (dec_lt v (2 ^ 63)) [
  | yes small ↦
      let (bytes, lo, hi) = write_sized-shape v small in
      rw (write_varint-small v small) (bytes, lo, omega arith)
  | no large ↦ elim (dec_lt v (2 ^ 64 - 4)) [
    | yes below ↦
        let (bytes, lo, hi) = write_sized-shape (not64 v) (omega arith) in
        rw (write_varint-top v (omega arith) below) ((omega arith, bytes), omega arith, omega arith)
    | no top ↦ rw (write_varint-last v (omega arith) h) (omega arith)
  ]
]

next_byte :
    {f : ℕ → Reader ℕ} → ((b : ℕ) → IsByte b → Reads (f b) IsU64) → Reads (read_u8 >>= f) IsU64
next_byte h = Reads-bind IsByte IsU64 read_u8 Reads-read_u8 h

module _ (b0 : ℕ) where
  -- The value of each form fits a `u64`.
  two_bytes-lt : (b : ℕ) → b < 256 → IsU64 (bit_or (shl64 (bit_and b0 0x3f) 8) b)
  two_bytes-lt b h = rw (byte_low_six b0, join_two (b0 % 64) b (omega arith) h) (omega arith)

  three_bytes-lt :
      (b c : ℕ)
      → b < 256
      → c < 256
      → IsU64 (bit_or (bit_or (shl64 (bit_and b0 0x1f) 16) (shl64 b 8)) c)
  three_bytes-lt b c hb hc =
      rw (byte_low_five b0, join_three (b0 % 32) b (omega arith) hb c hc) (omega arith)

  four_bytes-lt :
      (b c d : ℕ)
      → b < 256
      → c < 256
      → d < 256
      → IsU64 (bit_or (bit_or (bit_or (shl64 (bit_and b0 0x0f) 24) (shl64 b 16)) (shl64 c 8)) d)
  four_bytes-lt b c d hb hc hd =
      rw (byte_low_four b0, join_four (b0 % 16) b (omega arith) hb c hc d hd) (omega arith)

-- Past the first byte the reader gives a `u64`, and leaves the end of what it was given.
read_after-Reads : (b0 : ℕ) → Reads (read_after b0) IsU64
unfolding read_after
read_after-Reads b0 =
    Reads-if IsU64 (bit_and b0 0x80 == 0) (Reads-pure IsU64 _ (omega (arith, byte_low_seven b0))) (
      next_byte λ b1 h1.
        Reads-if IsU64 (bit_and b0 0x40 == 0) (Reads-pure IsU64 _ (two_bytes-lt b0 b1 h1)) (
          next_byte λ b2 h2.
            Reads-if IsU64 (bit_and b0 0x20 == 0)
              (Reads-pure IsU64 _ (three_bytes-lt b0 b1 b2 h1 h2))
              (next_byte λ b3 h3.
                Reads-if IsU64 (bit_and b0 0x10 == 0)
                  (Reads-pure IsU64 _ (four_bytes-lt b0 b1 b2 b3 h1 h2 h3))
                  (next_byte λ b4 h4.
                    Reads-if IsU64 (bit_and b0 0x04 == 0)
                      (Reads-pure IsU64 _ (rw (join_four b1 b2 h1 h2 b3 h3 b4 h4) (omega arith)))
                      (next_byte λ b5 h5. next_byte λ b6 h6. next_byte λ b7 h7. next_byte λ b8 h8.
                        Reads-pure IsU64 _ (
                          rw (join_eight b1 b2 b3 b4 b5 b6 b7 b8 h1 h2 h3 h4 h5 h6 h7 h8)
                            (omega arith)))))))

complement-eq-ok :
    (r : Result IoError (ℕ × List ℕ)) {v : ℕ} {rest : List ℕ}
    → complement r ≡ ok (v, rest)
    → (u : ℕ) × (r ≡ ok (u, rest)) × (v ≡ not64 u)
complement-eq-ok (ok (u, left)) e = (u, cc, cc)
complement-eq-ok (err x) e = cc

read_varint-cases :
    (b0 : ℕ) (bytes : List ℕ)
    → (read_varint (b0 ∷ bytes) ≡ complement (read_varint bytes))
      ⊎ ((read_varint (b0 ∷ bytes) ≡ ok (not64 (bit_and b0 0x03), bytes))
          ⊎ (read_varint (b0 ∷ bytes) ≡ read_after b0 bytes))
unfolding read_varint
read_varint-cases b0 bytes = elim (Bool-cases (bit_and b0 0xfc == 0xf8)) [
  | inl inner ↦ inl (rw inner)
  | inr outer ↦ elim (Bool-cases (bit_and b0 0xfc == 0xfc)) [
    | inl top ↦ inr (inl (rw (outer, top)))
    | inr sized ↦ inr (inr (rw (outer, sized)))
  ]
]

-- On any bytes, a successful `read_varint` gives a `u64`, takes a byte at least, and leaves the
-- end of what it was given.
pub read_varint-Reads :
    (bytes : List ℕ)
    → IsBytes bytes
    → (v : ℕ) (rest : List ℕ) → read_varint bytes ≡ ok (v, rest)
    → IsU64 v × (b0 : ℕ) × (front : List ℕ) × (bytes ≡ b0 ∷ (front ++ rest))
read_varint-Reads [] h v rest e = unfold read_varint in cc
read_varint-Reads (b0 ∷ bytes) h v rest e = elim (read_varint-cases b0 bytes) [
  | inl inner ↦
      let (u, ru, ev) = complement-eq-ok (read_varint bytes) (sym inner ∙ e) in
      let (fits, b1, front, cut) = read_varint-Reads bytes h.1 u rest ru in
      (omega (arith, ev), b0, b1 ∷ front, ap (◌∷◌ b0) cut)
  | inr (inl top) ↦
      let fits : v ≡ not64 (bit_and b0 0x03) = cc in
      let left : bytes ≡ rest = cc in (omega (arith, fits), b0, [], ap (◌∷◌ b0) left)
  | inr (inr sized) ↦
      let (fits, front, cut) = read_after-Reads b0 bytes h.1 v rest (sym sized ∙ e) in
      (fits, b0, front, ap (◌∷◌ b0) cut)
]
