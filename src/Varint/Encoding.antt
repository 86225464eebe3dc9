-- ===== src/Varint/Encoding.antt =====
-- The masks, shifts and alternatives of varint.rs as arithmetic on the bytes.
use atof.Prelude.{ℕ, ◌+◌, ◌*◌, ◌/◌, ◌%◌, ◌^◌, ◌<◌, bit_and, bit_or, ◌≡◌, arith}
use atof.Prelude.Bits.Masks.{bit_or_low, bit_and_bit}
use atof.Prelude.Words.{shl64}

module _ (a b : ℕ) (ha : a < 256) (hb : b < 256) where
  pub join_two : bit_or (shl64 a 8) b ≡ a * 256 + b
  join_two = omega (arith, bit_or_low 8 (shl64 a 8) b (omega arith) hb)

  module _ (c : ℕ) (hc : c < 256) where
    join_high : bit_or (shl64 a 16) (shl64 b 8) ≡ (a * 256 + b) * 256
    join_high = omega (arith, bit_or_low 16 (shl64 a 16) (shl64 b 8) (omega arith) (omega arith))

    pub join_three : bit_or (bit_or (shl64 a 16) (shl64 b 8)) c ≡ (a * 256 + b) * 256 + c
    join_three = rw join_high (bit_or_low 8 _ c (omega arith) hc)

    module _ (d : ℕ) (hd : d < 256) where
      pub join_four :
          bit_or (bit_or (bit_or (shl64 a 24) (shl64 b 16)) (shl64 c 8)) d
          ≡ ((a * 256 + b) * 256 + c) * 256 + d
      join_four =
          rw
            (
              bit_or_low 24 (shl64 a 24) (shl64 b 16) (omega arith) (omega arith),
              bit_or_low 16 (shl64 a 24 + shl64 b 16) (shl64 c 8) (omega arith) (omega arith),
              bit_or_low 8 (shl64 a 24 + shl64 b 16 + shl64 c 8) d (omega arith) hd,
            )
            (omega arith)

-- The nine-byte form: the eight bytes behind the first, highest first.
pub join_eight :
    (b1 b2 b3 b4 b5 b6 b7 b8 : ℕ)
    → b1 < 256
    → b2 < 256
    → b3 < 256
    → b4 < 256
    → b5 < 256
    → b6 < 256
    → b7 < 256
    → b8 < 256
    → bit_or
        (bit_or
          (bit_or
            (bit_or
              (bit_or (bit_or (bit_or (shl64 b1 56) (shl64 b2 48)) (shl64 b3 40)) (shl64 b4 32))
              (shl64 b5 24))
            (shl64 b6 16))
          (shl64 b7 8))
        b8
      ≡ ((((((b1 * 256 + b2) * 256 + b3) * 256 + b4) * 256 + b5) * 256 + b6) * 256 + b7) * 256 + b8
join_eight b1 b2 b3 b4 b5 b6 b7 b8 h1 h2 h3 h4 h5 h6 h7 h8 =
    let s1 = b1 * 2 ^ 56 in
    let s2 = s1 + b2 * 2 ^ 48 in
    let s3 = s2 + b3 * 2 ^ 40 in
    let s4 = s3 + b4 * 2 ^ 32 in
    let s5 = s4 + b5 * 2 ^ 24 in
    let s6 = s5 + b6 * 2 ^ 16 in
    let s7 = s6 + b7 * 2 ^ 8 in
    let e1 : shl64 b1 56 ≡ s1 = omega arith in
    let e2 : shl64 b2 48 ≡ b2 * 2 ^ 48 = omega arith in
    let e3 : shl64 b3 40 ≡ b3 * 2 ^ 40 = omega arith in
    let e4 : shl64 b4 32 ≡ b4 * 2 ^ 32 = omega arith in
    let e5 : shl64 b5 24 ≡ b5 * 2 ^ 24 = omega arith in
    let e6 : shl64 b6 16 ≡ b6 * 2 ^ 16 = omega arith in
    let e7 : shl64 b7 8 ≡ b7 * 2 ^ 8 = omega arith in
    rw (e1, e2, e3, e4, e5, e6, e7)
      (rw
        (
          bit_or_low 56 s1 (b2 * 2 ^ 48) (omega arith) (omega arith),
          bit_or_low 48 s2 (b3 * 2 ^ 40) (omega arith) (omega arith),
          bit_or_low 40 s3 (b4 * 2 ^ 32) (omega arith) (omega arith),
          bit_or_low 32 s4 (b5 * 2 ^ 24) (omega arith) (omega arith),
          bit_or_low 24 s5 (b6 * 2 ^ 16) (omega arith) (omega arith),
          bit_or_low 16 s6 (b7 * 2 ^ 8) (omega arith) (omega arith),
          bit_or_low 8 s7 b8 (omega arith) h8,
        )
        (omega arith))

-- Single bits of the first byte.
module _ (b : ℕ) (h : b < 256) where
  pub bit_seven : bit_and b 0x80 ≡ b / 128 * 128
  bit_seven = omega (arith, bit_and_bit 7 b)

pub bit_six : (b : ℕ) → bit_and b 0x40 ≡ b / 64 % 2 * 64
bit_six = bit_and_bit 6

pub bit_five : (b : ℕ) → bit_and b 0x20 ≡ b / 32 % 2 * 32
bit_five = bit_and_bit 5

pub bit_four : (b : ℕ) → bit_and b 0x10 ≡ b / 16 % 2 * 16
bit_four = bit_and_bit 4

pub bit_two : (b : ℕ) → bit_and b 0x04 ≡ b / 4 % 2 * 4
bit_two = bit_and_bit 2
