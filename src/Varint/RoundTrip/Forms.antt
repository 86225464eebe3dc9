-- ===== src/Varint/RoundTrip/Forms.antt =====
-- mumble-protocol/src/varint.rs: `read_varint` on each form, by its first byte.
use atof.Prelude.{ℕ, ◌+◌, ◌*◌, ◌<◌, ◌≡◌, List, ◌∷◌, arith, ok}
use atof.Prelude.Bits.Masks.{
  byte_top_six, byte_low_four, byte_low_five, byte_low_six, byte_low_seven,
}
use atof.Varint.{read_varint, read_after}
use atof.Varint.Encoding.{
  join_two, join_three, join_four, join_eight, bit_seven, bit_six, bit_five, bit_four,
}

-- A first byte below 0xf8 starts no complement.
pub read_varint-below :
    (b0 : ℕ) (bytes : List ℕ) → b0 < 0xf8 → read_varint (b0 ∷ bytes) ≡ read_after b0 bytes
unfolding read_varint
read_varint-below b0 bytes h = ground (arith, byte_top_six b0)

pub read_one : (b0 : ℕ) (rest : List ℕ) → b0 < 0x80 → read_after b0 rest ≡ ok (b0, rest)
unfolding read_after
read_one b0 rest h = ground (arith, bit_seven b0 (omega arith), byte_low_seven b0)

pub read_two :
    (hi b : ℕ) (rest : List ℕ)
    → hi < 64
    → b < 256
    → read_after (0x80 + hi) (b ∷ rest) ≡ ok (hi * 256 + b, rest)
unfolding read_after
read_two hi b rest h hb = ground (
  arith,
  bit_seven (0x80 + hi) (omega arith),
  bit_six (0x80 + hi),
  byte_low_six (0x80 + hi),
  join_two hi b (omega arith) hb,
)

pub read_three :
    (hi b c : ℕ) (rest : List ℕ)
    → hi < 32
    → b < 256
    → c < 256
    → read_after (0xc0 + hi) (b ∷ c ∷ rest) ≡ ok ((hi * 256 + b) * 256 + c, rest)
unfolding read_after
read_three hi b c rest h hb hc = ground (
  arith,
  bit_seven (0xc0 + hi) (omega arith),
  bit_six (0xc0 + hi),
  bit_five (0xc0 + hi),
  byte_low_five (0xc0 + hi),
  join_three hi b (omega arith) hb c hc,
)

pub read_four :
    (hi b c d : ℕ) (rest : List ℕ)
    → hi < 16
    → b < 256
    → c < 256
    → d < 256
    → read_after (0xe0 + hi) (b ∷ c ∷ d ∷ rest) ≡ ok (((hi * 256 + b) * 256 + c) * 256 + d, rest)
unfolding read_after
read_four hi b c d rest h hb hc hd = ground (
  arith,
  bit_seven (0xe0 + hi) (omega arith),
  bit_six (0xe0 + hi),
  bit_five (0xe0 + hi),
  bit_four (0xe0 + hi),
  byte_low_four (0xe0 + hi),
  join_four hi b (omega arith) hb c hc d hd,
)

pub read_five :
    (a b c d : ℕ) (rest : List ℕ)
    → a < 256
    → b < 256
    → c < 256
    → d < 256
    → read_after 0xf0 (a ∷ b ∷ c ∷ d ∷ rest) ≡ ok (((a * 256 + b) * 256 + c) * 256 + d, rest)
unfolding read_after
read_five a b c d rest ha hb hc hd = ground (arith, join_four a b ha hb c hc d hd)

pub read_nine :
    (b1 b2 b3 b4 b5 b6 b7 b8 : ℕ) (rest : List ℕ)
    → b1 < 256
    → b2 < 256
    → b3 < 256
    → b4 < 256
    → b5 < 256
    → b6 < 256
    → b7 < 256
    → b8 < 256
    → read_after 0xf4 (b1 ∷ b2 ∷ b3 ∷ b4 ∷ b5 ∷ b6 ∷ b7 ∷ b8 ∷ rest)
      ≡ ok (
        ((((((b1 * 256 + b2) * 256 + b3) * 256 + b4) * 256 + b5) * 256 + b6) * 256 + b7) * 256 + b8,
        rest,
      )
unfolding read_after
read_nine b1 b2 b3 b4 b5 b6 b7 b8 rest h1 h2 h3 h4 h5 h6 h7 h8 =
    rw (join_eight b1 b2 b3 b4 b5 b6 b7 b8 h1 h2 h3 h4 h5 h6 h7 h8)
