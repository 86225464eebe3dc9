-- ===== src/Prelude/Bits/Masks.antt =====
-- Masks and disjoint fields as remainders and sums.
use Prim.Native.Nat.{ℕ, zero, suc, ◌+◌, ◌-◌, ◌*◌, ◌/◌, ◌%◌, ◌^◌, ◌≤◌, ◌<◌, bit_and, bit_or}
use Prim.Native.Nat.{bit_or-bitwise}
use mathlib.Core.Path.{◌≡◌}
use native.Mathlib.Nat.{pow-suc, one-le-pow}
use native.Mathlib.Omega.{arith}
use atof.Prelude.Bits.Digits.{bit_and_step, bit_or_step, bit_and_fields, bit_or_fields}

half_bit_and-zero : (n a : ℕ) → a ≤ n → bit_and a 0 ≡ 0
half_bit_and-zero zero a h = let e : a ≡ 0 = omega arith in rw e
half_bit_and-zero (suc n) a h =
    omega (arith, bit_and_step a 0, half_bit_and-zero n (a / 2) (omega arith))

pub bit_and-zero : (a : ℕ) → bit_and a 0 ≡ 0
bit_and-zero a = half_bit_and-zero a a (omega arith)

half_bit_or-zero : (n a : ℕ) → a ≤ n → bit_or a 0 ≡ a
half_bit_or-zero zero a h = let e : a ≡ 0 = omega arith in rw e
half_bit_or-zero (suc n) a h =
    omega (arith, bit_or_step a 0, half_bit_or-zero n (a / 2) (omega arith))

pub bit_or-zero : (a : ℕ) → bit_or a 0 ≡ a
bit_or-zero a = half_bit_or-zero a a (omega arith)

pub zero-bit_or : (a : ℕ) → bit_or 0 a ≡ a
zero-bit_or a = bit_or-bitwise 0 a

-- Fields that do not overlap are joined by addition.
pub bit_or_disjoint : (k q r : ℕ) → r < 2 ^ k → bit_or (q * 2 ^ k) r ≡ q * 2 ^ k + r
bit_or_disjoint k q r h =
    ground (arith, bit_or_fields k q 0 0 r, one-le-pow k 2, bit_or-zero q, zero-bit_or r)

-- A mask of `k` ones keeps the low `k` bits.
bit_and_ones_below : (k r : ℕ) → r < 2 ^ k → bit_and r (2 ^ k - 1) ≡ r
bit_and_ones_below zero r h = let e : r ≡ 0 = omega arith in rw e
bit_and_ones_below (suc k) r h = ground (
  arith,
  bit_and_step r (2 ^ suc k - 1),
  pow-suc 2 k,
  one-le-pow k 2,
  bit_and_ones_below k (r / 2),
)

pub bit_and_ones : (k a : ℕ) → bit_and a (2 ^ k - 1) ≡ a % 2 ^ k
bit_and_ones k a = ground (
  arith,
  one-le-pow k 2,
  bit_and_fields k (a / 2 ^ k) (a % 2 ^ k) 0 (2 ^ k - 1),
  bit_and-zero (a / 2 ^ k),
  bit_and_ones_below k (a % 2 ^ k),
)

-- A mask above bit `k` reads the bits above `k` only.
pub bit_and_above : (k a m : ℕ) → bit_and a (m * 2 ^ k) ≡ bit_and (a / 2 ^ k) m * 2 ^ k
bit_and_above k a m =
    ground (
      arith,
      one-le-pow k 2,
      bit_and_fields k (a / 2 ^ k) (a % 2 ^ k) m 0,
      bit_and-zero (a % 2 ^ k),
    )

-- The masks of the first byte of a varint and of a voice header.
pub byte_top_six : (b : ℕ) → b < 256 → bit_and b 0xfc ≡ b / 4 * 4
byte_top_six b h = omega (arith, bit_and_above 2 b 63, bit_and_ones 6 (b / 4))

pub byte_low_two : (b : ℕ) → bit_and b 0x03 ≡ b % 4
byte_low_two = bit_and_ones 2

pub byte_low_four : (b : ℕ) → bit_and b 0x0f ≡ b % 16
byte_low_four = bit_and_ones 4

pub byte_low_five : (b : ℕ) → bit_and b 0x1f ≡ b % 32
byte_low_five = bit_and_ones 5

pub byte_low_six : (b : ℕ) → bit_and b 0x3f ≡ b % 64
byte_low_six = bit_and_ones 6

pub byte_low_seven : (b : ℕ) → bit_and b 0x7f ≡ b % 128
byte_low_seven = bit_and_ones 7

-- One bit of a number.
pub bit_and_bit : (k a : ℕ) → bit_and a (1 * 2 ^ k) ≡ a / 2 ^ k % 2 * 2 ^ k
bit_and_bit k a = ground (arith, bit_and_above k a 1, bit_and_ones 1 (a / 2 ^ k))

-- `|` with a number whose low `k` bits are zero is a sum.
pub bit_or_low : (k x r : ℕ) → x % 2 ^ k ≡ 0 → r < 2 ^ k → bit_or x r ≡ x + r
bit_or_low k x r zero_low h = ground (arith, bit_or_disjoint k (x / 2 ^ k) r, one-le-pow k 2)
