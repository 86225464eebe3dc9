-- ===== src/Prelude/Bits/Xor.antt =====
-- The laws of exclusive or.
use Prim.Native.Nat.{
  ℕ, zero, suc, ◌+◌, ◌*◌, ◌/◌, ◌%◌, ◌^◌, ◌≤◌, ◌<◌, bit_xor, bit_xor-bitwise, differ,
}
use mathlib.Core.Path.{◌≡◌}
use native.Mathlib.Nat.{pow-suc}
use native.Mathlib.Omega.{arith}
use atof.Prelude.Bits.Digits.{bit_xor_step, bit_xor_fields}

differ_digits : (x y : ℕ) → x < 2 → y < 2 → differ x y ≡ (x + y) % 2
differ_digits zero y hx hy = omega arith
differ_digits (suc zero) zero hx hy = omega arith
differ_digits (suc zero) (suc y) hx hy = omega arith
differ_digits (suc (suc x)) y hx hy = absurd (omega arith)

pub bit_xor_digit : (a b : ℕ) → bit_xor a b ≡ bit_xor (a / 2) (b / 2) * 2 + (a + b) % 2
bit_xor_digit a b =
    omega (arith, bit_xor_step a b, differ_digits (a % 2) (b % 2) (omega arith) (omega arith))

pub bit_xor_lt : (k a b : ℕ) → a < 2 ^ k → b < 2 ^ k → bit_xor a b < 2 ^ k
bit_xor_lt zero a b ha hb =
    let ea : a ≡ 0 = omega arith in let eb : b ≡ 0 = omega arith in rw (ea, eb) (omega arith)
bit_xor_lt (suc k) a b ha hb =
    ground (arith, bit_xor_digit a b, pow-suc 2 k, bit_xor_lt k (a / 2) (b / 2))

comm_upto : (n a b : ℕ) → a + b ≤ n → bit_xor a b ≡ bit_xor b a
comm_upto zero a b h = let ea : a ≡ 0 = omega arith in let eb : b ≡ 0 = omega arith in rw (ea, eb)
comm_upto (suc n) a b h =
    ground (arith, bit_xor_digit a b, bit_xor_digit b a, comm_upto n (a / 2) (b / 2))

pub bit_xor_comm : (a b : ℕ) → bit_xor a b ≡ bit_xor b a
bit_xor_comm a b = comm_upto (a + b) a b (omega arith)

cancel_upto : (n a b : ℕ) → a + b ≤ n → bit_xor (bit_xor a b) b ≡ a
cancel_upto zero a b h = let ea : a ≡ 0 = omega arith in let eb : b ≡ 0 = omega arith in rw (ea, eb)
cancel_upto (suc n) a b h =
    ground (arith, bit_xor_digit a b, bit_xor_digit (bit_xor a b) b, cancel_upto n (a / 2) (b / 2))

-- Applying the same mask twice gives the number back.
pub bit_xor_cancel : (a b : ℕ) → bit_xor (bit_xor a b) b ≡ a
bit_xor_cancel a b = cancel_upto (a + b) a b (omega arith)

pub bit_xor_cancel_left : (a b : ℕ) → bit_xor a (bit_xor a b) ≡ b
bit_xor_cancel_left a b = rw (bit_xor_comm a b, bit_xor_comm a (bit_xor b a)) (bit_xor_cancel b a)

-- The low byte and the rest.
pub bit_xor_byte :
    (a b : ℕ)
    → (bit_xor a b % 256 ≡ bit_xor (a % 256) (b % 256))
      × (bit_xor a b / 256 ≡ bit_xor (a / 256) (b / 256))
bit_xor_byte a b = ground (
  arith,
  bit_xor_fields 8 (a / 256) (a % 256) (b / 256) (b % 256),
  bit_xor_lt 8 (a % 256) (b % 256),
)

pub zero-bit_xor : (a : ℕ) → bit_xor 0 a ≡ a
zero-bit_xor a = bit_xor-bitwise 0 a
