-- ===== src/Prelude/Bits.antt =====
-- Bit operations as arithmetic, at every width: `Digits` has the law for the lowest digit and the
-- law for numbers split at bit `k`, `Masks` reads masks as remainders, `Xor` has the laws of `^`.
mod Digits
pub mod Masks
pub mod Xor
pub use Digits.{
  bit_and_step, bit_or_step, bit_xor_step, bit_and_fields, bit_or_fields, bit_xor_fields,
}
