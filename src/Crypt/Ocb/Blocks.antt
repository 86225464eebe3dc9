-- ===== src/Crypt/Ocb/Blocks.antt =====
-- One block: the doubling of the offset, the range and the inverse of the primitives, and the
-- padding of the last block.
use atof.Prelude.{
  ℕ, zero, suc, ◌+◌, ◌*◌, ◌/◌, ◌%◌, ◌^◌, ◌<◌, bit_and, bit_xor, ◌≡◌, refl, ap, subst, ap₂, ◌∙◌,
  List, [], ◌∷◌, ◌++◌, arith, length, take, drop, replicate, take_all,
}
use atof.Prelude.Bits.Masks.{bit_and_ones}
use atof.Prelude.Bits.Xor.{bit_xor_lt, bit_xor_comm, bit_xor_cancel, bit_xor_digit, zero-bit_xor}
use atof.Prelude.Words.{
  IsU128, to_be_bytes, from_be_bytes, from_be-to_be, to_be-from_be, length-to_be, to_be-IsBytes,
  from_be-lt, xor_bytes,
}
use atof.Crypt.Cipher.{block_size, IsBlock, Aes, rotate_left_one, s2, aes_encrypt, aes_decrypt}

-- The bit that is rotated out comes back at the low end.
rotate_low :
    (b : ℕ)
    → IsU128 b
    → (rotate_left_one b / 2 ≡ b % 2 ^ 127) × (rotate_left_one b % 2 ≡ b / 2 ^ 127)
rotate_low b h = omega arith

carry_low : (b : ℕ) → IsU128 b → bit_and (rotate_left_one b) 1 ≡ b / 2 ^ 127
carry_low b h = omega (arith, bit_and_ones 1 (rotate_left_one b), rotate_low b h)

-- `s2` doubles in the field of 2 ^ 128 elements: a shift, and 0x87 if a bit falls out.
pub s2_doubles : (b : ℕ) → IsU128 b → s2 b ≡ bit_xor (b * 2 % 2 ^ 128) (b / 2 ^ 127 * 0x87)
unfolding s2
s2_doubles b h =
    let c = b / 2 ^ 127 in
    let carry : bit_and (rotate_left_one b) 1 ≡ c = carry_low b h in
    let left : rotate_left_one b / 2 ≡ b * 2 % 2 ^ 128 / 2 = omega arith in
    let right : c * 0x86 / 2 ≡ c * 0x87 / 2 = omega arith in
    rw carry (
      bit_xor_digit (rotate_left_one b) (c * 0x86)
      ∙ rw (left, right) (omega (arith, bit_xor_digit (b * 2 % 2 ^ 128) (c * 0x87))))

pub s2-IsU128 : (b : ℕ) → IsU128 b → IsU128 (s2 b)
unfolding s2
s2-IsU128 b h = bit_xor_lt 128 _ _ (omega arith) (omega (arith, carry_low b h))

pub to_be_bytes-IsBlock : (v : ℕ) → IsBlock (to_be_bytes block_size v)
to_be_bytes-IsBlock v = (length-to_be 16 v, to_be-IsBytes 16 v)

pub from_be-IsU128 : (bytes : List ℕ) → IsBlock bytes → IsU128 (from_be_bytes bytes)
from_be-IsU128 bytes h = subst (λ (n : ℕ). from_be_bytes bytes < 256 ^ n) h.0 (from_be-lt bytes h.1)

module _ (aes : Aes) (key : List ℕ) where
  abbrev sealed : ℕ → List ℕ
  sealed block = aes.encrypt_block key (to_be_bytes block_size block)

  sealed-IsBlock : (block : ℕ) → IsBlock (sealed block)
  sealed-IsBlock block =
      aes.encrypt-IsBlock key (to_be_bytes block_size block) (to_be_bytes-IsBlock block)

  aes_encrypt-sealed : (block : ℕ) → aes_encrypt aes key block ≡ from_be_bytes (sealed block)
  unfolding aes_encrypt
  aes_encrypt-sealed block =
      ap from_be_bytes (take_all 16 (sealed block) (omega (arith, (sealed-IsBlock block).0)))

  pub aes_encrypt-IsU128 : (block : ℕ) → IsU128 (aes_encrypt aes key block)
  aes_encrypt-IsU128 block =
      rw (aes_encrypt-sealed block) (from_be-IsU128 (sealed block) (sealed-IsBlock block))

  decrypt_sealed :
      (block : ℕ)
      → aes.decrypt_block key (to_be_bytes block_size (from_be_bytes (sealed block)))
        ≡ to_be_bytes block_size block
  decrypt_sealed block =
      ap (aes.decrypt_block key)
        (to_be-from_be 16 (sealed block) (sealed-IsBlock block).0 (sealed-IsBlock block).1)
      ∙ aes.decrypt-encrypt key (to_be_bytes block_size block) (to_be_bytes-IsBlock block)

  pub aes_decrypt-encrypt :
      (block : ℕ) → IsU128 block → aes_decrypt aes key (aes_encrypt aes key block) ≡ block
  unfolding aes_decrypt
  aes_decrypt-encrypt block h = rw (aes_encrypt-sealed block) (
      ap (λ (bytes : List ℕ). from_be_bytes (take block_size bytes)) (decrypt_sealed block)
      ∙ from_be-to_be 16 block h)

-- Zeros masked with a block give the block.
xor_zeros : (n : ℕ) (pad : List ℕ) → length pad ≡ n → xor_bytes (replicate n 0) pad ≡ pad
xor_zeros zero [] h = refl
xor_zeros zero (p ∷ pad) h = absurd (omega arith)
xor_zeros (suc n) [] h = absurd (omega arith)
xor_zeros (suc n) (p ∷ pad) h = ap₂ ◌∷◌ (zero-bit_xor p) (xor_zeros n pad (omega arith))

-- The last block: masked, cut to its length, filled with zeros and masked again, it is what was
-- masked, and so are the bytes of the mask behind it.
pub unmask :
    (pad buf : List ℕ) (n : ℕ)
    → length buf + n ≡ length pad
    → xor_bytes
        (take (length buf) (xor_bytes pad (buf ++ drop (length buf) pad)) ++ replicate n 0)
        pad
      ≡ buf ++ drop (length buf) pad
unmask pad [] n h = xor_zeros n pad (omega arith)
unmask [] (b ∷ buf) n h = absurd (omega arith)
unmask (p ∷ pad) (b ∷ buf) n h =
    ap₂ ◌∷◌ (ap (λ (t : ℕ). bit_xor t p) (bit_xor_comm p b) ∙ bit_xor_cancel b p)
      (unmask pad buf n (omega arith))
