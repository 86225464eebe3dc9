-- ===== src/Crypt/Cipher.antt =====
-- The cipher of crypt.rs: `aes_encrypt`, `aes_decrypt`, `s2`, `ocb_encrypt` and `ocb_decrypt`.
-- `none` is a panic: the assertion on the length of the last block, or a split beyond the end. The loops run on fuel, and stop
-- at that assertion if they run out of it.
use atof.Prelude.{
  ℕ, zero, suc, ◌+◌, ◌-◌, ◌*◌, ◌/◌, ◌%◌, ◌^◌, bit_and, bit_xor, ◌≡◌, List, ◌++◌, Option, none, some,
  ltb, leb, if◌then◌else◌, length, take, drop, can_split, replicate,
}
use atof.Prelude.Words.{IsBytes, to_be_bytes, from_be_bytes, to_le_bytes}

abbrev pub block_size : ℕ
block_size = 16

abbrev pub IsBlock : List ℕ → Type 0
IsBlock bytes = (length bytes ≡ block_size) × IsBytes bytes

-- OpenSSL's AES-128 in ECB mode on one block, without padding: what it writes for a key and a
-- block. Decryption undoes encryption, and both give a block.
pub record Aes : Type 0 where
  pub encrypt_block : (key block : List ℕ) → List ℕ
  pub decrypt_block : (key block : List ℕ) → List ℕ
  pub encrypt-IsBlock : (key block : List ℕ) → IsBlock block → IsBlock (encrypt_block key block)
  pub decrypt-encrypt :
      (key block : List ℕ) → IsBlock block → decrypt_block key (encrypt_block key block) ≡ block

-- `rotate_left(1)` on a `u128`.
abbrev pub rotate_left_one : ℕ → ℕ
rotate_left_one block = block * 2 % 2 ^ 128 + block / 2 ^ 127

unfoldable pub s2 : ℕ → ℕ
s2 block =
    let rot = rotate_left_one block in let carry = bit_and rot 1 in bit_xor rot (carry * 0x86)

-- `to_be` on a little-endian machine: the bytes in reverse order.
unfoldable pub to_be : ℕ → ℕ
to_be nonce = from_be_bytes (to_le_bytes 16 nonce)

module _ (aes : Aes) (key : List ℕ) where
  unfoldable pub aes_encrypt : ℕ → ℕ
  aes_encrypt block =
      from_be_bytes (take block_size (aes.encrypt_block key (to_be_bytes block_size block)))

  unfoldable pub aes_decrypt : ℕ → ℕ
  aes_decrypt block =
      from_be_bytes (take block_size (aes.decrypt_block key (to_be_bytes block_size block)))

  -- The end of both functions: the tag, from the last offset and the checksum.
  abbrev pub tag_of : ℕ → ℕ → ℕ
  tag_of offset checksum = aes_encrypt (bit_xor (bit_xor offset (s2 offset)) checksum)

  -- The last block, of `length buf` bytes, after the loop of `ocb_encrypt`.
  unfoldable pub encrypt_last : ℕ → ℕ → List ℕ → Option (ℕ × List ℕ)
  encrypt_last offset0 checksum buf =
      let offset = s2 offset0 in
      let len = length buf in
      let pad = aes_encrypt (bit_xor (len * 8) offset) in
      let block = buf ++ drop len (to_be_bytes block_size pad) in
      let plain = from_be_bytes block in
      let encrypted = bit_xor pad plain in
      if leb len block_size
      then some
          (tag_of offset (bit_xor checksum plain), take len (to_be_bytes block_size encrypted))
      else none

  -- The bytes of one block in front of what the loop makes of the rest.
  abbrev pub put_chunk : ℕ → Option (ℕ × List ℕ) → Option (ℕ × List ℕ)
  put_chunk chunk none = none
  put_chunk chunk (some (tag, out)) = some (tag, to_be_bytes block_size chunk ++ out)

  unfoldable pub encrypt_blocks : ℕ → ℕ → ℕ → List ℕ → Option (ℕ × List ℕ)
  encrypt_blocks zero offset0 checksum buf = encrypt_last offset0 checksum buf
  encrypt_blocks (suc fuel) offset0 checksum buf =
      let offset = s2 offset0 in
      let plain = from_be_bytes (take block_size buf) in
      let encrypted = bit_xor (aes_encrypt (bit_xor offset plain)) offset in
      let rest = encrypt_blocks fuel offset (bit_xor checksum plain) (drop block_size buf) in
      if ltb block_size (length buf)
      then (if can_split block_size buf then put_chunk encrypted rest else none)
      else encrypt_last offset0 checksum buf

  unfoldable pub ocb_encrypt : ℕ → List ℕ → Option (ℕ × List ℕ)
  ocb_encrypt nonce buf = encrypt_blocks (length buf) (aes_encrypt (to_be nonce)) 0 buf

  -- The last block of `ocb_decrypt` is filled up with zeros.
  unfoldable pub decrypt_last : ℕ → ℕ → List ℕ → Option (ℕ × List ℕ)
  decrypt_last offset0 checksum buf =
      let offset = s2 offset0 in
      let len = length buf in
      let pad = aes_encrypt (bit_xor (len * 8) offset) in
      let block = buf ++ replicate (block_size - len) 0 in
      let plain = bit_xor (from_be_bytes block) pad in
      if leb len block_size
      then some (tag_of offset (bit_xor checksum plain), take len (to_be_bytes block_size plain))
      else none

  unfoldable pub decrypt_blocks : ℕ → ℕ → ℕ → List ℕ → Option (ℕ × List ℕ)
  decrypt_blocks zero offset0 checksum buf = decrypt_last offset0 checksum buf
  decrypt_blocks (suc fuel) offset0 checksum buf =
      let offset = s2 offset0 in
      let encrypted = from_be_bytes (take block_size buf) in
      let plain = bit_xor (aes_decrypt (bit_xor offset encrypted)) offset in
      let rest = decrypt_blocks fuel offset (bit_xor checksum plain) (drop block_size buf) in
      if ltb block_size (length buf)
      then (if can_split block_size buf then put_chunk plain rest else none)
      else decrypt_last offset0 checksum buf

  unfoldable pub ocb_decrypt : ℕ → List ℕ → Option (ℕ × List ℕ)
  ocb_decrypt nonce buf = decrypt_blocks (length buf) (aes_encrypt (to_be nonce)) 0 buf
