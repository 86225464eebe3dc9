-- ===== src/Crypt/Ocb/Last.antt =====
-- mumble-protocol/src/crypt.rs: the last block of both loops, of at most 16 bytes.
use atof.Crypt.Ocb.Blocks.{aes_encrypt-IsU128, from_be-IsU128, unmask}
use atof.Prelude.{
  ℕ, ◌-◌, ◌*◌, ◌≤◌, bit_xor, ◌≡◌, sym, ap, ◌∙◌, List, ◌++◌, some, arith, length, take, drop,
  replicate, length-take, length-drop, length-append, length-replicate, take-append_length,
  All-replicate, All-append, All-take, All-drop,
}
use atof.Prelude.Bits.Xor.{bit_xor_lt}
use atof.Prelude.Words.{
  IsByte, IsBytes, to_be_bytes, from_be_bytes, from_be-to_be, to_be-from_be, length-to_be,
  to_be-IsBytes, xor_bytes, to_be-xor,
}
use atof.Crypt.Cipher.{
  block_size, IsBlock, Aes, s2, aes_encrypt, tag_of, encrypt_last, decrypt_last,
}

module _ (aes : Aes) (key : List ℕ) where
  module _ (offset0 checksum : ℕ) (buf : List ℕ) (bytes : IsBytes buf)
      (short : length buf ≤ block_size) where
    abbrev pub pad : ℕ
    pad = aes_encrypt aes key (bit_xor (length buf * 8) (s2 offset0))

    abbrev pub padded : List ℕ
    padded = buf ++ drop (length buf) (to_be_bytes block_size pad)

    abbrev pub masked : List ℕ
    masked = take (length buf) (to_be_bytes block_size (bit_xor pad (from_be_bytes padded)))

    zeros : List ℕ
    zeros = replicate (block_size - length buf) 0

    length-pad : length (to_be_bytes block_size pad) ≡ block_size
    length-pad = length-to_be 16 pad

    padded-IsBlock : IsBlock padded
    padded-IsBlock = (
      omega (
        arith,
        length-pad,
        length-append buf (drop (length buf) (to_be_bytes block_size pad)),
        length-drop (length buf) (to_be_bytes block_size pad),
      ),
      All-append IsByte buf _ bytes
          (All-drop IsByte (length buf) (to_be_bytes block_size pad) (to_be-IsBytes 16 pad)),
    )

    pub length-masked : length masked ≡ length buf
    length-masked = omega (
      arith,
      length-take (length buf) (to_be_bytes block_size (bit_xor pad (from_be_bytes padded))),
      length-to_be 16 (bit_xor pad (from_be_bytes padded)),
    )

    pub masked-IsBytes : IsBytes masked
    masked-IsBytes =
        All-take IsByte (length buf) _ (to_be-IsBytes 16 (bit_xor pad (from_be_bytes padded)))

    filled-IsBlock : IsBlock (masked ++ zeros)
    unfolding zeros
    filled-IsBlock = (
      omega (
        arith,
        length-append masked (replicate (block_size - length buf) 0),
        length-masked,
        length-replicate {A = ℕ} (block_size - length buf) 0,
      ),
      All-append IsByte masked _ masked-IsBytes
          (All-replicate IsByte (block_size - length buf) 0 (omega arith)),
    )

    masked-xor : masked ≡ take (length buf) (xor_bytes (to_be_bytes block_size pad) padded)
    masked-xor = ap (take (length buf)) (
        to_be-xor 16 pad (from_be_bytes padded)
        ∙ ap (xor_bytes (to_be_bytes block_size pad))
            (to_be-from_be 16 padded padded-IsBlock.0 padded-IsBlock.1))

    unmasked_bytes : xor_bytes (masked ++ zeros) (to_be_bytes block_size pad) ≡ padded
    unfolding zeros
    unmasked_bytes =
        ap (λ (m : List ℕ). xor_bytes (m ++ zeros) (to_be_bytes block_size pad)) masked-xor
        ∙ unmask (to_be_bytes block_size pad) buf (block_size - length buf)
            (omega (arith, length-pad))

    -- The block that the decryption sees, unmasked, is the padded block.
    unmasked : bit_xor (from_be_bytes (masked ++ zeros)) pad ≡ from_be_bytes padded
    unmasked =
        sym (
          from_be-to_be 16 (bit_xor (from_be_bytes (masked ++ zeros)) pad) (
            bit_xor_lt 128 _ pad (from_be-IsU128 (masked ++ zeros) filled-IsBlock)
              (aes_encrypt-IsU128 aes key _)))
        ∙ ap from_be_bytes (
            to_be-xor 16 (from_be_bytes (masked ++ zeros)) pad
            ∙ ap (λ (t : List ℕ). xor_bytes t (to_be_bytes block_size pad))
                (to_be-from_be 16 (masked ++ zeros) filled-IsBlock.0 filled-IsBlock.1)
            ∙ unmasked_bytes)

    pub last_tag : ℕ
    last_tag = tag_of aes key (s2 offset0) (bit_xor checksum (from_be_bytes padded))

    pub encrypt_last-short : encrypt_last aes key offset0 checksum buf ≡ some (last_tag, masked)
    unfolding encrypt_last last_tag
    encrypt_last-short = ground arith

    back_bytes : take (length buf) (to_be_bytes block_size (from_be_bytes padded)) ≡ buf
    back_bytes =
        ap (take (length buf)) (to_be-from_be 16 padded padded-IsBlock.0 padded-IsBlock.1)
        ∙ take-append_length buf (drop (length buf) (to_be_bytes block_size pad))

    pub decrypt_last-masked : decrypt_last aes key offset0 checksum masked ≡ some (last_tag, buf)
    unfolding decrypt_last last_tag zeros
    decrypt_last-masked = rw (length-masked) (rw (unmasked, back_bytes) (ground arith))
