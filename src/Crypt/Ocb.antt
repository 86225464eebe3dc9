-- ===== src/Crypt/Ocb.antt =====
-- mumble-protocol/src/crypt.rs: `ocb_decrypt` on what `ocb_encrypt` wrote.
mod Blocks
mod Last
pub use Blocks.{s2_doubles}
use Blocks.{s2-IsU128, from_be-IsU128, aes_encrypt-IsU128, aes_decrypt-encrypt}
use Last.{masked, length-masked, masked-IsBytes, last_tag, encrypt_last-short, decrypt_last-masked}
use atof.Prelude.{
  ℕ, zero, suc, ◌≤◌, ◌<◌, bit_xor, ◌≡◌, refl, sym, ap, subst, ◌∙◌, List, ◌++◌, Option, some, arith,
  ltb, true, false, dec_lt, length, can_split, take, drop, length-take, length-drop, length-append,
  take-append-drop, take-append_eq, drop-append_eq, All-append, All-take, All-drop,
}
use atof.Prelude.Bits.Xor.{bit_xor_lt, bit_xor_comm, bit_xor_cancel}
use atof.Prelude.Words.{
  IsU128, IsByte, IsBytes, to_be_bytes, from_be_bytes, from_be-to_be, to_be-from_be, length-to_be,
  to_be-IsBytes,
}
use atof.Crypt.Cipher.{
  block_size, IsBlock, Aes, s2, to_be, aes_encrypt, aes_decrypt, encrypt_last, encrypt_blocks,
  ocb_encrypt, decrypt_last, decrypt_blocks, ocb_decrypt,
}

module _ (aes : Aes) (key : List ℕ) where
  -- Decryption of `sealed` gives `buf` and the tag that encryption gave.
  record Opens (offset checksum fuel : ℕ) (buf : List ℕ) (sealed : Option (ℕ × List ℕ))
      : Type 0 where
    tag : ℕ
    out : List ℕ
    done : sealed ≡ some (tag, out)
    size : length out ≡ length buf
    bytes : IsBytes out
    back : decrypt_blocks aes key fuel offset checksum out ≡ some (tag, buf)

  abbrev encrypted_block : ℕ → ℕ → ℕ
  encrypted_block offset plain = bit_xor (aes_encrypt aes key (bit_xor offset plain)) offset

  -- One whole block is opened by the offset that sealed it.
  module _ (offset plain : ℕ) (ho : IsU128 offset) (hp : IsU128 plain) where
    abbrev encrypted : ℕ
    encrypted = encrypted_block offset plain

    encrypted-IsU128 : IsU128 encrypted
    encrypted-IsU128 = bit_xor_lt 128 _ offset (aes_encrypt-IsU128 aes key _) ho

    decrypted : bit_xor (aes_decrypt aes key (bit_xor offset encrypted)) offset ≡ plain
    decrypted =
        ap (λ (t : ℕ). bit_xor (aes_decrypt aes key t) offset)
          (bit_xor_comm offset encrypted
            ∙ bit_xor_cancel (aes_encrypt aes key (bit_xor offset plain)) offset)
        ∙ ap (λ (t : ℕ). bit_xor t offset)
            (aes_decrypt-encrypt aes key (bit_xor offset plain) (bit_xor_lt 128 offset plain ho hp))
        ∙ ap (λ (t : ℕ). bit_xor t offset) (bit_xor_comm offset plain)
        ∙ bit_xor_cancel plain offset

  chunk_back :
      (fuel offset0 checksum plain tag : ℕ) (out rest : List ℕ)
      → IsU128 (s2 offset0)
      → IsU128 plain
      → 0 < length out
      → decrypt_blocks aes key fuel (s2 offset0) (bit_xor checksum plain) out ≡ some (tag, rest)
      → decrypt_blocks aes key
          (suc fuel)
          offset0
          checksum
          (to_be_bytes block_size (encrypted_block (s2 offset0) plain) ++ out)
        ≡ some (tag, to_be_bytes block_size plain ++ rest)
  unfolding decrypt_blocks
  chunk_back fuel offset0 checksum plain tag out rest ho hp h e =
      let chunk = to_be_bytes block_size (encrypted_block (s2 offset0) plain) in
      let size : length chunk ≡ block_size = length-to_be 16 (encrypted_block (s2 offset0) plain) in
      let longer : ltb block_size (length (chunk ++ out)) ≡ true =
        ground (arith, length-append chunk out) in
      let value : from_be_bytes (take block_size (chunk ++ out))
          ≡ encrypted_block (s2 offset0) plain =
        ap from_be_bytes (take-append_eq 16 chunk out size)
        ∙ from_be-to_be 16 (encrypted_block (s2 offset0) plain)
            (encrypted-IsU128 (s2 offset0) plain ho hp) in
      let splits : can_split block_size (chunk ++ out) ≡ true =
        ground (arith, length-append chunk out) in
      rw (
        longer,
        splits,
        value,
        drop-append_eq 16 chunk out size,
        decrypted (s2 offset0) plain ho hp,
        e,
      )

  -- The loops stop at once on a buffer of at most one block.
  short-Opens :
      (fuel offset0 checksum : ℕ) (buf : List ℕ)
      → IsBytes buf
      → length buf ≤ block_size
      → Opens offset0 checksum fuel buf (encrypt_blocks aes key fuel offset0 checksum buf)
  short-Opens fuel offset0 checksum buf h short = record {
    tag = last_tag aes key offset0 checksum buf h short;
    out = masked aes key offset0 checksum buf h short;
    done = stops fuel ∙ encrypt_last-short aes key offset0 checksum buf h short;
    size = length-masked aes key offset0 checksum buf h short;
    bytes = masked-IsBytes aes key offset0 checksum buf h short;
    back = stops_back fuel ∙ decrypt_last-masked aes key offset0 checksum buf h short;
  }
    where
      stops :
          (n : ℕ)
          → encrypt_blocks aes key n offset0 checksum buf
            ≡ encrypt_last aes key offset0 checksum buf
      stops zero = unfold encrypt_blocks in refl
      stops (suc n) =
          let last : ltb block_size (length buf) ≡ false = ground arith in
          unfold encrypt_blocks in rw last

      stops_back :
          (n : ℕ)
          → decrypt_blocks aes key n offset0 checksum (masked aes key offset0 checksum buf h short)
            ≡ decrypt_last aes key offset0 checksum (masked aes key offset0 checksum buf h short)
      stops_back zero = unfold decrypt_blocks in refl
      stops_back (suc n) =
          let last : ltb block_size (length (masked aes key offset0 checksum buf h short)) ≡ false =
            ground (arith, length-masked aes key offset0 checksum buf h short) in
          unfold decrypt_blocks in rw last

  module _ (fuel offset0 checksum : ℕ) (buf : List ℕ) (h : IsBytes buf) (ho : IsU128 offset0)
      (long : block_size < length buf) where
    abbrev first_plain : ℕ
    first_plain = from_be_bytes (take block_size buf)

    first-IsBlock : IsBlock (take block_size buf)
    first-IsBlock = (omega (arith, length-take 16 buf), All-take IsByte 16 buf h)

    long-Opens :
        Opens (s2 offset0) (bit_xor checksum first_plain) fuel (drop block_size buf) (
          encrypt_blocks aes key fuel
            (s2 offset0)
            (bit_xor checksum first_plain)
            (drop block_size buf))
        → Opens offset0 checksum
            (suc fuel)
            buf
            (encrypt_blocks aes key (suc fuel) offset0 checksum buf)
    long-Opens rest =
        let chunk = to_be_bytes block_size (encrypted_block (s2 offset0) first_plain) in
        let longer : ltb block_size (length buf) ≡ true = ground arith in
        let splits : can_split block_size buf ≡ true = ground arith in
        let chunk_size : length chunk ≡ block_size =
          length-to_be 16 (encrypted_block (s2 offset0) first_plain) in
        let rest_size = rest.size in
        record {
          tag = rest.tag;
          out = chunk ++ rest.out;
          done = unfold encrypt_blocks in rw (longer, splits, rest.done);
          size =
              omega
                (arith, length-append chunk rest.out, chunk_size, rest_size, length-drop 16 buf);
          bytes = All-append IsByte chunk rest.out (to_be-IsBytes 16 _) rest.bytes;
          back =
              chunk_back fuel offset0 checksum first_plain rest.tag rest.out (drop block_size buf)
                (s2-IsU128 offset0 ho) (from_be-IsU128 (take block_size buf) first-IsBlock)
                (omega (arith, rest_size, length-drop 16 buf)) rest.back
              ∙ ap (λ (t : List ℕ). some (rest.tag, t))
                  (ap (λ (t : List ℕ). t ++ drop block_size buf)
                      (to_be-from_be 16 (take block_size buf) first-IsBlock.0 first-IsBlock.1)
                    ∙ take-append-drop 16 buf);
        }

  -- Whatever its length, a buffer is sealed without a panic, into as many bytes, and opened again.
  encrypt_blocks-Opens :
      (fuel offset0 checksum : ℕ) (buf : List ℕ)
      → IsBytes buf
      → IsU128 offset0
      → length buf ≤ fuel
      → Opens offset0 checksum fuel buf (encrypt_blocks aes key fuel offset0 checksum buf)
  encrypt_blocks-Opens zero offset0 checksum buf h ho hf =
      short-Opens zero offset0 checksum buf h (omega arith)
  encrypt_blocks-Opens (suc fuel) offset0 checksum buf h ho hf =
      elim (dec_lt block_size (length buf)) [
        | yes long ↦ long-Opens fuel offset0 checksum buf h ho long (
            encrypt_blocks-Opens fuel (s2 offset0) _ (drop block_size buf)
              (All-drop IsByte 16 buf h) (s2-IsU128 offset0 ho) (omega (arith, length-drop 16 buf)))
        | no short ↦ short-Opens (suc fuel) offset0 checksum buf h (omega arith)
      ]

  -- For every buffer of bytes and every nonce `ocb_encrypt` returns a tag and as many bytes, and `ocb_decrypt` with
  -- the same nonce turns these into the buffer and the same tag.
  pub ocb_decrypt-ocb_encrypt :
      (nonce : ℕ) (buf : List ℕ)
      → IsBytes buf
      → (tag : ℕ) × (out : List ℕ) × (ocb_encrypt aes key nonce buf ≡ some (tag, out))
        × (length out ≡ length buf)
        × IsBytes out
        × (ocb_decrypt aes key nonce out ≡ some (tag, buf))
  ocb_decrypt-ocb_encrypt nonce buf h =
      let opened =
        encrypt_blocks-Opens (length buf) (aes_encrypt aes key (to_be nonce)) 0 buf h
          (aes_encrypt-IsU128 aes key (to_be nonce)) (omega arith) in
      (
        opened.tag,
        opened.out,
        unfold ocb_encrypt in opened.done,
        opened.size,
        opened.bytes,
        unfold ocb_decrypt in
            subst
              (λ (n : ℕ).
                decrypt_blocks aes key n (aes_encrypt aes key (to_be nonce)) 0 opened.out
                ≡ some (opened.tag, buf))
              (sym opened.size) opened.back,
      )
