-- ===== src/Varint.antt =====
-- mumble-protocol/src/varint.rs: Mumble's variable-length encoding of 64-bit numbers.
-- A reader is the list of bytes that it still holds; a writer is the list of bytes that it got, and
-- never fails, as `BufMut::writer` does not.
pub mod Encoding
pub mod RoundTrip
pub mod Reading
mod Tests
use mathlib.Core.WellFounded.{Acc}
use atof.Prelude.{
  ℕ, ◌-◌, ◌+◌, ◌*◌, ◌/◌, ◌%◌, ◌^◌, ◌≤◌, ◌<◌, bit_and, bit_or, ◌≡◌, List, [], ◌∷◌, ◌++◌, arith, ltb,
  ◌==◌, if◌then◌else◌, dite, ℕ_discrete, lt_wf, Result, ok, err, IoError, unexpected_eof, Reader,
  pure, read_u8, ◌>>=◌,
}
use atof.Prelude.Bits.Masks.{bit_and_bit}
use atof.Prelude.Words.{u8, not64, shl64, shr}

-- What `read_varint` does once the first byte is known to start no complement.
unfoldable pub read_after : ℕ → Reader ℕ
read_after b0 = if bit_and b0 0x80 == 0 then pure (bit_and b0 0x7f) else do
  b1 ← read_u8
  if bit_and b0 0x40 == 0 then pure (bit_or (shl64 (bit_and b0 0x3f) 8) b1) else do
    b2 ← read_u8
    if bit_and b0 0x20 == 0
        then pure (bit_or (bit_or (shl64 (bit_and b0 0x1f) 16) (shl64 b1 8)) b2)
        else do
          b3 ← read_u8
          if bit_and b0 0x10 == 0
              then pure (
                  bit_or (bit_or (bit_or (shl64 (bit_and b0 0x0f) 24) (shl64 b1 16)) (shl64 b2 8))
                    b3)
              else do
                b4 ← read_u8
                if bit_and b0 0x04 == 0
                    then pure (bit_or (bit_or (bit_or (shl64 b1 24) (shl64 b2 16)) (shl64 b3 8)) b4)
                    else do
                      b5 ← read_u8
                      b6 ← read_u8
                      b7 ← read_u8
                      b8 ← read_u8
                      pure (
                          bit_or
                            (bit_or
                              (bit_or
                                (bit_or
                                  (bit_or
                                    (bit_or (bit_or (shl64 b1 56) (shl64 b2 48)) (shl64 b3 40))
                                    (shl64 b4 32))
                                  (shl64 b5 24))
                                (shl64 b6 16))
                              (shl64 b7 8))
                            b8)

-- `Ok(!self.read_varint()?)`
abbrev pub complement : Result IoError (ℕ × List ℕ) → Result IoError (ℕ × List ℕ)
complement (ok (v, rest)) = ok (not64 v, rest)
complement (err e) = err e

unfoldable pub read_varint : Reader ℕ
read_varint [] = err unexpected_eof
read_varint (b0 ∷ bytes) =
    let inner = complement (read_varint bytes) in
    if bit_and b0 0xfc == 0xf8
    then inner
    else if bit_and b0 0xfc == 0xfc
    then ok (not64 (bit_and b0 0x03), bytes)
    else read_after b0 bytes

-- The forms of 1 to 5 and of 9 bytes, chosen by size.
unfoldable pub write_sized : ℕ → List ℕ
write_sized v =
    if ltb 0xffff_ffff v
    then 0xf4
      ∷ u8 (shr v 56)
      ∷ u8 (shr v 48)
      ∷ u8 (shr v 40)
      ∷ u8 (shr v 32)
      ∷ u8 (shr v 24)
      ∷ u8 (shr v 16)
      ∷ u8 (shr v 8)
      ∷ u8 v
      ∷ []
    else if ltb 0x0fff_ffff v
    then 0xf0 ∷ u8 (shr v 24) ∷ u8 (shr v 16) ∷ u8 (shr v 8) ∷ u8 v ∷ []
    else if ltb 0x001f_ffff v
    then bit_or 0xe0 (u8 (shr v 24)) ∷ u8 (shr v 16) ∷ u8 (shr v 8) ∷ u8 v ∷ []
    else if ltb 0x3fff v
    then bit_or 0xc0 (u8 (shr v 16)) ∷ u8 (shr v 8) ∷ u8 v ∷ []
    else if ltb 0x7f v
    then bit_or 0x80 (u8 (shr v 8)) ∷ u8 v ∷ []
    else u8 v ∷ []

-- With the top bit set the complement is smaller, so the recursion of `write_varint` ends.
pub not64-lt : (v : ℕ) → bit_and v (2 ^ 63) ≡ 2 ^ 63 → not64 v < v
not64-lt v top = omega (arith, bit_and_bit 63 v)

write_acc : (v : ℕ) → Acc ◌<◌ v → List ℕ
write_acc v (Acc.intro _ smaller) =
    dite (ℕ_discrete (bit_and v 0xffff_ffff_ffff_fffc) 0xffff_ffff_ffff_fffc)
      (λ _. bit_or 0xfc (u8 (not64 v)) ∷ [])
      (λ _.
        dite (ℕ_discrete (bit_and v 0x8000_0000_0000_0000) 0x8000_0000_0000_0000)
          (λ top. 0xf8 ∷ write_acc (not64 v) (smaller (not64 v) (not64-lt v top)))
          (λ _. write_sized v))

unfoldable pub write_varint : ℕ → List ℕ
unfolding write_acc lt_wf ℕ_discrete
write_varint v = write_acc v (lt_wf.apply v)

-- `BufMut::put_varint`: appends to the buffer.
unfoldable pub put_varint : List ℕ → ℕ → List ℕ
put_varint dst v = dst ++ write_varint v
