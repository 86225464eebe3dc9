-- ===== src/Varint/RoundTrip.antt =====
-- mumble-protocol/src/varint.rs: `read_varint` on what `write_varint` wrote.
mod Forms
use Forms.{read_varint-below, read_one, read_two, read_three, read_four, read_five, read_nine}
use mathlib.Core.WellFounded.{Acc}
use native.Mathlib.Nat.{ℕ_set}
use atof.Prelude.{
  [], ℕ, ◌+◌, ◌-◌, ◌*◌, ◌/◌, ◌%◌, ◌^◌, ◌≤◌, ◌<◌, bit_and, bit_or, ◌≡◌, ap, List, ◌∷◌, ◌++◌, arith,
  dif_pos, dif_neg, dec_lt, lt_wf, ◌∙◌, ℕ_discrete, ok,
}
use atof.Prelude.Bits.Masks.{
  bit_or_disjoint, bit_and_above, bit_and_ones, bit_and_bit, byte_top_six, byte_low_two,
}
use atof.Prelude.Words.{IsU64, u8, shr, not64}
use atof.Varint.{not64-lt, read_varint, write_sized, write_acc, write_varint}

-- `|` with a prefix that shares no bit.
prefix_two : (x : ℕ) → x < 64 → bit_or 0x80 x ≡ 0x80 + x
prefix_two x h = bit_or_disjoint 6 2 x h

prefix_three : (x : ℕ) → x < 32 → bit_or 0xc0 x ≡ 0xc0 + x
prefix_three x h = bit_or_disjoint 5 6 x h

prefix_four : (x : ℕ) → x < 16 → bit_or 0xe0 x ≡ 0xe0 + x
prefix_four x h = bit_or_disjoint 4 14 x h

module _ (v : ℕ) (rest : List ℕ) where
  sized_two :
      0x7f < v → v ≤ 0x3fff → read_varint (bit_or 0x80 (u8 (shr v 8)) ∷ u8 v ∷ rest) ≡ ok (v, rest)
  sized_two lo hi =
      rw
        (
          prefix_two (u8 (shr v 8)) (omega arith),
          read_varint-below (0x80 + u8 (shr v 8)) (u8 v ∷ rest) (omega arith),
          read_two (u8 (shr v 8)) (u8 v) rest (omega arith) (omega arith),
        )
        (ap (λ (t : ℕ). ok (t, rest)) (omega arith))

  sized_three :
      0x3fff < v
      → v ≤ 0x001f_ffff
      → read_varint (bit_or 0xc0 (u8 (shr v 16)) ∷ u8 (shr v 8) ∷ u8 v ∷ rest) ≡ ok (v, rest)
  sized_three lo hi =
      rw
        (
          prefix_three (u8 (shr v 16)) (omega arith),
          read_varint-below (0xc0 + u8 (shr v 16)) _ (omega arith),
          read_three (u8 (shr v 16)) (u8 (shr v 8)) (u8 v) rest (omega arith) (omega arith)
              (omega arith),
        )
        (ap (λ (t : ℕ). ok (t, rest)) (omega arith))

  sized_four :
      0x001f_ffff < v
      → v ≤ 0x0fff_ffff
      → read_varint (bit_or 0xe0 (u8 (shr v 24)) ∷ u8 (shr v 16) ∷ u8 (shr v 8) ∷ u8 v ∷ rest)
        ≡ ok (v, rest)
  sized_four lo hi =
      rw
        (
          prefix_four (u8 (shr v 24)) (omega arith),
          read_varint-below (0xe0 + u8 (shr v 24)) _ (omega arith),
          read_four (u8 (shr v 24)) (u8 (shr v 16)) (u8 (shr v 8)) (u8 v) rest (omega arith)
              (omega arith) (omega arith) (omega arith),
        )
        (ap (λ (t : ℕ). ok (t, rest)) (omega arith))

  sized_five :
      0x0fff_ffff < v
      → v ≤ 0xffff_ffff
      → read_varint (0xf0 ∷ u8 (shr v 24) ∷ u8 (shr v 16) ∷ u8 (shr v 8) ∷ u8 v ∷ rest)
        ≡ ok (v, rest)
  sized_five lo hi =
      rw
        (
          read_varint-below 0xf0 _ (omega arith),
          read_five (u8 (shr v 24)) (u8 (shr v 16)) (u8 (shr v 8)) (u8 v) rest (omega arith)
              (omega arith) (omega arith) (omega arith),
        )
        (ap (λ (t : ℕ). ok (t, rest)) (omega arith))

  sized_nine :
      0xffff_ffff < v
      → IsU64 v
      → read_varint (
          0xf4
          ∷ u8 (shr v 56)
          ∷ u8 (shr v 48)
          ∷ u8 (shr v 40)
          ∷ u8 (shr v 32)
          ∷ u8 (shr v 24)
          ∷ u8 (shr v 16)
          ∷ u8 (shr v 8)
          ∷ u8 v
          ∷ rest)
        ≡ ok (v, rest)
  sized_nine lo hi =
      rw
        (
          read_varint-below 0xf4 _ (omega arith),
          read_nine (u8 (shr v 56)) (u8 (shr v 48)) (u8 (shr v 40)) (u8 (shr v 32)) (u8 (shr v 24))
              (u8 (shr v 16)) (u8 (shr v 8)) (u8 v) rest (omega arith) (omega arith) (omega arith)
              (omega arith) (omega arith) (omega arith) (omega arith) (omega arith),
        )
        (ap (λ (t : ℕ). ok (t, rest)) (omega arith))

  sized_one : v ≤ 0x7f → read_varint (u8 v ∷ rest) ≡ ok (v, rest)
  sized_one h =
      rw (read_varint-below (u8 v) _ (omega arith), read_one (u8 v) rest (omega arith))
        (ap (λ (t : ℕ). ok (t, rest)) (omega arith))

  -- Every size that `write_sized` chooses is read back.
  read_varint-write_sized : IsU64 v → read_varint (write_sized v ++ rest) ≡ ok (v, rest)
  unfolding write_sized
  read_varint-write_sized h =
      ground (arith, sized_one, sized_two, sized_three, sized_four, sized_five, sized_nine)

-- Which form `write_varint` takes, by size.
top_mask : (v : ℕ) → bit_and v 0xffff_ffff_ffff_fffc ≡ v / 4 % 2 ^ 62 * 4
top_mask v = omega (arith, bit_and_above 2 v (2 ^ 62 - 1), bit_and_ones 62 (v / 4))

pub write_varint-small : (v : ℕ) → v < 2 ^ 63 → write_varint v ≡ write_sized v
unfolding write_varint
write_varint-small v h = ground (arith, top_mask v, bit_and_bit 63 v)

pub write_varint-last : (v : ℕ) → 2 ^ 64 - 4 ≤ v → IsU64 v → write_varint v ≡ (0xfc + not64 v) ∷ []
unfolding write_varint
write_varint-last v lo h =
    ground (arith, top_mask v, bit_or_disjoint 2 63 (u8 (not64 v)) (omega arith))

write_acc-small : (v : ℕ) (w : Acc ◌<◌ v) → v < 2 ^ 63 → write_acc v w ≡ write_sized v
unfolding write_acc
write_acc-small v (Acc.intro _ smaller) h = grind (arith, top_mask v, bit_and_bit 63 v)

write_acc-top :
    (v : ℕ) (w : Acc ◌<◌ v)
    → 2 ^ 63 ≤ v
    → v < 2 ^ 64 - 4
    → write_acc v w ≡ 0xf8 ∷ write_sized (not64 v)
unfolding write_acc
write_acc-top v (Acc.intro _ smaller) lo h =
    let top : bit_and v (2 ^ 63) ≡ 2 ^ 63 = omega (arith, bit_and_bit 63 v) in
    rw
      (
        dif_neg (ℕ_discrete (bit_and v 0xffff_ffff_ffff_fffc) 0xffff_ffff_ffff_fffc)
            (λ e. absurd (omega (arith, top_mask v))),
        dif_pos (ℕ_discrete (bit_and v 0x8000_0000_0000_0000) 0x8000_0000_0000_0000) (ℕ_set _ _)
            top,
      )
      (ap (◌∷◌ 0xf8) (write_acc-small (not64 v) (smaller (not64 v) (not64-lt v top)) (omega arith)))

pub write_varint-top :
    (v : ℕ) → 2 ^ 63 ≤ v → v < 2 ^ 64 - 4 → write_varint v ≡ 0xf8 ∷ write_sized (not64 v)
unfolding write_varint
write_varint-top v lo h = write_acc-top v (lt_wf.apply v) lo h

-- The complement forms: a first byte from 0xf8 on.
read_varint-inner :
    (bytes rest : List ℕ) (v : ℕ)
    → read_varint bytes ≡ ok (v, rest)
    → read_varint (0xf8 ∷ bytes) ≡ ok (not64 v, rest)
unfolding read_varint
read_varint-inner bytes rest v e = rw e

read_varint-last :
    (x : ℕ) (rest : List ℕ) → x < 4 → read_varint ((0xfc + x) ∷ rest) ≡ ok (not64 x, rest)
unfolding read_varint
read_varint-last x rest h =
    ground (arith, byte_top_six (0xfc + x) (omega arith), byte_low_two (0xfc + x))

-- `read_varint` reads back every `u64` that `write_varint` wrote, and leaves what follows it.
pub read_varint-write_varint :
    (v : ℕ) (rest : List ℕ) → IsU64 v → read_varint (write_varint v ++ rest) ≡ ok (v, rest)
read_varint-write_varint v rest h = elim (dec_lt v (2 ^ 63)) [
  | yes small ↦ rw (write_varint-small v small) (read_varint-write_sized v rest h)
  | no large ↦ elim (dec_lt v (2 ^ 64 - 4)) [
    | yes below ↦ rw (write_varint-top v (omega arith) below) (
        read_varint-inner _ rest (not64 v) (read_varint-write_sized (not64 v) rest (omega arith))
        ∙ ap (λ (t : ℕ). ok (t, rest)) (omega arith))
    | no top ↦
        rw (write_varint-last v (omega arith) h) (
          read_varint-last (not64 v) rest (omega arith)
          ∙ ap (λ (t : ℕ). ok (t, rest)) (omega arith))
  ]
]
