-- ===== src/Varint/Tests.antt =====
-- Runs of the varint code on concrete bytes.
use atof.Prelude.{◌-◌, ◌^◌, ◌≡◌, refl, [], ◌∷◌, ◌++◌, arith, ok, err, unexpected_eof}
use atof.Varint.{read_varint, read_after, write_sized, write_varint}
use atof.Varint.RoundTrip.{read_varint-write_varint}

write_minus_five : write_varint (2 ^ 64 - 5) ≡ 0xf8 ∷ 4 ∷ []
unfolding write_varint write_sized
write_minus_five = refl

read_minus_five : read_varint (0xf8 ∷ 4 ∷ 9 ∷ []) ≡ ok (2 ^ 64 - 5, 9 ∷ [])
unfolding read_varint read_after
read_minus_five = refl

read_cut : read_varint (0xc0 ∷ 1 ∷ []) ≡ err unexpected_eof
unfolding read_varint read_after
read_cut = refl

read_varint-write_varint_example :
    read_varint (write_varint (2 ^ 64 - 5) ++ 9 ∷ []) ≡ ok (2 ^ 64 - 5, 9 ∷ [])
read_varint-write_varint_example = read_varint-write_varint (2 ^ 64 - 5) (9 ∷ []) (omega arith)
