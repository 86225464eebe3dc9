-- ===== src/Control/Raw.antt =====
-- `RawControlPacket` and `RawControlCodec` of control.rs: an id, a length and the message bytes.
-- `decode` returns its result, `none` if it panics, and the buffer as it leaves it; `encode` returns the buffer it wrote to.
use atof.Prelude.{
  ℕ, ◌+◌, List, ◌++◌, Option, none, some, ltb, leb, if◌then◌else◌, length, take, drop, can_split,
  Result, IoError, ok, err, other_error,
}
use atof.Prelude.Words.{u32, to_be_bytes, from_be_bytes}

pub record RawControlPacket : Type 0 where
  pub id : ℕ
  pub bytes : List ℕ

abbrev pub max_len : ℕ
max_len = 0x7f_ffff

-- `split_to` and `advance`, for a frame of `len` bytes.
abbrev pub split_off : ℕ → ℕ → List ℕ → Option (Result IoError (Option RawControlPacket)) × List ℕ
split_off id len buf =
    if can_split (6 + len) buf
    then (
      some (ok (some (record { id = id; bytes = drop 6 (take (6 + len) buf) }))),
      drop (6 + len) buf,
    )
    else (none, buf)

-- `decode` once the buffer holds a header, which gives `id` and `len`.
abbrev pub split_frame : ℕ → ℕ → List ℕ → Option (Result IoError (Option RawControlPacket)) × List ℕ
split_frame id len buf =
    if ltb max_len len
    then (some (err other_error), buf)
    else if leb (6 + len) (length buf)
    then split_off id len buf
    else (some (ok none), buf)

unfoldable pub raw_decode : List ℕ → Option (Result IoError (Option RawControlPacket)) × List ℕ
raw_decode buf =
    if leb 6 (length buf)
    then (if can_split 6 buf
        then split_frame (from_be_bytes (take 2 buf)) (from_be_bytes (take 4 (drop 2 buf))) buf
        else (none, buf))
    else (some (ok none), buf)

unfoldable pub raw_encode : RawControlPacket → List ℕ → List ℕ
raw_encode item dst =
    dst ++ (to_be_bytes 2 item.id ++ (to_be_bytes 4 (u32 (length item.bytes)) ++ item.bytes))
