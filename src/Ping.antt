-- ===== src/Ping.antt =====
-- mumble-protocol/src/ping.rs: the UDP ping and pong packets and their fixed-size byte forms.
-- A `u8` slice or array is a list of bytes; an index range `[a..b]` is `slice a b`.
pub mod RoundTrip
mod Tests
use atof.Prelude.{
  ℕ, ◌-◌, List, [], ◌∷◌, ◌++◌, Bool, true, false, ◌&&◌, ◌==◌, if◌then◌else◌, length, take, drop,
  Result, ok, err,
}
use atof.Prelude.Words.{to_be_bytes, from_be_bytes}

pub record PingPacket : Type 0 where
  pub id : ℕ

pub record PongPacket : Type 0 where
  pub id : ℕ
  pub version : ℕ
  pub users : ℕ
  pub max_users : ℕ
  pub bandwidth : ℕ

pub data ParsePingError : Type 0 where
  invalid_size invalid_header : ParsePingError

pub data ParsePongError : Type 0 where
  invalid_size : ParsePongError

abbrev pub slice : ℕ → ℕ → List ℕ → List ℕ
slice a b bytes = take (b - a) (drop a bytes)

-- `==` on slices.
abbrev pub bytes_eq : List ℕ → List ℕ → Bool
bytes_eq [] [] = true
bytes_eq [] (y ∷ ys) = false
bytes_eq (x ∷ xs) [] = false
bytes_eq (x ∷ xs) (y ∷ ys) = x == y && bytes_eq xs ys

-- `TryFrom<&[u8]> for PingPacket`
pub ping_try_from : List ℕ → Result ParsePingError PingPacket
ping_try_from buf =
    if length buf == 12
    then if bytes_eq (slice 0 4 buf) (0 ∷ 0 ∷ 0 ∷ 0 ∷ [])
      then ok (record { id = from_be_bytes (slice 4 12 buf) })
      else err ParsePingError.invalid_header
    else err ParsePingError.invalid_size

-- `From<PingPacket> for [u8; 12]`
pub ping_to_bytes : PingPacket → List ℕ
ping_to_bytes packet = 0 ∷ 0 ∷ 0 ∷ 0 ∷ to_be_bytes 8 packet.id

-- `TryFrom<&[u8]> for PongPacket`
pub pong_try_from : List ℕ → Result ParsePongError PongPacket
pong_try_from buf =
    if length buf == 24
    then ok (record {
      version = from_be_bytes (slice 0 4 buf);
      id = from_be_bytes (slice 4 12 buf);
      users = from_be_bytes (slice 12 16 buf);
      max_users = from_be_bytes (slice 16 20 buf);
      bandwidth = from_be_bytes (slice 20 24 buf);
    })
    else err ParsePongError.invalid_size

-- `From<PongPacket> for [u8; 24]`
pub pong_to_bytes : PongPacket → List ℕ
pong_to_bytes packet =
    to_be_bytes 4 packet.version
    ++ (to_be_bytes 8 packet.id
        ++ (to_be_bytes 4 packet.users
            ++ (to_be_bytes 4 packet.max_users ++ to_be_bytes 4 packet.bandwidth)))
