-- ===== src/Ping/Tests.antt =====
-- Runs of the ping packets, and their theorems at concrete bytes.
use atof.Prelude.{ℕ, ◌≡◌, refl, ◌↔◌, List, [], ◌∷◌, arith, ok, err, replicate, All-replicate}
use atof.Prelude.Words.{IsByte}
use atof.Ping.{PingPacket, PongPacket, ParsePingError, ping_try_from, pong_try_from, pong_to_bytes}
use atof.Ping.RoundTrip.{PongFits, pong_try_from_iff}

abbrev ping_bytes : List ℕ
ping_bytes = 0 ∷ 0 ∷ 0 ∷ 0 ∷ 0 ∷ 0 ∷ 0 ∷ 0 ∷ 0 ∷ 0 ∷ 1 ∷ 2 ∷ []

abbrev test_ping : PingPacket
test_ping = record { id = 258 }

parse_ping : ping_try_from ping_bytes ≡ ok test_ping
unfolding ping_try_from
parse_ping = refl

parse_bad_header : ping_try_from (replicate 12 1) ≡ err ParsePingError.invalid_header
unfolding ping_try_from
parse_bad_header = refl

abbrev test_pong : PongPacket
test_pong = record {
  id = 0x0101010101010101;
  version = 0x01010101;
  users = 0x01010101;
  max_users = 0x01010101;
  bandwidth = 0x01010101;
}

write_pong : pong_to_bytes test_pong ≡ replicate 24 1
unfolding pong_to_bytes
write_pong = refl

pong_try_from_iff_example :
    (pong_try_from (replicate 24 1) ≡ ok test_pong)
    ↔ ((pong_to_bytes test_pong ≡ replicate 24 1) × PongFits test_pong)
pong_try_from_iff_example =
    pong_try_from_iff (replicate 24 1) test_pong (All-replicate IsByte 24 1 (omega arith))
