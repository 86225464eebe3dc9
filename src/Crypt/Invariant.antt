-- ===== src/Crypt/Invariant.antt =====
-- mumble-protocol/src/crypt.rs: when a state fits its types.
use atof.Prelude.{◌≡◌, length}
use atof.Prelude.Words.{IsU32, IsU128}
use atof.Crypt.State.{CryptState}

-- The history has its 256 entries, and the nonce and the counters fit their types.
pub record WellFormed (s : CryptState) : Type 0 where
  pub history : length s.decrypt_history ≡ 256
  pub nonce : IsU128 s.decrypt_nonce
  pub good : IsU32 s.good
  pub late : IsU32 s.late
  pub lost : IsU32 s.lost
