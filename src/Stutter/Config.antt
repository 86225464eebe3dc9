-- ===== src/Stutter/Config.antt =====
-- stutter/src/lib.rs: `StutterConfig::from_env`. A variable that is not set, or is not text, is `none`,
-- and a string is its bytes. The timeout is in seconds.
use atof.Prelude.{ℕ, List, [], ◌∷◌, Option, none, some, unwrap_or, parse_u64}

pub record StutterConfig : Type 0 where
  pub addr : List ℕ
  pub session_timeout : ℕ

-- "localhost:8792" and "30"
abbrev pub default_addr : List ℕ
default_addr = 108 ∷ 111 ∷ 99 ∷ 97 ∷ 108 ∷ 104 ∷ 111 ∷ 115 ∷ 116 ∷ 58 ∷ 56 ∷ 55 ∷ 57 ∷ 50 ∷ []

abbrev pub default_timeout : List ℕ
default_timeout = 51 ∷ 48 ∷ []

abbrev pub with_addr : List ℕ → Option ℕ → Option StutterConfig
with_addr addr none = none
with_addr addr (some secs) = some (record { addr = addr; session_timeout = secs })

-- The variables STUTTER_ADDR and STUTTER_SESSION_TIMEOUT_SECS. `none` is an error.
unfoldable pub from_env : (addr timeout : Option (List ℕ)) → Option StutterConfig
from_env addr timeout =
    with_addr (unwrap_or default_addr addr) (parse_u64 (unwrap_or default_timeout timeout))
