-- ===== src/Stammer/Config.antt =====
-- stammer/src/lib.rs: `StammerConfig::from_env`. A variable that is not set, or is not text, is `none`,
-- and a string is its bytes. The timeout is in seconds.
use atof.Prelude.{
  ℕ, ◌≡◌, ◌↔◌, ◌⊎◌, sym, ap, ◌∙◌, inl, inr, List, [], ◌∷◌, Option, none, some, Option-cases,
  unwrap_or, parse_u64, Numeral, parse_u64_iff,
}

pub record StammerConfig : Type 0 where
  pub bind_addr : List ℕ
  pub session_timeout : ℕ

-- "localhost:8792" and "30"
abbrev pub default_addr : List ℕ
default_addr = 108 ∷ 111 ∷ 99 ∷ 97 ∷ 108 ∷ 104 ∷ 111 ∷ 115 ∷ 116 ∷ 58 ∷ 56 ∷ 55 ∷ 57 ∷ 50 ∷ []

abbrev pub default_timeout : List ℕ
default_timeout = 51 ∷ 48 ∷ []

abbrev pub with_addr : List ℕ → Option ℕ → Option StammerConfig
with_addr addr none = none
with_addr addr (some secs) = some (record { bind_addr = addr; session_timeout = secs })

-- The variables STAMMER_BIND_ADDR and STAMMER_SESSION_TIMEOUT_SECS. `none` is an error.
unfoldable pub from_env : (addr timeout : Option (List ℕ)) → Option StammerConfig
from_env addr timeout =
    with_addr (unwrap_or default_addr addr) (parse_u64 (unwrap_or default_timeout timeout))

-- `from_env` succeeds exactly if the timeout, or "30" in its place, is a decimal numeral of a `u64`,
-- which may have a plus sign in front; then the configuration has that number of seconds and the
-- address, or the default in its place.
pub from_env_iff :
    (addr timeout : Option (List ℕ)) (config : StammerConfig)
    → (from_env addr timeout ≡ some config) ↔ (
        (config.bind_addr ≡ unwrap_or default_addr addr)
        × (Numeral (unwrap_or default_timeout timeout) config.session_timeout
            ⊎ ((digits : List ℕ) × (unwrap_or default_timeout timeout ≡ 43 ∷ digits)
                × Numeral digits config.session_timeout)))
unfolding from_env
from_env_iff addr timeout config =
    let text = unwrap_or default_timeout timeout in
    let parses = parse_u64_iff config.session_timeout text in
    (
      λ e. elim (Option-cases (parse_u64 text)) [
        | inl bad ↦ let e' = rw bad at e in absurd cc
        | inr (secs, good) ↦
            let e' = rw good at e in
            let same : secs ≡ config.session_timeout = cc in (cc, parses.0 (good ∙ ap some same))
      ],
      λ (same, numeral).
          let good = parses.1 numeral in
          ap (with_addr (unwrap_or default_addr addr)) good
          ∙ ap
              (λ (a : List ℕ).
                some (record { bind_addr = a; session_timeout = config.session_timeout }))
              (sym same),
    )
