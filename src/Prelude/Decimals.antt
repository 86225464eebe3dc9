-- ===== src/Prelude/Decimals.antt =====
-- `Option::unwrap_or` and `str::parse::<u64>` of the standard library, the latter on the bytes of a
-- string. `none` is an error.
use Prim.Native.Nat.{ℕ, ◌+◌, ◌-◌, ◌*◌, ◌^◌, ◌≤◌, ◌<◌}
use mathlib.Core.Path.{◌≡◌, refl, ap, subst}
use mathlib.Core.Logic.{◌≢◌, ◌↔◌, ◌⊎◌, inl, inr}
use mathlib.Core.Bool.{Bool, true, ◌&&◌}
use mathlib.Core.Option.{Option, none, some}
use mathlib.Core.List.{List, [], ◌∷◌}
use native.Mathlib.Omega.{arith}
use atof.Prelude.Tests.{ltb, leb, ltb-true, ◌==◌, ==_iff, if◌then◌else◌, Bool-cases}
use atof.Prelude.Lists.{All}

abbrev pub unwrap_or {ℓ} : {A : Type ℓ} → A → Option A → A
unwrap_or fallback none = fallback
unwrap_or fallback (some a) = a

abbrev is_digit : ℕ → Bool
is_digit c = leb 48 c && leb c 57

-- Each digit in turn, unless the number has outgrown 64 bits.
abbrev parse_digits : ℕ → List ℕ → Option ℕ
parse_digits acc [] = some acc
parse_digits acc (c ∷ cs) =
    let v = acc * 10 + (c - 48) in
    let rest = parse_digits v cs in
    if is_digit c then (if ltb v (2 ^ 64) then rest else none) else none

abbrev parse_nonempty : List ℕ → Option ℕ
parse_nonempty [] = none
parse_nonempty (c ∷ cs) = parse_digits 0 (c ∷ cs)

-- A plus sign may stand in front.
abbrev pub parse_u64 : List ℕ → Option ℕ
parse_u64 [] = none
parse_u64 (c ∷ cs) = if c == 43 then parse_nonempty cs else parse_nonempty (c ∷ cs)

abbrev pub IsDigit : ℕ → Type 0
IsDigit c = (48 ≤ c) × (c ≤ 57)

-- The number that digits stand for, after the digits of `acc`.
abbrev pub value : ℕ → List ℕ → ℕ
value acc [] = acc
value acc (c ∷ cs) = value (acc * 10 + (c - 48)) cs

le-value : (acc : ℕ) (cs : List ℕ) → acc ≤ value acc cs
le-value acc [] = omega arith
le-value acc (c ∷ cs) = omega (arith, le-value (acc * 10 + (c - 48)) cs)

ltb-lt : (a b : ℕ) → ltb a b ≡ true → a < b
ltb-lt a b h = ground arith

is_digit-true : (c : ℕ) → IsDigit c → is_digit c ≡ true
is_digit-true c h = ground arith

is_digit-IsDigit : (c : ℕ) → is_digit c ≡ true → IsDigit c
is_digit-IsDigit c h = (ground arith, ground arith)

to_digits :
    (acc v : ℕ) (cs : List ℕ)
    → acc < 2 ^ 64
    → parse_digits acc cs ≡ some v
    → All IsDigit cs × (value acc cs ≡ v) × (v < 2 ^ 64)
to_digits acc v [] h e = let same : acc ≡ v = cc in (tt, same, omega (arith, same))
to_digits acc v (c ∷ cs) h e = elim (Bool-cases (is_digit c)) [
  | inr other ↦ absurd (let e' = rw other at e in cc)
  | inl digit ↦ elim (Bool-cases (ltb (acc * 10 + (c - 48)) (2 ^ 64))) [
    | inr long ↦ absurd (let e' = rw (digit, long) at e in cc)
    | inl short ↦
        let rest = rw (digit, short) at e in
        let (digits, total, fits) =
          to_digits (acc * 10 + (c - 48)) v cs (ltb-lt (acc * 10 + (c - 48)) (2 ^ 64) short) rest in
        ((is_digit-IsDigit c digit, digits), total, fits)
  ]
]

from_digits :
    (acc v : ℕ) (cs : List ℕ)
    → All IsDigit cs
    → value acc cs ≡ v
    → v < 2 ^ 64
    → parse_digits acc cs ≡ some v
from_digits acc v [] digits total fits = cc
from_digits acc v (c ∷ cs) (digit, digits) total fits =
    let short = le-value (acc * 10 + (c - 48)) cs in
    rw
      (is_digit-true c digit, ltb-true (acc * 10 + (c - 48)) (2 ^ 64) (omega (arith, short, total)))
      (from_digits (acc * 10 + (c - 48)) v cs digits total fits)

-- A decimal numeral of a number below 2 ^ 64: digits, one at least.
abbrev pub Numeral : List ℕ → ℕ → Type 0
Numeral text v = (text ≢ []) × All IsDigit text × (value 0 text ≡ v) × (v < 2 ^ 64)

parse_nonempty_iff : (v : ℕ) (text : List ℕ) → (parse_nonempty text ≡ some v) ↔ Numeral text v
parse_nonempty_iff v [] = (λ e. absurd cc, λ (h, _, _, _). absurd (h refl))
parse_nonempty_iff v (c ∷ cs) = (
  λ e.
      let (digits, total, fits) = to_digits 0 v (c ∷ cs) (omega arith) e in
      (λ nil. cc, digits, total, fits),
  λ (_, digits, total, fits). from_digits 0 v (c ∷ cs) digits total fits,
)

-- With or without a plus sign in front.
pub parse_u64_iff :
    (v : ℕ) (text : List ℕ)
    → (parse_u64 text ≡ some v)
      ↔ (Numeral text v ⊎ ((digits : List ℕ) × (text ≡ 43 ∷ digits) × Numeral digits v))
parse_u64_iff v [] = (
  λ e. absurd cc,
  λ h. elim h [ inl (filled, _, _, _) ↦ absurd (filled refl) | inr (digits, e, _) ↦ absurd cc ],
)
parse_u64_iff v (c ∷ cs) = (
  λ e. elim (Bool-cases (c == 43)) [
    | inl plus ↦
        let sign : c ≡ 43 = (==_iff c 43).0 plus in
        inr (cs, ap (◌∷ cs) sign, (parse_nonempty_iff v cs).0 (rw plus at e))
    | inr digit ↦ inl ((parse_nonempty_iff v (c ∷ cs)).0 (rw digit at e))
  ],
  λ h. elim h [
    | inl numeral ↦ elim (Bool-cases (c == 43)) [
      | inl plus ↦
          let sign : c ≡ 43 = (==_iff c 43).0 plus in
          let (_, (digit, _), _, _) = numeral in absurd (omega (arith, sign, digit))
      | inr other ↦ rw other ((parse_nonempty_iff v (c ∷ cs)).1 numeral)
    ]
    | inr (digits, e, numeral) ↦
        let sign : c ≡ 43 = cc in
        let same : digits ≡ cs = cc in
        rw ((==_iff c 43).1 sign)
          ((parse_nonempty_iff v cs).1 (subst (λ (ds : List ℕ). Numeral ds v) same numeral))
  ],
)
