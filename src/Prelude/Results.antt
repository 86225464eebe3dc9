-- ===== src/Prelude/Results.antt =====
-- `Result` of the standard library, the kinds of `io::Error` that the sources tell apart, and the
-- state of a reader: the bytes that it has not yet read.
use Prim.Native.Nat.{ℕ}
use mathlib.Core.Path.{◌≡◌, refl}
use mathlib.Core.Logic.{◌⊎◌, inl, inr}
use mathlib.Core.List.{List, [], ◌∷◌}

pub data Result {ℓ κ} (E : Type ℓ) (A : Type κ) : Type (ℓ ⊔ κ) where
  ok : A → Result E A
  err : E → Result E A

pub data IoError : Type 0 where
  unexpected_eof invalid_data other_error : IoError

-- A computation over an `io::Read`: what it returns, and the bytes left.
abbrev pub Reader : Type 0 → Type 0
Reader A = List ℕ → Result IoError (A × List ℕ)

abbrev pub and_then :
    {A B : Type 0} → Result IoError (A × List ℕ) → (A → Reader B) → Result IoError (B × List ℕ)
and_then (ok (a, rest)) f = f a rest
and_then (err e) f = err e

infixl 5 ◌>>=◌
abbrev pub ◌>>=◌ : {A B : Type 0} → Reader A → (A → Reader B) → Reader B
◌>>=◌ m f bytes = and_then (m bytes) f

abbrev pub pure : {A : Type 0} → A → Reader A
pure a bytes = ok (a, bytes)

-- `read_u8`: an exhausted reader answers `UnexpectedEof`.
abbrev pub read_u8 : Reader ℕ
read_u8 [] = err unexpected_eof
read_u8 (b ∷ bs) = ok (b, bs)

pub Result-cases {ℓ κ} :
    {E : Type ℓ} {A : Type κ} (r : Result E A) → ((a : A) × (r ≡ ok a)) ⊎ ((e : E) × (r ≡ err e))
Result-cases (ok a) = inl (a, refl)
Result-cases (err e) = inr (e, refl)

-- A successful chain is a successful first step, and a successful rest from the bytes it left.
pub and_then-eq-ok :
    {A B : Type 0} (r : Result IoError (A × List ℕ)) (f : A → Reader B) {b : B} {rest : List ℕ}
    → and_then r f ≡ ok (b, rest)
    → (a : A) × (mid : List ℕ) × (r ≡ ok (a, mid)) × (f a mid ≡ ok (b, rest))
and_then-eq-ok (ok (a, mid)) f h = (a, mid, refl, h)
and_then-eq-ok (err e) f h = cc
