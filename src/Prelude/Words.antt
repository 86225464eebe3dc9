-- ===== src/Prelude/Words.antt =====
-- Machine words as native numbers: casts, shifts and complement with their wrap-around, and the
-- big- and little-endian byte views of the standard library's integers.
use Prim.Native.Nat.{ℕ, zero, suc, ◌+◌, ◌-◌, ◌*◌, ◌/◌, ◌%◌, ◌^◌, ◌<◌, bit_xor}
use mathlib.Core.Path.{◌≡◌, refl, ap, ap₂, ◌∙◌}
use mathlib.Core.List.{List, [], ◌∷◌, ◌++◌, append-nil}
use native.Mathlib.Nat.{pow-suc}
use native.Mathlib.Omega.{arith}
use atof.Prelude.Lists.{length, All}
use atof.Prelude.Bits.Xor.{bit_xor_byte}

abbrev pub IsByte : ℕ → Type 0
IsByte b = b < 256

abbrev pub IsU32 : ℕ → Type 0
IsU32 v = v < 2 ^ 32

abbrev pub IsU64 : ℕ → Type 0
IsU64 v = v < 2 ^ 64

abbrev pub IsU128 : ℕ → Type 0
IsU128 v = v < 2 ^ 128

abbrev pub IsBytes : List ℕ → Type 0
IsBytes = All IsByte

-- `x as u8` and `x as u32`.
abbrev pub u8 : ℕ → ℕ
u8 x = x % 256

abbrev pub u32 : ℕ → ℕ
u32 x = x % 2 ^ 32

-- `!x` on a `u64`.
abbrev pub not64 : ℕ → ℕ
not64 x = 2 ^ 64 - 1 - x

-- `x >> k`, and `x << k` on a `u64`.
abbrev pub shr : ℕ → ℕ → ℕ
shr x k = x / 2 ^ k

abbrev pub shl64 : ℕ → ℕ → ℕ
shl64 x k = x * 2 ^ k % 2 ^ 64

-- The `n` low bytes of `v`, highest first, in front of `tail`.
abbrev pub be_onto : ℕ → ℕ → List ℕ → List ℕ
be_onto zero v tail = tail
be_onto (suc n) v tail = be_onto n (v / 256) ((v % 256) ∷ tail)

abbrev pub to_be_bytes : ℕ → ℕ → List ℕ
to_be_bytes n v = be_onto n v []

abbrev pub be_value : ℕ → List ℕ → ℕ
be_value acc [] = acc
be_value acc (b ∷ bs) = be_value (acc * 256 + b) bs

abbrev pub from_be_bytes : List ℕ → ℕ
from_be_bytes bs = be_value 0 bs

abbrev pub to_le_bytes : ℕ → ℕ → List ℕ
to_le_bytes zero v = []
to_le_bytes (suc n) v = (v % 256) ∷ to_le_bytes n (v / 256)

abbrev pub from_le_bytes : List ℕ → ℕ
from_le_bytes [] = 0
from_le_bytes (b ∷ bs) = from_le_bytes bs * 256 + b

be_value-onto :
    (n v : ℕ) (tail : List ℕ) → v < 256 ^ n → be_value 0 (be_onto n v tail) ≡ be_value v tail
be_value-onto zero v tail h = let e : v ≡ 0 = omega arith in rw e
be_value-onto (suc n) v tail h =
    be_value-onto n (v / 256) ((v % 256) ∷ tail) (omega (arith, pow-suc 256 n))
    ∙ ap (λ (t : ℕ). be_value t tail) (omega arith)

be_onto-value :
    (xs : List ℕ) (n m acc : ℕ) (tail : List ℕ)
    → IsBytes xs
    → m ≡ n + length xs
    → be_onto m (be_value acc xs) tail ≡ be_onto n acc (xs ++ tail)
be_onto-value [] n m acc tail h e = let e' : m ≡ n = omega arith in rw e'
be_onto-value (x ∷ xs) n m acc tail h e =
    be_onto-value xs (suc n) m (acc * 256 + x) tail h.1 (omega arith)
    ∙ ap₂ (λ (a : ℕ) (b : ℕ). be_onto n a (b ∷ (xs ++ tail))) (omega (arith, h.0))
        (omega (arith, h.0))

pub be_onto-append : (n v : ℕ) (xs ys : List ℕ) → be_onto n v xs ++ ys ≡ be_onto n v (xs ++ ys)
be_onto-append zero v xs ys = refl
be_onto-append (suc n) v xs ys = be_onto-append n (v / 256) ((v % 256) ∷ xs) ys

pub length-be_onto : (n v : ℕ) (xs : List ℕ) → length (be_onto n v xs) ≡ n + length xs
length-be_onto zero v xs = omega arith
length-be_onto (suc n) v xs = omega (arith, length-be_onto n (v / 256) ((v % 256) ∷ xs))

pub be_onto-IsBytes : (n v : ℕ) (xs : List ℕ) → IsBytes xs → IsBytes (be_onto n v xs)
be_onto-IsBytes zero v xs h = h
be_onto-IsBytes (suc n) v xs h = be_onto-IsBytes n (v / 256) ((v % 256) ∷ xs) (omega arith, h)

be_value-lt :
    (xs : List ℕ) (k acc : ℕ) → IsBytes xs → acc < 256 ^ k → be_value acc xs < 256 ^ (k + length xs)
be_value-lt [] k acc h lt = let e : k + 0 ≡ k = omega arith in rw e lt
be_value-lt (x ∷ xs) k acc h lt =
    let e : k + suc (length xs) ≡ suc k + length xs = omega arith in
    rw e (be_value-lt xs (suc k) (acc * 256 + x) h.1 (omega (arith, pow-suc 256 k, h.0)))

-- The bytes of a number that fits them give the number back.
pub from_be-to_be : (n v : ℕ) → v < 256 ^ n → from_be_bytes (to_be_bytes n v) ≡ v
from_be-to_be n v h = be_value-onto n v [] h

-- And the value of `n` bytes gives the bytes back.
pub to_be-from_be :
    (n : ℕ) (xs : List ℕ) → length xs ≡ n → IsBytes xs → to_be_bytes n (from_be_bytes xs) ≡ xs
to_be-from_be n xs e h = be_onto-value xs 0 n 0 [] h (omega arith) ∙ append-nil xs

pub length-to_be : (n v : ℕ) → length (to_be_bytes n v) ≡ n
length-to_be n v = omega (arith, length-be_onto n v [])

pub to_be-IsBytes : (n v : ℕ) → IsBytes (to_be_bytes n v)
to_be-IsBytes n v = be_onto-IsBytes n v [] tt

pub from_be-lt : (xs : List ℕ) → IsBytes xs → from_be_bytes xs < 256 ^ length xs
from_be-lt xs h =
    let e : 0 + length xs ≡ length xs = omega arith in rw e at (be_value-lt xs 0 0 h (omega arith))

pub from_le-to_le : (n v : ℕ) → v < 256 ^ n → from_le_bytes (to_le_bytes n v) ≡ v
from_le-to_le zero v h = omega arith
from_le-to_le (suc n) v h =
    omega (arith, pow-suc 256 n, from_le-to_le n (v / 256) (omega (arith, pow-suc 256 n)))

pub to_le-from_le :
    (n : ℕ) (xs : List ℕ) → length xs ≡ n → IsBytes xs → to_le_bytes n (from_le_bytes xs) ≡ xs
to_le-from_le zero [] e h = refl
to_le-from_le zero (x ∷ xs) e h = absurd (omega arith)
to_le-from_le (suc n) [] e h = absurd (omega arith)
to_le-from_le (suc n) (x ∷ xs) e h =
    let low : (from_le_bytes xs * 256 + x) % 256 ≡ x = omega (arith, h.0) in
    let high : (from_le_bytes xs * 256 + x) / 256 ≡ from_le_bytes xs = omega (arith, h.0) in
    rw (low, high) (ap (◌∷◌ x) (to_le-from_le n xs (omega arith) h.1))

-- Exclusive or acts on the bytes.
abbrev pub xor_bytes : List ℕ → List ℕ → List ℕ
xor_bytes [] ys = []
xor_bytes (x ∷ xs) [] = []
xor_bytes (x ∷ xs) (y ∷ ys) = bit_xor x y ∷ xor_bytes xs ys

be_onto-xor :
    (n a b : ℕ) (xs ys : List ℕ)
    → be_onto n (bit_xor a b) (xor_bytes xs ys) ≡ xor_bytes (be_onto n a xs) (be_onto n b ys)
be_onto-xor zero a b xs ys = refl
be_onto-xor (suc n) a b xs ys =
    ap₂ (λ (h : ℕ) (l : ℕ). be_onto n h (l ∷ xor_bytes xs ys)) (bit_xor_byte a b).1
      (bit_xor_byte a b).0
    ∙ be_onto-xor n (a / 256) (b / 256) ((a % 256) ∷ xs) ((b % 256) ∷ ys)

pub to_be-xor :
    (n a b : ℕ) → to_be_bytes n (bit_xor a b) ≡ xor_bytes (to_be_bytes n a) (to_be_bytes n b)
to_be-xor n a b = be_onto-xor n a b [] []
