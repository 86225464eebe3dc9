-- ===== src/Prelude/Maps.antt =====
-- `HashMap` and `HashSet` with numbers for keys: association lists, and lists of members. What the
-- theorems say of them does not depend on an order.
use Prim.Native.Nat.{ℕ}
use mathlib.Core.Path.{◌≡◌, refl}
use mathlib.Core.Logic.{◌≢◌, inl, inr}
use mathlib.Core.Bool.{Bool, true, false}
use mathlib.Core.Option.{Option, none, some}
use mathlib.Core.List.{List, [], ◌∷◌}
use native.Mathlib.Omega.{arith}
use atof.Prelude.Tests.{◌==◌, if◌then◌else◌, Bool-cases}

module _ {ℓ} {V : Type ℓ} where
  abbrev pub lookup : ℕ → List (ℕ × V) → Option V
  lookup k [] = none
  lookup k ((k', v) ∷ m) = if k == k' then some v else lookup k m

  abbrev pub remove : ℕ → List (ℕ × V) → List (ℕ × V)
  remove k [] = []
  remove k ((k', v) ∷ m) = if k == k' then remove k m else (k', v) ∷ remove k m

  abbrev pub insert : ℕ → V → List (ℕ × V) → List (ℕ × V)
  insert k v m = (k, v) ∷ remove k m

  abbrev pub contains_key : ℕ → List (ℕ × V) → Bool
  contains_key k m = elim (lookup k m) [ some _ ↦ true | none ↦ false ]

  pub lookup-remove_self : (k : ℕ) (m : List (ℕ × V)) → lookup k (remove k m) ≡ none
  lookup-remove_self k [] = refl
  lookup-remove_self k ((k', v) ∷ m) = ground (arith, lookup-remove_self k m)

  pub lookup-remove_other :
      (k j : ℕ) (m : List (ℕ × V)) → k ≢ j → lookup k (remove j m) ≡ lookup k m
  lookup-remove_other k j [] h = refl
  lookup-remove_other k j ((k', v) ∷ m) h = ground (arith, lookup-remove_other k j m h)

  pub lookup-insert_self : (k : ℕ) (v : V) (m : List (ℕ × V)) → lookup k (insert k v m) ≡ some v
  lookup-insert_self k v m = ground arith

  pub lookup-insert_other :
      (k j : ℕ) (v : V) (m : List (ℕ × V)) → k ≢ j → lookup k (insert j v m) ≡ lookup k m
  lookup-insert_other k j v m h = ground (arith, lookup-remove_other k j m h)

  pub contains_key-insert_self :
      (k : ℕ) (v : V) (m : List (ℕ × V)) → contains_key k (insert k v m) ≡ true
  contains_key-insert_self k v m = rw (lookup-insert_self k v m, contains_key) refl

abbrev pub member : ℕ → List ℕ → Bool
member k [] = false
member k (x ∷ xs) = if k == x then true else member k xs

abbrev pub add_member : ℕ → List ℕ → List ℕ
add_member k xs = if member k xs then xs else k ∷ xs

abbrev pub remove_member : ℕ → List ℕ → List ℕ
remove_member k [] = []
remove_member k (x ∷ xs) = if k == x then remove_member k xs else x ∷ remove_member k xs

pub member-add_self : (k : ℕ) (xs : List ℕ) → member k (add_member k xs) ≡ true
member-add_self k xs = ground arith

pub member-add_other : (k j : ℕ) (xs : List ℕ) → k ≢ j → member k (add_member j xs) ≡ member k xs
member-add_other k j xs h = ground arith

pub member-remove_self : (k : ℕ) (xs : List ℕ) → member k (remove_member k xs) ≡ false
member-remove_self k [] = refl
member-remove_self k (x ∷ xs) = ground (arith, member-remove_self k xs)

pub member-remove_other :
    (k j : ℕ) (xs : List ℕ) → k ≢ j → member k (remove_member j xs) ≡ member k xs
member-remove_other k j [] h = refl
member-remove_other k j (x ∷ xs) h = ground (arith, member-remove_other k j xs h)

-- A list of members that stands for a set: no number occurs twice.
abbrev pub NoRepeat : List ℕ → Type 0
NoRepeat [] = Unit {0}
NoRepeat (x ∷ xs) = (member x xs ≡ false) × NoRepeat xs

pub NoRepeat-add : (k : ℕ) (xs : List ℕ) → NoRepeat xs → NoRepeat (add_member k xs)
NoRepeat-add k xs h = elim (Bool-cases (member k xs)) [
  | inl inside ↦ rw inside h
  | inr out ↦ rw out (out, h)
]

member-remove-false :
    (k j : ℕ) (xs : List ℕ) → member k xs ≡ false → member k (remove_member j xs) ≡ false
member-remove-false k j [] h = refl
member-remove-false k j (x ∷ xs) h = ground (arith, member-remove-false k j xs)

pub NoRepeat-remove : (k : ℕ) (xs : List ℕ) → NoRepeat xs → NoRepeat (remove_member k xs)
NoRepeat-remove k [] h = tt
NoRepeat-remove k (x ∷ xs) (out, h) = elim (Bool-cases (k == x)) [
  | inl same ↦ rw same (NoRepeat-remove k xs h)
  | inr differ ↦ rw differ (member-remove-false x k xs out, NoRepeat-remove k xs h)
]
