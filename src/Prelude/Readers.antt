-- ===== src/Prelude/Readers.antt =====
-- A rule for each step of a reader: a result satisfies `P`, and the bytes left are the end of the
-- bytes given.
use Prim.Native.Nat.{ℕ}
use mathlib.Core.Path.{◌≡◌, sym, ap, subst, ◌∙◌}
use mathlib.Core.Bool.{Bool, true, false}
use mathlib.Core.List.{List, [], ◌∷◌, ◌++◌, append_assoc}
use atof.Prelude.Tests.{if◌then◌else◌}
use atof.Prelude.Lists.{All-append_end}
use atof.Prelude.Results.{and_then-eq-ok, ok, Reader, pure, read_u8, ◌>>=◌}
use atof.Prelude.Words.{IsByte, IsBytes}

abbrev pub Reads : {A : Type 0} → Reader A → (A → Type 0) → Type 0
Reads {A} m P =
    (bytes : List ℕ)
    → IsBytes bytes
    → (a : A) (rest : List ℕ) → m bytes ≡ ok (a, rest)
    → P a × (front : List ℕ) × (bytes ≡ front ++ rest)

module _ {A : Type 0} (P : A → Type 0) where
  pub Reads-pure : (a : A) → P a → Reads (pure a) P
  Reads-pure a h bytes bs b rest e =
      let same : a ≡ b = cc in let left : bytes ≡ rest = cc in (subst P same h, [], left)

  pub Reads-if : (t : Bool) {x y : Reader A} → Reads x P → Reads y P → Reads (if t then x else y) P
  Reads-if true hx hy = hx
  Reads-if false hx hy = hy

pub Reads-read_u8 : Reads read_u8 IsByte
Reads-read_u8 [] h a rest e = cc
Reads-read_u8 (b ∷ bs) h a rest e =
    let same : b ≡ a = cc in
    let left : bs ≡ rest = cc in (subst IsByte same h.0, b ∷ [], ap (◌∷◌ b) left)

pub Reads-bind :
    {A B : Type 0} (P : A → Type 0) (Q : B → Type 0) (m : Reader A) {f : A → Reader B}
    → Reads m P
    → ((a : A) → P a → Reads (f a) Q)
    → Reads (m >>= f) Q
Reads-bind P Q m {f} hm hf bytes bs b rest e =
    let (a, mid, em, ef) = and_then-eq-ok (m bytes) f e in
    let (pa, front, cut) = hm bytes bs a mid em in
    let (qb, more, cut') =
      hf a pa mid (All-append_end IsByte front mid (subst IsBytes cut bs)) b rest ef in
    (
      qb,
      front ++ more,
      cut ∙ ap (λ (t : List ℕ). front ++ t) cut' ∙ sym (append_assoc front more rest),
    )
