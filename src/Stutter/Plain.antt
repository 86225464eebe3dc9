-- ===== src/Stutter/Plain.antt =====
-- Instances of what the client's tasks take from elsewhere, for the tests: a ring buffer that is a list, and an encoder that numbers its frames,
-- and messages that are bytes.
use atof.Prelude.{
  ℕ, suc, ◌-◌, ◌≤◌, ◌≡◌, refl, List, [], ◌∷◌, ◌++◌, not, Option, none, some, arith, ◌==◌, get_or,
  length, take, drop, length-take,
}
use atof.Control.Plain.{plain_messages}
use atof.Stutter.Connection.{ClientMessages}
use atof.Stutter.Ring.{RingBuffer, LawfulRing, Popped}
use atof.Stutter.Opus.{Opus, LawfulOpus}

abbrev pop_front : ℕ → List ℕ → Option (ℕ × (ℕ × List ℕ))
pop_front capacity [] = none
pop_front capacity (x ∷ xs) = some (x, (capacity, xs))

-- The capacity, and what is queued.
abbrev pub list_ring : RingBuffer ℕ
list_ring = record {
  Buffer = ℕ × List ℕ;
  new = λ n. (n, []);
  len = λ (capacity, xs). length xs;
  push_slice = λ (capacity, xs) ys. (capacity, xs ++ take (capacity - length xs) ys);
  pop_slice = λ (capacity, xs) n. (take n xs, (capacity, drop n xs));
  pop = λ (capacity, xs). pop_front capacity xs;
}

pub pop_front-Popped :
    (capacity : ℕ) (xs : List ℕ) → Popped (λ (b : ℕ × List ℕ). b.1) xs (pop_front capacity xs)
pop_front-Popped capacity [] = refl
pop_front-Popped capacity (x ∷ xs) = ((capacity, xs), refl, refl)

pub pop_front-capacity :
    (capacity capacity' x : ℕ) (xs xs' : List ℕ)
    → pop_front capacity xs ≡ some (x, (capacity', xs'))
    → capacity' ≡ capacity
pop_front-capacity capacity capacity' x [] xs' e = absurd cc
pop_front-capacity capacity capacity' x (y ∷ xs) xs' e = cc

abbrev pub list_ring_lawful : LawfulRing list_ring
list_ring_lawful = record {
  contents = λ (b : ℕ × List ℕ). b.1;
  capacity = λ (b : ℕ × List ℕ). b.0;
  contents-new = λ n. refl;
  capacity-new = λ n. refl;
  len-contents = λ b. refl;
  contents-push_slice = λ b xs. refl;
  capacity-push_slice = λ b xs. refl;
  pop_slice-take = λ b n. refl;
  contents-pop_slice = λ b n. refl;
  capacity-pop_slice = λ b n. refl;
  pop-Popped = λ b. pop_front-Popped b.0 b.1;
  capacity-pop = λ b b' x e. pop_front-capacity b.0 b'.0 x b.1 b'.1 e;
}

-- The output for a frame is its number, and its first sample if there is room.
abbrev pub numbering : Opus ℕ
numbering = record {
  Encoder = ℕ;
  Decoder = Unit {0};
  new_encoder = 0;
  new_decoder = tt;
  encode_float = λ n frame max. some (suc n, take max (n ∷ take 1 frame));
  decode_float = λ d bytes buffer fec. some (d, buffer);
}

take_short : (max : ℕ) (xs : List ℕ) → length (take max xs) ≤ max
take_short max xs = omega (arith, length-take max xs)

pub numbering_short :
    (e e' : ℕ) (frame : List ℕ) (max : ℕ) (output : List ℕ)
    → ◌≡◌ {A = Option (ℕ × List ℕ)} (some (suc e, take max (e ∷ take 1 frame))) (some (e', output))
    → length output ≤ max
numbering_short e e' frame max output same =
    let out : take max (e ∷ take 1 frame) ≡ output = cc in
    rw out at (take_short max (e ∷ take 1 frame))

abbrev pub numbering_lawful : LawfulOpus numbering
numbering_lawful = record {
  encodes = λ e frame h. (suc e, take 1024 (e ∷ take 1 frame), refl);
  output-short = numbering_short;
}

-- Versions differ if their first bytes do.
abbrev pub plain_client : ClientMessages plain_messages
plain_client = record {
  client_version = 4 ∷ [];
  differs = λ v w. not (get_or v 0 0 == get_or w 0 0);
  new_authenticate = [];
  new_ping = λ now. now ∷ [];
}
