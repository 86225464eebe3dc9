-- ===== src/Stutter/Ring.antt =====
-- The ring buffer of the crate `ringbuf`, as task_audio_codec.rs and task_audio_io.rs use it: the
-- operations, and what its documentation says of them.
use atof.Prelude.{ℕ, ◌-◌, ◌≡◌, List, [], ◌∷◌, ◌++◌, Option, none, some, length, take, drop}

-- `pop_slice` is given the length of the slice, and answers with the elements that it wrote.
pub record RingBuffer (Sample : Type 0) : Type 1 where
  pub Buffer : Type 0
  pub new : (capacity : ℕ) → Buffer
  pub len : Buffer → ℕ
  pub push_slice : Buffer → List Sample → Buffer
  pub pop_slice : Buffer → ℕ → List Sample × Buffer
  pub pop : Buffer → Option (Sample × Buffer)

-- What `pop` answers on a buffer of these contents.
abbrev pub Popped :
    {Sample Buffer : Type 0}
    → (Buffer → List Sample)
    → List Sample
    → Option (Sample × Buffer)
    → Type 0
Popped contents [] answer = answer ≡ none
Popped {Buffer = Buffer} contents (x ∷ xs) answer =
    (b : Buffer) × (answer ≡ some (x, b)) × (contents b ≡ xs)

-- A queue of at most `capacity` elements: a push takes what fits, a pop takes from the front.
pub record LawfulRing {Sample : Type 0} (ring : RingBuffer Sample) : Type 1 where
  pub contents : ring.Buffer → List Sample
  pub capacity : ring.Buffer → ℕ
  pub contents-new : (n : ℕ) → contents (ring.new n) ≡ []
  pub capacity-new : (n : ℕ) → capacity (ring.new n) ≡ n
  pub len-contents : (b : ring.Buffer) → ring.len b ≡ length (contents b)
  pub contents-push_slice :
      (b : ring.Buffer) (xs : List Sample)
      → contents (ring.push_slice b xs) ≡ contents b ++ take (capacity b - length (contents b)) xs
  pub capacity-push_slice :
      (b : ring.Buffer) (xs : List Sample) → capacity (ring.push_slice b xs) ≡ capacity b
  pub pop_slice-take : (b : ring.Buffer) (n : ℕ) → (ring.pop_slice b n).0 ≡ take n (contents b)
  pub contents-pop_slice :
      (b : ring.Buffer) (n : ℕ) → contents (ring.pop_slice b n).1 ≡ drop n (contents b)
  pub capacity-pop_slice : (b : ring.Buffer) (n : ℕ) → capacity (ring.pop_slice b n).1 ≡ capacity b
  pub pop-Popped : (b : ring.Buffer) → Popped contents (contents b) (ring.pop b)
  pub capacity-pop :
      (b b' : ring.Buffer) (x : Sample) → ring.pop b ≡ some (x, b') → capacity b' ≡ capacity b
