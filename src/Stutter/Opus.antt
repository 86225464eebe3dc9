-- ===== src/Stutter/Opus.antt =====
-- The encoder and the decoder of the crate `opus`, as task_audio_codec.rs uses them: two channels
-- at 48 kHz, and samples that are floats.
use atof.Prelude.{ℕ, ◌≡◌, ◌≤◌, List, Bool, Option, some, length}

-- `encode_float` is given the length of the output, and answers with the bytes that it wrote.
-- `decode_float` answers with the samples that the slice holds then; its last argument asks for
-- forward error correction. `none` is an error.
pub record Opus (Sample : Type 0) : Type 1 where
  pub Encoder : Type 0
  pub Decoder : Type 0
  pub new_encoder : Encoder
  pub new_decoder : Decoder
  pub encode_float : Encoder → List Sample → ℕ → Option (Encoder × List ℕ)
  pub decode_float : Decoder → List ℕ → List Sample → Bool → Option (Decoder × List Sample)

-- A frame of 10 ms, which is 480 samples of each channel, is one that Opus encodes, and the output
-- is as long as the slice at most.
pub record LawfulOpus {Sample : Type 0} (codec : Opus Sample) : Type 0 where
  pub encodes :
      (e : codec.Encoder) (frame : List Sample)
      → length frame ≡ 960
      → (e' : codec.Encoder) × (output : List ℕ) × (codec.encode_float e frame 1024
          ≡ some (e', output))
  pub output-short :
      (e e' : codec.Encoder) (frame : List Sample) (max : ℕ) (output : List ℕ)
      → codec.encode_float e frame max ≡ some (e', output)
      → length output ≤ max
