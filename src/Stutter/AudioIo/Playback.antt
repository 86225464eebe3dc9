-- ===== src/Stutter/AudioIo/Playback.antt =====
-- stutter/src/task_audio_io.rs: what the speakers play of the samples that arrive.
use atof.Prelude.{
  ℕ, zero, suc, ◌+◌, ◌-◌, ◌*◌, ◌≤◌, ◌≡◌, refl, sym, ap, ap₂, subst, ◌∙◌, List, [], ◌∷◌, ◌++◌, true,
  arith, length, take, drop, replicate, length-append, length-drop, take_all, drop-nil,
}
use atof.Stutter.Ring.{RingBuffer, LawfulRing}
use atof.Stutter.Messages.{
  recording_play, recording_pause, playback_play, playback_pause, playback_inbound,
}
use atof.Stutter.AudioIo.{
  Event, from_task, microphone, speakers, Effect, to_speakers, to_audio_codec, input_stream,
  output_stream, fill, io_step, io_loop, run_audio_io_task,
}

module _ (Sample : Type 0) (silence : Sample) (ring : RingBuffer Sample)
    (lawful : LawfulRing ring) where
  open lawful use {contents, capacity}

  -- A callback of `n` samples takes what is queued, and fills up with silence.
  pub record Filled (n : ℕ) (b : ring.Buffer) (queued : List Sample)
      (answer : List Sample × ring.Buffer) : Type 0 where
    pub played : answer.0 ≡ take n queued ++ replicate (n - length queued) silence
    pub left : contents answer.1 ≡ drop n queued
    pub room : capacity answer.1 ≡ capacity b

  more_silence : (n : ℕ) → replicate (suc n - 0) silence ≡ silence ∷ replicate (n - 0) silence
  more_silence n =
      let a : suc n - 0 ≡ suc n = omega arith in
      let b : n - 0 ≡ n = omega arith in
      ap (λ (k : ℕ). replicate k silence) a ∙ ap (λ (k : ℕ). silence ∷ replicate k silence) (sym b)

  take-nil : (n : ℕ) → take {A = Sample} n [] ≡ []
  take-nil n = take_all n [] (omega arith)

  fill-Filled :
      (n : ℕ) (b : ring.Buffer) (queued : List Sample)
      → contents b ≡ queued
      → Filled n b queued (fill Sample silence ring n b)
  unfolding fill
  fill-Filled zero b queued e =
      let none_missing : 0 ≡ 0 - length queued = omega arith in
      record { played = ap (λ (k : ℕ). replicate k silence) none_missing; left = e; room = refl }
  fill-Filled (suc n) b [] e =
      let empty = rw e at (lawful.pop-Popped b) in
      let later = fill-Filled n b [] e in
      rw (empty, fill)
        (record {
          played =
              ap (silence ∷◌) (later.played ∙ ap (◌++ replicate (n - 0) silence) (take-nil n))
              ∙ sym (more_silence n);
          left = later.left ∙ drop-nil n;
          room = later.room;
        })
  fill-Filled (suc n) b (x ∷ xs) e =
      let (b', popped, rest) = rw e at (lawful.pop-Popped b) in
      let later = fill-Filled n b' xs rest in
      let same : n - length xs ≡ suc n - suc (length xs) = omega arith in
      rw (popped, fill)
        (record {
          played = ap (x ∷◌) (later.played ∙ ap (λ (k : ℕ). take n xs ++ replicate k silence) same);
          left = later.left;
          room = later.room ∙ lawful.capacity-pop b b' x popped;
        })

  -- The slices that the speakers get.
  abbrev pub slices : List (Effect Sample silence ring) → List (List Sample)
  slices [] = []
  slices (to_speakers xs ∷ effects) = xs ∷ slices effects
  slices (to_audio_codec _ ∷ effects) = slices effects
  slices (input_stream _ ∷ effects) = slices effects
  slices (output_stream _ ∷ effects) = slices effects

  -- A player with a queue that has no bound: what arrives is appended, and a slice takes what is
  -- queued, with silence behind it where that is not enough.
  abbrev pub play_queue : List (Event Sample silence ring) → List Sample → List (List Sample)
  play_queue [] queued = []
  play_queue (from_task (playback_inbound xs) _ ∷ events) queued = play_queue events (queued ++ xs)
  play_queue (from_task _ _ ∷ events) queued = play_queue events queued
  play_queue (microphone _ ∷ events) queued = play_queue events queued
  play_queue (speakers n ∷ events) queued =
      (take n queued ++ replicate (n - length queued) silence) ∷ play_queue events (drop n queued)

  -- No stream refuses a message, and what arrives fits the buffer, with `waiting` samples in it.
  abbrev pub Runs : ℕ → List (Event Sample silence ring) → ℕ → Type 0
  Runs room [] waiting = Unit {0}
  Runs room (from_task (playback_inbound xs) _ ∷ events) waiting =
      (waiting + length xs ≤ room) × Runs room events (waiting + length xs)
  Runs room (from_task _ accepted ∷ events) waiting = (accepted ≡ true) × Runs room events waiting
  Runs room (microphone _ ∷ events) waiting = Runs room events waiting
  Runs room (speakers n ∷ events) waiting = Runs room events (waiting - n)

  io_loop-play_queue :
      (events : List (Event Sample silence ring)) (b : ring.Buffer) (queued : List Sample)
      → contents b ≡ queued
      → Runs (capacity b) events (length queued)
      → slices (io_loop Sample silence ring events b).1 ≡ play_queue events queued
  unfolding io_loop io_step
  io_loop-play_queue [] b queued e h = refl
  io_loop-play_queue (from_task (playback_inbound xs) accepted ∷ events) b queued e (fits, h) =
      let b' = ring.push_slice b xs in
      let same = ap length e in
      let whole = take_all (capacity b - length (contents b)) xs (omega (arith, same, fits)) in
      let queued' : contents b' ≡ queued ++ xs =
        lawful.contents-push_slice b xs ∙ ap (contents b ++◌) whole ∙ ap (◌++ xs) e in
      let size : length queued + length xs ≡ length (queued ++ xs) =
        sym (length-append queued xs) in
      let h' : Runs (capacity b') events (length (queued ++ xs)) =
        subst (λ (k : ℕ). Runs (capacity b') events k) size
          (subst (λ (k : ℕ). Runs k events (length queued + length xs))
            (sym (lawful.capacity-push_slice b xs)) h) in
      io_loop-play_queue events b' (queued ++ xs) queued' h'
  io_loop-play_queue (from_task recording_play accepted ∷ events) b queued e (goes, h) =
      rw goes (io_loop-play_queue events b queued e h)
  io_loop-play_queue (from_task recording_pause accepted ∷ events) b queued e (goes, h) =
      rw goes (io_loop-play_queue events b queued e h)
  io_loop-play_queue (from_task playback_play accepted ∷ events) b queued e (goes, h) =
      rw goes (io_loop-play_queue events b queued e h)
  io_loop-play_queue (from_task playback_pause accepted ∷ events) b queued e (goes, h) =
      rw goes (io_loop-play_queue events b queued e h)
  io_loop-play_queue (microphone xs ∷ events) b queued e h = io_loop-play_queue events b queued e h
  io_loop-play_queue (speakers n ∷ events) b queued e h =
      let filled = fill-Filled n b queued e in
      let b' = (fill Sample silence ring n b).1 in
      let size : length queued - n ≡ length (drop n queued) = sym (length-drop n queued) in
      let h' : Runs (capacity b') events (length (drop n queued)) =
        subst (λ (k : ℕ). Runs (capacity b') events k) size
          (subst (λ (k : ℕ). Runs k events (length queued - n)) (sym filled.room) h) in
      ap₂ ◌∷◌ filled.played (io_loop-play_queue events b' (drop n queued) filled.left h')

  -- The slices that the speakers get from the task, once its streams are set up, are those of a
  -- player with a queue that has no bound, as long as at most 96000 samples wait at a time and no
  -- stream refuses a message: the samples that arrive are played in order, each once, and silence
  -- only where none are waiting.
  pub run_audio_io_task-play_queue :
      (events : List (Event Sample silence ring))
      → Runs (48000 * 2) events 0
      → slices (run_audio_io_task Sample silence ring true true events) ≡ play_queue events []
  unfolding run_audio_io_task
  run_audio_io_task-play_queue events h =
      io_loop-play_queue events (ring.new (48000 * 2)) [] (lawful.contents-new (48000 * 2))
        (subst (λ (k : ℕ). Runs k events 0) (sym (lawful.capacity-new (48000 * 2))) h)
