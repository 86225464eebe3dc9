-- ===== src/Stutter/AudioCodec/Wire.antt =====
-- stutter/src/task_audio_codec.rs: the voice packets that the task sends fit the wire format.
use atof.Prelude.{
  ℕ, zero, suc, ◌≤◌, ◌≡◌, refl, inl, inr, List, [], ◌∷◌, Bool, true, false, Option, none, some,
  arith, if◌then◌else◌, Bool-cases, Option-cases, length, replicate, All, All-append, ok,
}
use atof.Voice.Packet.{
  serverbound, serverbound_lawful, VoicePacketPayload, celt_alpha, celt_beta, speex, opus, ping,
  audio,
}
use atof.Voice.Codec
use atof.Voice.RoundTrip.{Fits, decode-encode}
use atof.Control.Packet.{Protobuf}
use atof.Stutter.Ring.{RingBuffer}
use atof.Stutter.Opus.{Opus, LawfulOpus}
use atof.Stutter.Messages.{AudioCodecMessage, inbound, outbound, voice, control}
use atof.Stutter.AudioCodec.{
  frame_len, voice_packet, CodecState, Event, Effect, to_connection, to_audio_io, sent_before,
  encode_frames, handle_payload, and_on, codec_step, effects_before, run_audio_codec_task,
}

pub voice_packet-Fits :
    (output : List ℕ) → length output ≤ 1024 → Fits serverbound_lawful (voice_packet output)
voice_packet-Fits output short = (omega arith, tt, omega arith, omega arith, λ e. cc)

module _ (protobuf : Protobuf) (Sample : Type 0) (silence : Sample) (ring : RingBuffer Sample)
    (codec : Opus Sample) (lawful_opus : LawfulOpus codec) where
  -- A packet for the connection task is one that the server reads as it is.
  abbrev pub ReadBack : Effect protobuf Sample silence ring codec → Type 0
  ReadBack (to_connection (voice packet)) =
      Codec.decode serverbound (Codec.encode serverbound packet []) ≡ (some (ok (some packet)), [])
  ReadBack (to_connection (control _)) = ⊥
  ReadBack (to_audio_io _) = Unit {0}

  abbrev AllReadBack :
      Option (
        CodecState protobuf Sample silence ring codec
        × List (Effect protobuf Sample silence ring codec))
      → Type 0
  AllReadBack none = Unit {0}
  AllReadBack (some (s, effects)) = All ReadBack effects

  sent_before-ReadBack :
      (effect : Effect protobuf Sample silence ring codec)
      (answer : Option (
        CodecState protobuf Sample silence ring codec
        × List (Effect protobuf Sample silence ring codec)))
      → ReadBack effect
      → AllReadBack answer
      → AllReadBack (sent_before protobuf Sample silence ring codec effect answer)
  sent_before-ReadBack effect none h hs = tt
  sent_before-ReadBack effect (some (s, effects)) h hs = (h, hs)

  output-ReadBack :
      (output : List ℕ)
      → length output ≤ 1024
      → ReadBack (to_connection (voice (voice_packet output)))
  output-ReadBack output short =
      decode-encode serverbound_lawful (voice_packet output) (voice_packet-Fits output short)

  -- The tests and the encoder's error come before anything is sent.
  guarded-ReadBack :
      (s : CodecState protobuf Sample silence ring codec) (short torn : Bool)
      (encoded : Option (codec.Encoder × List ℕ))
      (rest : codec.Encoder × List ℕ
        → Option (
            CodecState protobuf Sample silence ring codec
            × List (Effect protobuf Sample silence ring codec)))
      → ((x : codec.Encoder × List ℕ) → encoded ≡ some x → AllReadBack (rest x))
      → AllReadBack (
          if short
          then some (s, [])
          else if torn
          then none
          else elim encoded [ none ↦ none | some x ↦ rest x ])
  guarded-ReadBack s true torn encoded rest h = tt
  guarded-ReadBack s false true encoded rest h = tt
  guarded-ReadBack s false false none rest h = tt
  guarded-ReadBack s false false (some x) rest h = h x refl

  encode_frames-ReadBack :
      (fuel accepted : ℕ) (s : CodecState protobuf Sample silence ring codec)
      → AllReadBack (encode_frames protobuf Sample silence ring codec fuel accepted s)
  unfolding encode_frames
  encode_frames-ReadBack zero accepted s = tt
  encode_frames-ReadBack (suc fuel) zero s =
      guarded-ReadBack s _ _ _
        (λ (e, output).
          some (record s { encoder = e; buffer = (ring.pop_slice s.buffer frame_len).1 }, []))
        (λ (e, output) encodes. tt)
  encode_frames-ReadBack (suc fuel) (suc more) s =
      let (b, buffer) = ring.pop_slice s.buffer frame_len in
      guarded-ReadBack s _ _ _
        (λ (e, output).
          sent_before protobuf Sample silence ring codec
            (to_connection (voice (voice_packet output)))
            (encode_frames protobuf Sample silence ring codec fuel more
              (record s { encoder = e; buffer = buffer })))
        (λ (e, output) encodes.
          sent_before-ReadBack (to_connection (voice (voice_packet output))) _
            (output-ReadBack output (lawful_opus.output-short s.encoder e b 1024 output encodes))
            (encode_frames-ReadBack fuel more (record s { encoder = e; buffer = buffer })))

  abbrev StepReadBack :
      Option (
        CodecState protobuf Sample silence ring codec
        × List (Effect protobuf Sample silence ring codec)
        × Bool)
      → Type 0
  StepReadBack none = Unit {0}
  StepReadBack (some (s, effects, goes_on)) = All ReadBack effects

  handle_payload-ReadBack :
      (payload : VoicePacketPayload) (accepted : ℕ)
      (s : CodecState protobuf Sample silence ring codec)
      → StepReadBack (handle_payload protobuf Sample silence ring codec payload accepted s)
  unfolding handle_payload
  handle_payload-ReadBack (opus buffer end) zero s =
      elim (Option-cases (codec.decode_float s.decoder buffer (replicate frame_len silence) end)) [
        | inl failed ↦ rw (failed, handle_payload) tt
        | inr ((d, b), decodes) ↦ rw (decodes, handle_payload) tt
      ]
  handle_payload-ReadBack (opus buffer end) (suc more) s =
      elim (Option-cases (codec.decode_float s.decoder buffer (replicate frame_len silence) end)) [
        | inl failed ↦ rw (failed, handle_payload) tt
        | inr ((d, b), decodes) ↦ rw (decodes, handle_payload) (tt, tt)
      ]
  handle_payload-ReadBack (celt_alpha _) accepted s = tt
  handle_payload-ReadBack (celt_beta _) accepted s = tt
  handle_payload-ReadBack (speex _) accepted s = tt

  and_on-ReadBack :
      (answer : Option (
        CodecState protobuf Sample silence ring codec
        × List (Effect protobuf Sample silence ring codec)))
      → AllReadBack answer
      → StepReadBack (and_on protobuf Sample silence ring codec answer)
  and_on-ReadBack none h = tt
  and_on-ReadBack (some (s, effects)) h = h

  codec_step-ReadBack :
      (message : AudioCodecMessage Sample) (accepted : ℕ)
      (s : CodecState protobuf Sample silence ring codec)
      → StepReadBack (
          codec_step protobuf Sample silence ring codec
            (record { message = message; accepted = accepted })
            s)
  unfolding codec_step
  codec_step-ReadBack (outbound samples) accepted s =
      let pushed = record s { buffer = ring.push_slice s.buffer samples } in
      and_on-ReadBack
        (encode_frames protobuf Sample silence ring codec (suc (ring.len pushed.buffer)) accepted
          pushed)
        (encode_frames-ReadBack (suc (ring.len pushed.buffer)) accepted pushed)
  codec_step-ReadBack (inbound (audio _ _ _ payload _)) accepted s =
      handle_payload-ReadBack payload accepted s
  codec_step-ReadBack (inbound (ping _)) accepted s = tt

  effects_before-ReadBack :
      (effects : List (Effect protobuf Sample silence ring codec))
      (answer : Option (
        CodecState protobuf Sample silence ring codec
        × List (Effect protobuf Sample silence ring codec)))
      → All ReadBack effects
      → AllReadBack answer
      → AllReadBack (effects_before protobuf Sample silence ring codec effects answer)
  effects_before-ReadBack effects none h later = tt
  effects_before-ReadBack effects (some (s, more)) h later =
      All-append ReadBack effects more h later

  run-ReadBack :
      (events : List (Event protobuf Sample silence ring codec))
      (s : CodecState protobuf Sample silence ring codec)
      → AllReadBack (run_audio_codec_task protobuf Sample silence ring codec events s)
  unfolding run_audio_codec_task
  run-ReadBack [] s = tt
  run-ReadBack (event ∷ events) s =
      let sent = codec_step-ReadBack event.message event.accepted s in
      elim (Option-cases (codec_step protobuf Sample silence ring codec event s)) [
        | inl panics ↦ rw (panics, run_audio_codec_task) tt
        | inr ((t, effects, goes_on), e) ↦
            let sent' : All ReadBack effects = rw e at sent in
            rw (e, run_audio_codec_task)
              (elim (Bool-cases goes_on) [
                | inl goes ↦ rw goes (
                    effects_before-ReadBack effects
                      (run_audio_codec_task protobuf Sample silence ring codec events t) sent'
                      (run-ReadBack events t))
                | inr stops ↦ rw stops sent'
              ])
      ]

  -- Whatever messages arrive in whatever state, and whichever sends are refused: every message that
  -- the task sends to the connection task carries a voice packet, and what the voice codec writes
  -- of it, the server's decodes to the same packet, with nothing left.
  pub run_audio_codec_task-ReadBack :
      (events : List (Event protobuf Sample silence ring codec))
      (s s' : CodecState protobuf Sample silence ring codec)
      (effects : List (Effect protobuf Sample silence ring codec))
      → run_audio_codec_task protobuf Sample silence ring codec events s ≡ some (s', effects)
      → All ReadBack effects
  run_audio_codec_task-ReadBack events s s' effects e =
      let sent = run-ReadBack events s in rw e at sent
