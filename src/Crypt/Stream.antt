-- ===== src/Crypt/Stream.antt =====
-- mumble-protocol/src/crypt.rs: a stream of packets over a connection that loses some of them.
use atof.Prelude.{
  ℕ, ◌+◌, ◌<◌, ◌≡◌, refl, ap, ◌∙◌, List, [], ◌∷◌, ◌++◌, Bool, true, false, Option, none, some,
  arith, length, take, All, ok, err,
}
use atof.Prelude.Words.{u8, u32, to_be_bytes, IsU32, IsU128, IsBytes}
use atof.Voice.Packet.{VoicePacketDst, LawfulDst, VoicePacket}
use atof.Voice.Codec
use atof.Voice.RoundTrip.{Fits, leftover}
use atof.Crypt.Cipher.{block_size, Aes}
use atof.Crypt.Ocb.{ocb_decrypt-ocb_encrypt}
use atof.Crypt.State.{CryptState, failed, parsed, wrapping_add, encrypt, decrypt, count_packet}
use atof.Crypt.Session.{decrypt-encrypt}
use atof.Crypt.Invariant.{WellFormed}

module _ (aes : Aes) (ReplyDst Dst : VoicePacketDst) where
  -- A packet that is sent, and whether its datagram arrives.
  abbrev pub Shot : Type 0
  Shot = VoicePacket Dst.SessionId × Bool

  abbrev pub arrives_before :
      Bool → List ℕ → Option (CryptState × List (List ℕ)) → Option (CryptState × List (List ℕ))
  arrives_before arrives datagram none = none
  arrives_before true datagram (some (s, later)) = some (s, datagram ∷ later)
  arrives_before false datagram (some (s, later)) = some (s, later)

  -- The sender seals each packet; the datagrams that arrive.
  unfoldable pub seal_all : CryptState → List Shot → Option (CryptState × List (List ℕ))
  seal_all sender [] = some (sender, [])
  seal_all sender ((packet, arrives) ∷ shots) = elim (encrypt aes Dst ReplyDst sender packet) [
    | none ↦ none
    | some (sender', datagram) ↦ arrives_before arrives datagram (seal_all sender' shots)
  ]

  abbrev pub packet_before :
      VoicePacket Dst.SessionId
      → Option (CryptState × List (VoicePacket Dst.SessionId))
      → Option (CryptState × List (VoicePacket Dst.SessionId))
  packet_before packet none = none
  packet_before packet (some (s, later)) = some (s, packet ∷ later)

  -- The receiver opens each datagram; `none` if it refuses one, or one is no packet.
  unfoldable pub open_all :
      CryptState → List (List ℕ) → Option (CryptState × List (VoicePacket Dst.SessionId))
  open_all receiver [] = some (receiver, [])
  open_all receiver (datagram ∷ datagrams) = elim (decrypt aes ReplyDst Dst receiver datagram) [
    | none ↦ none
    | some (receiver', left, failed e) ↦ none
    | some (receiver', left, parsed (err e)) ↦ none
    | some (receiver', left, parsed (ok packet)) ↦
        packet_before packet (open_all receiver' datagrams)
  ]

  -- The packets whose datagrams arrive.
  abbrev pub arrived : List Shot → List (VoicePacket Dst.SessionId)
  arrived [] = []
  arrived ((packet, true) ∷ shots) = packet ∷ arrived shots
  arrived ((packet, false) ∷ shots) = arrived shots

  -- After `gap` packets were lost, no more than 126 are lost in a row before one arrives.
  abbrev pub ShortGaps : ℕ → List Shot → Type 0
  ShortGaps gap [] = Unit {0}
  ShortGaps gap ((packet, true) ∷ shots) = (gap < 127) × ShortGaps 0 shots
  ShortGaps gap ((packet, false) ∷ shots) = ShortGaps (gap + 1) shots

  -- How many packets are lost before the last one that arrives.
  abbrev pub missed : ℕ → List Shot → ℕ
  missed gap [] = 0
  missed gap ((packet, true) ∷ shots) = gap + missed 0 shots
  missed gap ((packet, false) ∷ shots) = missed (gap + 1) shots

  module _ (law : LawfulDst Dst) where
    abbrev pub Sealable : Shot → Type 0
    Sealable (packet, arrives) = Fits law packet × IsBytes (Codec.encode Dst packet [])

    pub encrypt-some :
        (sender : CryptState) (packet : VoicePacket Dst.SessionId)
        → IsBytes (Codec.encode Dst packet [])
        → (datagram : List ℕ) × (encrypt aes Dst ReplyDst sender packet
            ≡ some
                (record sender { encrypt_nonce = wrapping_add sender.encrypt_nonce 1 }, datagram))
    unfolding encrypt
    encrypt-some sender packet bytes =
        let (tag, out, sealed, _, _, _) =
          ocb_decrypt-ocb_encrypt aes sender.key (wrapping_add sender.encrypt_nonce 1)
            (Codec.encode Dst packet []) bytes in
        (
          (u8 (wrapping_add sender.encrypt_nonce 1) ∷ take 3 (to_be_bytes block_size tag)) ++ out,
          rw (sealed, encrypt) refl,
        )

    -- The receiver and its counters after the stream.
    pub record Received (receiver receiver' : CryptState) (gap : ℕ) (shots : List Shot)
        : Type 0 where
      pub good : receiver'.good ≡ u32 (receiver.good + length (arrived shots))
      pub late : receiver'.late ≡ receiver.late
      pub lost : receiver'.lost ≡ u32 (receiver.lost + missed gap shots)

    abbrev Streams : CryptState → CryptState → ℕ → List Shot → Type 0
    Streams sender receiver gap shots =
        (sender' receiver' : CryptState) × (datagrams : List (List ℕ)) × (seal_all sender shots
          ≡ some (sender', datagrams))
        × (open_all receiver datagrams ≡ some (receiver', arrived shots))
        × Received receiver receiver' gap shots

    -- What the induction keeps of the receiver.
    abbrev Ready : CryptState → CryptState → ℕ → Type 0
    Ready sender receiver gap =
        (sender.key ≡ receiver.key)
        × IsU128 receiver.decrypt_nonce
        × IsU32 receiver.good
        × IsU32 receiver.lost
        × (sender.encrypt_nonce ≡ wrapping_add receiver.decrypt_nonce gap)

    pub seal_all-cons :
        (sender sender' : CryptState) (packet : VoicePacket Dst.SessionId) (arrives : Bool)
        (datagram : List ℕ) (shots : List Shot)
        → encrypt aes Dst ReplyDst sender packet ≡ some (sender', datagram)
        → seal_all sender ((packet, arrives) ∷ shots)
          ≡ arrives_before arrives datagram (seal_all sender' shots)
    unfolding seal_all
    seal_all-cons sender sender' packet arrives datagram shots e = rw (e, seal_all) refl

    pub open_all-cons :
        (receiver receiver' : CryptState) (packet : VoicePacket Dst.SessionId)
        (datagram left : List ℕ) (datagrams : List (List ℕ))
        → decrypt aes ReplyDst Dst receiver datagram ≡ some (receiver', left, parsed (ok packet))
        → open_all receiver (datagram ∷ datagrams)
          ≡ packet_before packet (open_all receiver' datagrams)
    unfolding open_all
    open_all-cons receiver receiver' packet datagram left datagrams e = rw (e, open_all) refl

    streams :
        (sender receiver : CryptState) (gap : ℕ) (shots : List Shot)
        → Ready sender receiver gap
        → All Sealable shots
        → ShortGaps gap shots
        → Streams sender receiver gap shots
    streams sender receiver gap [] (_, _, good, lost, _) sealable gaps = (
      sender,
      receiver,
      [],
      unfold seal_all in refl,
      unfold open_all in refl,
      record { good = omega (arith, good); late = refl; lost = omega (arith, lost) },
    )
    streams sender receiver gap ((packet, false) ∷ shots) (keys, nonce, good, lost, behind)
          ((_, bytes), sealable) gaps =
        let (datagram, sealed) = encrypt-some sender packet bytes in
        let next = record sender { encrypt_nonce = wrapping_add sender.encrypt_nonce 1 } in
        let (sender', receiver', datagrams, sent, got, counters) =
          streams next receiver (gap + 1) shots (keys, nonce, good, lost, omega (arith, behind))
            sealable gaps in
        (
          sender',
          receiver',
          datagrams,
          seal_all-cons sender next packet false datagram shots sealed
              ∙ ap (arrives_before false datagram) sent,
          got,
          record { good = counters.good; late = counters.late; lost = counters.lost },
        )
    streams sender receiver gap ((packet, true) ∷ shots) (keys, nonce, good, lost, behind)
          ((fits, bytes), sealable) (short, gaps) =
        let (next, datagram, sealed, moved, opened) =
          decrypt-encrypt aes ReplyDst Dst law sender receiver gap packet keys nonce short behind
            fits bytes in
        let (same, again) = encrypt-some sender packet bytes in
        let made : next ≡ record sender { encrypt_nonce = wrapping_add sender.encrypt_nonce 1 } =
          cc in
        let next_key : next.key ≡ sender.key = ap (λ (s : CryptState). s.key) made in
        let counted = count_packet receiver (u8 next.encrypt_nonce) next.encrypt_nonce false gap in
        let (sender', receiver', datagrams, sent, got, counters) =
          streams next counted 0 shots
            (next_key ∙ keys, omega (arith, moved), omega arith, omega arith, omega (arith, moved))
            sealable gaps in
        (
          sender',
          receiver',
          datagram ∷ datagrams,
          seal_all-cons sender next packet true datagram shots sealed
              ∙ ap (arrives_before true datagram) sent,
          open_all-cons receiver counted packet datagram (leftover law packet) datagrams opened
              ∙ ap (packet_before packet) got,
          record {
            good = let e = counters.good in omega (arith, e);
            late = counters.late;
            lost = let e = counters.lost in omega (arith, e);
          },
        )

    -- A sender and a receiver with the same key, the receiver `gap` packets behind, over a connection
    -- that keeps the order and never loses 127 packets in a row, those of the gap counted: the sender
    -- seals every packet, and the receiver returns exactly the packets whose datagrams arrive, in
    -- order. It counts these as good, those missing before the last of them as lost, and none as
    -- late. The receiver is well formed, the packets fit the wire format, and their encodings are
    -- bytes.
    pub open_all-seal_all :
        (sender receiver : CryptState) (gap : ℕ) (shots : List Shot)
        → sender.key ≡ receiver.key
        → WellFormed receiver
        → sender.encrypt_nonce ≡ wrapping_add receiver.decrypt_nonce gap
        → All Sealable shots
        → ShortGaps gap shots
        → (sender' receiver' : CryptState) × (datagrams : List (List ℕ)) × (seal_all sender shots
            ≡ some (sender', datagrams))
          × (open_all receiver datagrams ≡ some (receiver', arrived shots))
          × Received receiver receiver' gap shots
    open_all-seal_all sender receiver gap shots keys w behind sealable gaps =
        streams sender receiver gap shots (keys, w.nonce, w.good, w.lost, behind) sealable gaps
