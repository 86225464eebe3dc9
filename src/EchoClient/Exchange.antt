-- ===== src/EchoClient/Exchange.antt =====
-- mumble-protocol/examples/echo_client.rs with a server, packet by packet.
use atof.Prelude.{ℕ, ◌≡◌, refl, ap, ◌∙◌, List, [], ◌∷◌, ◌++◌, Bool, true, some, arith, ok, All}
use atof.Prelude.Words.{IsBytes}
use atof.Voice.Packet.{
  serverbound, clientbound, serverbound_lawful, clientbound_lawful, VoicePacket, ping, audio,
}
use atof.Voice.Codec
use atof.Voice.Codec.{put_payload}
use atof.Voice.RoundTrip.{Fits, leftover}
use atof.Crypt.Cipher.{Aes}
use atof.Crypt.State.{CryptState, parsed, encrypt, decrypt, decode}
use atof.Crypt.Stream.{
  seal_all, open_all, encrypt-some, seal_all-cons, open_all-cons, arrives_before, packet_before,
}
use atof.EchoClient.Udp.{
  Received, Step, goes_on, send_datagram, reply_to, udp_step, udp_loop, sent_before,
}
use atof.EchoClient.InStep.{InStep, bump, took, took-InStep, bump-InStep, in_order}

-- The client's reply to a packet of the server, if it is audio.
abbrev replies_to : VoicePacket ℕ → List (VoicePacket Unit)
replies_to (ping timestamp) = []
replies_to (audio target session_id seq_num payload position_info) =
    reply_to seq_num payload position_info ∷ []

abbrev pub all_replies : List (VoicePacket ℕ) → List (VoicePacket Unit)
all_replies [] = []
all_replies (packet ∷ packets) = replies_to packet ++ all_replies packets

-- Every datagram of the server comes from its address, and every reply can be sent.
abbrev pub received_from : ℕ → List (List ℕ) → List Received
received_from addr [] = []
received_from addr (d ∷ ds) =
    record { datagram = ok d; src_addr = addr; sent = ok tt } ∷ received_from addr ds

abbrev pub addressed_to : ℕ → List (List ℕ) → List (List ℕ × ℕ)
addressed_to addr [] = []
addressed_to addr (d ∷ ds) = (d, addr) ∷ addressed_to addr ds

abbrev pub arriving : List (VoicePacket ℕ) → List (VoicePacket ℕ × Bool)
arriving [] = []
arriving (p ∷ ps) = (p, true) ∷ arriving ps

-- A packet that fits the wire format, whose encoding and whose reply's encoding are bytes.
abbrev pub Echoable : VoicePacket ℕ → Type 0
Echoable packet =
    Fits clientbound_lawful packet
    × IsBytes (Codec.encode clientbound packet [])
    × All (λ reply. IsBytes (Codec.encode serverbound reply [])) (replies_to packet)

module _ (aes : Aes) (addr : ℕ) where
  -- What the client does with a packet, from the state after it was opened.
  abbrev reply_step : CryptState → VoicePacket ℕ → Step
  reply_step s (ping timestamp) = goes_on s []
  reply_step s (audio target session_id seq_num payload position_info) =
      send_datagram (encrypt aes serverbound clientbound s (reply_to seq_num payload position_info))
        addr (ok tt)

  udp_step-reply_step :
      (s s' : CryptState) (datagram left : List ℕ) (packet : VoicePacket ℕ)
      → decrypt aes serverbound clientbound s datagram ≡ some (s', left, parsed (ok packet))
      → udp_step aes s (record { datagram = ok datagram; src_addr = addr; sent = ok tt })
        ≡ reply_step s' packet
  unfolding udp_step decode
  udp_step-reply_step s s' datagram left (ping timestamp) e = rw (e, udp_step) refl
  udp_step-reply_step s s' datagram left (audio _ _ _ _ _) e = rw (e, udp_step) refl

  udp_loop-goes_on :
      (s s' : CryptState) (received : Received) (sent : List (List ℕ × ℕ)) (events : List Received)
      → udp_step aes s received ≡ goes_on s' sent
      → udp_loop aes s (received ∷ events) ≡ sent_before aes sent (udp_loop aes s' events)
  unfolding udp_loop
  udp_loop-goes_on s s' received sent events e = rw (e, udp_loop) refl

  -- What the client's replies are to a server whose state expects them.
  abbrev pub Opens : CryptState → List (List ℕ) → List (VoicePacket ℕ) → Type 0
  Opens client replies packets =
      (opener : CryptState)
      → InStep client opener
      → (opener' : CryptState) × (open_all aes clientbound serverbound opener replies
          ≡ some (opener', all_replies packets))

  abbrev pub Exchange : CryptState → CryptState → List (VoicePacket ℕ) → Type 0
  Exchange server client packets =
      (server' client' : CryptState) × (datagrams replies : List (List ℕ)) × (seal_all aes
          serverbound clientbound server (arriving packets)
        ≡ some (server', datagrams))
      × (udp_loop aes client (received_from addr datagrams)
          ≡ some (client', addressed_to addr replies))
      × (server'.key ≡ server.key)
      × (server'.decrypt_nonce ≡ server.decrypt_nonce)
      × Opens client replies packets

  pub exchange :
      (server client : CryptState) (packets : List (VoicePacket ℕ))
      → InStep server client
      → All Echoable packets
      → Exchange server client packets
  exchange server client [] step h = (
    server,
    client,
    [],
    [],
    unfold seal_all in refl,
    unfold udp_loop in refl,
    refl,
    refl,
    λ opener in_step. (opener, unfold open_all in refl),
  )
  exchange server client (ping timestamp ∷ packets) step ((fits, bytes, _), h) =
      let packet : VoicePacket ℕ = ping timestamp in
      let (datagram, sealed) =
        encrypt-some aes serverbound clientbound clientbound_lawful server packet bytes in
      let opened =
        in_order aes serverbound clientbound clientbound_lawful server client packet datagram step
          fits bytes sealed in
      let after = took client (bump server).encrypt_nonce in
      let (server', client', datagrams, replies, all_sealed, looped, key, nonce, opens) =
        exchange (bump server) after packets (took-InStep server client step) h in
      (
        server',
        client',
        datagram ∷ datagrams,
        replies,
        seal_all-cons aes serverbound clientbound clientbound_lawful server (bump server) packet
              true datagram (arriving packets) sealed
            ∙ ap (arrives_before aes serverbound clientbound true datagram) all_sealed,
        udp_loop-goes_on client after
              (record { datagram = ok datagram; src_addr = addr; sent = ok tt }) []
              (received_from addr datagrams)
              (udp_step-reply_step client after datagram (leftover clientbound_lawful packet) packet
                opened)
            ∙ ap (sent_before aes []) looped,
        key,
        nonce,
        λ opener in_step.
            opens opener
              (record { keys = in_step.keys; nonce = in_step.nonce; nonces = in_step.nonces }),
      )
  exchange server client (audio target id seq p pos ∷ packets) step
        ((fits, bytes, (reply_bytes, _)), h) =
      let packet : VoicePacket ℕ = audio target id seq p pos in
      let reply = reply_to seq p pos in
      let (datagram, sealed) =
        encrypt-some aes serverbound clientbound clientbound_lawful server packet bytes in
      let opened =
        in_order aes serverbound clientbound clientbound_lawful server client packet datagram step
          fits bytes sealed in
      let got = took client (bump server).encrypt_nonce in
      let (answer, answered) =
        encrypt-some aes clientbound serverbound serverbound_lawful got reply reply_bytes in
      let (server', client', datagrams, replies, all_sealed, looped, key, nonce, opens) =
        exchange (bump server) (bump got) packets
          (bump-InStep (bump server) got (took-InStep server client step)) h in
      let first : udp_step aes client
            (record { datagram = ok datagram; src_addr = addr; sent = ok tt })
          ≡ goes_on (bump got) ((answer, addr) ∷ []) =
        udp_step-reply_step client got datagram [] packet opened
        ∙ ap (λ o. send_datagram o addr (ok tt)) answered in
      (
        server',
        client',
        datagram ∷ datagrams,
        answer ∷ replies,
        seal_all-cons aes serverbound clientbound clientbound_lawful server (bump server) packet
              true datagram (arriving packets) sealed
            ∙ ap (arrives_before aes serverbound clientbound true datagram) all_sealed,
        udp_loop-goes_on client (bump got)
              (record { datagram = ok datagram; src_addr = addr; sent = ok tt })
              ((answer, addr) ∷ []) (received_from addr datagrams) first
            ∙ ap (sent_before aes ((answer, addr) ∷ [])) looped,
        key,
        nonce,
        λ opener in_step.
            let got_step : InStep got opener = record {
              keys = in_step.keys;
              nonce = in_step.nonce;
              nonces = in_step.nonces;
            } in
            let next = took opener (bump got).encrypt_nonce in
            let heard =
              in_order aes clientbound serverbound serverbound_lawful got opener reply answer
                got_step (omega arith, tt, fits.2, fits.3, fits.4) reply_bytes answered in
            let (opener', all_opened) = opens next (took-InStep got opener got_step) in
            (
              opener',
              open_all-cons aes clientbound serverbound serverbound_lawful opener next reply answer
                    [] replies heard
                  ∙ ap (packet_before aes clientbound serverbound reply) all_opened,
            ),
      )
