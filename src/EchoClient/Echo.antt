-- ===== src/EchoClient/Echo.antt =====
-- mumble-protocol/examples/echo_client.rs with a server: what the server seals comes back to it.
use atof.Prelude.{ℕ, ◌≡◌, refl, ap, sym, ◌∙◌, List, [], ◌∷◌, some, arith, ok, All}
use atof.Prelude.Words.{IsBytes}
use atof.Voice.Packet.{serverbound, clientbound, serverbound_lawful, VoicePacket}
use atof.Voice.Codec
use atof.Voice.Codec.{put_payload}
use atof.Varint.{write_varint, write_sized, put_varint}
use atof.Voice.RoundTrip.{Fits}
use atof.Crypt.Cipher.{Aes}
use atof.Crypt.State.{CryptState, encrypt}
use atof.Crypt.Stream.{seal_all, open_all, encrypt-some, open_all-cons, packet_before}
use atof.EchoClient.Udp.{Received, udp_loop, dummy_packet, handle_udp}
use atof.EchoClient.InStep.{InStep, bump, took, in_order, took-InStep, bump-InStep}
use atof.EchoClient.Exchange.{
  all_replies, received_from, addressed_to, arriving, Echoable, exchange,
}

dummy-IsBytes : IsBytes (Codec.encode serverbound dummy_packet [])
unfolding Codec.encode put_payload put_varint write_varint write_sized
dummy-IsBytes = omega arith

dummy-Fits : Fits serverbound_lawful dummy_packet
dummy-Fits = (omega arith, tt, omega arith, omega arith, λ e. cc)

module _ (aes : Aes) (addr : ℕ) where
  udp_handled :
      (client after after' : CryptState) (datagram : List ℕ) (events : List Received)
      (replies : List (List ℕ × ℕ))
      → encrypt aes serverbound clientbound client dummy_packet ≡ some (after, datagram)
      → udp_loop aes after events ≡ some (after', replies)
      → handle_udp aes addr (some client) (ok tt) events ≡ some ((datagram, addr) ∷ replies)
  unfolding handle_udp
  udp_handled client after after' datagram events replies sealed looped =
      rw (sealed, handle_udp) (rw looped refl)

  -- A server and the client whose crypt states agree in both directions: the server seals packets
  -- that fit the wire format, and the client answers with the dummy packet and then a datagram for
  -- every audio packet, in order, all to the server's address. The server opens each of them: it
  -- holds the number, the payload and the position of the audio, as normal speech. Encodings are
  -- bytes, and every datagram arrives.
  pub handle_udp-echoes :
      (server client : CryptState) (packets : List (VoicePacket ℕ))
      → InStep server client
      → InStep client server
      → All Echoable packets
      → (server' server'' : CryptState) × (datagrams replies : List (List ℕ)) × (seal_all aes
            serverbound clientbound server
            (arriving packets)
          ≡ some (server', datagrams))
        × (handle_udp aes addr (some client) (ok tt) (received_from addr datagrams)
            ≡ some (addressed_to addr replies))
        × (open_all aes clientbound serverbound server' replies
            ≡ some (server'', dummy_packet ∷ all_replies packets))
  handle_udp-echoes server client packets step back h =
      let (dummy, sealed_dummy) =
        encrypt-some aes clientbound serverbound serverbound_lawful client dummy_packet
          dummy-IsBytes in
      let (server', client', datagrams, replies, sealed, looped, key, nonce, opens) =
        exchange aes addr server (bump client) packets (bump-InStep server client step) h in
      let keys = back.keys in
      let fits = back.nonce in
      let nonces = back.nonces in
      let back' : InStep client server' = record {
        keys = keys ∙ sym key;
        nonce = omega (arith, nonce, fits);
        nonces = nonces ∙ sym nonce;
      } in
      let next = took server' (bump client).encrypt_nonce in
      let opened =
        in_order aes clientbound serverbound serverbound_lawful client server' dummy_packet dummy
          back' dummy-Fits dummy-IsBytes sealed_dummy in
      let (server'', all_opened) = opens next (took-InStep client server' back') in
      (
        server',
        server'',
        datagrams,
        dummy ∷ replies,
        sealed,
        udp_handled client (bump client) client' dummy (received_from addr datagrams)
            (addressed_to addr replies) sealed_dummy looped,
        open_all-cons aes clientbound serverbound serverbound_lawful server' next dummy_packet dummy
              [] replies opened
            ∙ ap (packet_before aes clientbound serverbound dummy_packet) all_opened,
      )
