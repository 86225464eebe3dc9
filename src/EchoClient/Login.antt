-- ===== src/EchoClient/Login.antt =====
-- mumble-protocol/examples/echo_client.rs: from the login to the echo.
use atof.Prelude.{
  ℕ, ◌≡◌, refl, List, [], ◌∷◌, true, false, none, some, arith, Result, IoError, ok, All, length,
}
use atof.Prelude.Words.{IsU128, from_le-to_le}
use atof.Voice.Packet.{serverbound, clientbound, VoicePacket}
use atof.Control.Packet.{authenticate, crypt_setup, server_sync, Protobuf, ControlPacket, proto}
use atof.Crypt.Cipher.{Aes}
use atof.Crypt.State.{CryptState, new_from, get_encrypt_nonce, get_decrypt_nonce}
use atof.Crypt.Stream.{seal_all, open_all}
use atof.EchoClient.Connection.{
  EchoMessages, Login, Effect, to_server, send_crypt_state, connect_step, connect_loop, connect,
  later_effects,
}
use atof.EchoClient.Udp.{handle_udp, dummy_packet}
use atof.EchoClient.InStep.{InStep}
use atof.EchoClient.Exchange.{Echoable, received_from, addressed_to, arriving, all_replies}
use atof.EchoClient.Echo.{handle_udp-echoes}

-- The client that `new_from` makes of the server's key and nonces.
abbrev client_of : CryptState → CryptState
client_of server = new_from server.key (get_decrypt_nonce server) (get_encrypt_nonce server)

server-client_of :
    (server : CryptState) → IsU128 server.encrypt_nonce → InStep server (client_of server)
unfolding new_from get_encrypt_nonce
server-client_of server h =
    let same = from_le-to_le 16 server.encrypt_nonce (omega arith) in
    record { keys = refl; nonce = omega (arith, same); nonces = omega (arith, same) }

client_of-server :
    (server : CryptState) → IsU128 server.decrypt_nonce → InStep (client_of server) server
unfolding new_from get_decrypt_nonce
client_of-server server h = record {
  keys = refl;
  nonce = h;
  nonces = from_le-to_le 16 server.decrypt_nonce (omega arith);
}

module _ (protobuf : Protobuf) (msgs : EchoMessages protobuf) where
  -- A `CryptSetup` message with the server's key and nonces.
  pub record Describes (msg : protobuf.Message crypt_setup) (server : CryptState) : Type 0 where
    pub key : msgs.get_key msg ≡ server.key
    pub client_nonce : msgs.get_client_nonce msg ≡ get_decrypt_nonce server
    pub server_nonce : msgs.get_server_nonce msg ≡ get_encrypt_nonce server

  connect_step-crypt_setup :
      (s : Login) (msg : protobuf.Message crypt_setup) (server : CryptState)
      (sent : Result IoError (Unit {0}))
      → Describes msg server
      → length server.key ≡ 16
      → connect_step protobuf msgs s (ok (proto crypt_setup msg)) sent
        ≡ some (record s { crypt_state = some (client_of server) }, [])
  unfolding connect_step get_encrypt_nonce get_decrypt_nonce
  connect_step-crypt_setup s msg server sent d size =
      let a = d.key in
      let b = d.client_nonce in let c = d.server_nonce in rw (a, b, c, connect_step) (rw size refl)

  connect_step-server_sync :
      (c : CryptState) (msg : protobuf.Message server_sync) (sent : Result IoError (Unit {0}))
      → connect_step protobuf msgs
          (record { has_sender = true; crypt_state = some c })
          (ok (proto server_sync msg))
          sent
        ≡ some (record { has_sender = false; crypt_state = none }, send_crypt_state c ∷ [])
  unfolding connect_step
  connect_step-server_sync c msg sent = refl

  connect_loop-cons :
      (s s' : Login) (packet : Result IoError (ControlPacket protobuf clientbound))
      (sent : Result IoError (Unit {0})) (effects : List (Effect protobuf msgs))
      (events : List
        (Result IoError (ControlPacket protobuf clientbound) × Result IoError (Unit {0})))
      → connect_step protobuf msgs s packet sent ≡ some (s', effects)
      → connect_loop protobuf msgs s ((packet, sent) ∷ events)
        ≡ later_effects protobuf msgs effects (connect_loop protobuf msgs s' events)
  unfolding connect_loop
  connect_loop-cons s s' packet sent effects events e = rw (e, connect_loop) refl

  -- A login: the packets `CryptSetup` and `ServerSync`.
  abbrev pub login_events :
      protobuf.Message crypt_setup
      → protobuf.Message server_sync
      → List (Result IoError (ControlPacket protobuf clientbound) × Result IoError (Unit {0}))
  login_events setup sync =
      (ok (proto crypt_setup setup), ok tt) ∷ (ok (proto server_sync sync), ok tt) ∷ []

  connect-login_events :
      (user_name : List ℕ) (server : CryptState) (setup : protobuf.Message crypt_setup)
      (sync : protobuf.Message server_sync)
      → Describes setup server
      → length server.key ≡ 16
      → connect protobuf msgs user_name (ok tt) (login_events setup sync)
        ≡ some (
          record { has_sender = false; crypt_state = none },
          to_server (proto authenticate (msgs.authenticate_as user_name))
              ∷ send_crypt_state (client_of server)
              ∷ [],
        )
  unfolding connect connect_loop
  connect-login_events user_name server setup sync d size =
      rw
        (
          connect_loop-cons (record { has_sender = true; crypt_state = none })
              (record { has_sender = true; crypt_state = some (client_of server) })
              (ok (proto crypt_setup setup)) (ok tt) [] ((ok (proto server_sync sync), ok tt) ∷ [])
              (connect_step-crypt_setup _ setup server (ok tt) d size),
          connect_loop-cons (record { has_sender = true; crypt_state = some (client_of server) })
              (record { has_sender = false; crypt_state = none }) (ok (proto server_sync sync))
              (ok tt) (send_crypt_state (client_of server) ∷ []) []
              (connect_step-server_sync (client_of server) sync (ok tt)),
        )
        refl

  -- A client logs in to a server whose `CryptSetup` holds the server's key of 16 bytes and its
  -- nonces, the sending nonce of the one as the receiving nonce of the other, and whose
  -- `ServerSync` follows: the client authenticates under its name and hands a crypt state to its UDP
  -- task. With that state, it answers the packets that the server seals, which fit the wire format,
  -- with the dummy packet and a datagram for every audio packet, in order, all to the server's
  -- address. The server opens each of them: it holds the number, the payload and the position of
  -- the audio, as normal speech. Nonces are of 128 bits, encodings are bytes, and everything that is
  -- sent arrives.
  pub connect-echoes :
      (aes : Aes) (addr : ℕ) (user_name : List ℕ) (server : CryptState)
      (setup : protobuf.Message crypt_setup) (sync : protobuf.Message server_sync)
      (packets : List (VoicePacket ℕ))
      → Describes setup server
      → length server.key ≡ 16
      → IsU128 server.encrypt_nonce
      → IsU128 server.decrypt_nonce
      → All Echoable packets
      → (client server' server'' : CryptState) × (login : Login) × (datagrams replies : List
          (List ℕ))
        × (connect protobuf msgs user_name (ok tt) (login_events setup sync)
            ≡ some (
              login,
              to_server (proto authenticate (msgs.authenticate_as user_name))
                  ∷ send_crypt_state client
                  ∷ [],
            ))
        × (seal_all aes serverbound clientbound server (arriving packets)
            ≡ some (server', datagrams))
        × (handle_udp aes addr (some client) (ok tt) (received_from addr datagrams)
            ≡ some (addressed_to addr replies))
        × (open_all aes clientbound serverbound server' replies
            ≡ some (server'', dummy_packet ∷ all_replies packets))
  connect-echoes aes addr user_name server setup sync packets d size enc dec h =
      let (server', server'', datagrams, replies, sealed, handled, opened) =
        handle_udp-echoes aes addr server (client_of server) packets (server-client_of server enc)
          (client_of-server server dec) h in
      (
        client_of server,
        server',
        server'',
        record { has_sender = false; crypt_state = none },
        datagrams,
        replies,
        connect-login_events user_name server setup sync d size,
        sealed,
        handled,
        opened,
      )
