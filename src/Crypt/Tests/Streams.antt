-- ===== src/Crypt/Tests/Streams.antt =====
-- A stream of three packets of which the second is lost, with a cipher that copies its block.
use atof.Prelude.{ℕ, ◌≡◌, List, [], ◌∷◌, true, false, some, arith}
use atof.Voice.Packet.{clientbound, serverbound, serverbound_lawful}
use atof.Crypt.State.{CryptState}
use atof.Crypt.Stream.{Shot, seal_all, open_all, Sealable, Received, open_all-seal_all}
use atof.Crypt.Plain.{copying}
use atof.Crypt.Tests.{
  client_packet, test_sender, test_receiver, client_packet-IsBytes, same_key, same_nonce,
  test_receiver-WellFormed,
}

abbrev test_shots : List (Shot copying clientbound serverbound)
test_shots = (client_packet, true) ∷ (client_packet, false) ∷ (client_packet, true) ∷ []

client_packet-Sealable :
    Sealable copying clientbound serverbound serverbound_lawful (client_packet, true)
client_packet-Sealable =
    ((omega arith, tt, omega arith, omega arith, λ e. cc), client_packet-IsBytes)

open_all-seal_all_example :
    (sender' receiver' : CryptState) × (datagrams : List (List ℕ)) × (seal_all copying clientbound
        serverbound test_sender test_shots
      ≡ some (sender', datagrams))
    × (open_all copying clientbound serverbound test_receiver datagrams
        ≡ some (receiver', client_packet ∷ client_packet ∷ []))
    × Received copying clientbound serverbound serverbound_lawful test_receiver receiver' 0
        test_shots
open_all-seal_all_example =
    open_all-seal_all copying clientbound serverbound serverbound_lawful test_sender test_receiver 0
      test_shots same_key test_receiver-WellFormed same_nonce
      (client_packet-Sealable, (client_packet-Sealable, (client_packet-Sealable, tt)))
      (omega arith, (omega arith, tt))
