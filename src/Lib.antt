-- ===== src/Lib.antt =====
-- A verification library for the atof workspace: the Mumble protocol library, mumble-protocol, and
-- the server and the client built on it, stammer and stutter.
--
-- The parts of the program and how they interact. A client and the server exchange control packets
-- over TCP and voice packets over UDP or tunneled in control packets. Numbers in voice packets are
-- varints; over UDP they are sealed with OCB2-AES128 under a nonce that both ends count. In the
-- server, a task per session hands control packets to the control task, which owns the table of
-- sessions and rooms, and voice and text to the routing task, which has a copy of that table and
-- sends to the sessions. The control task sends the routing task the table when it changes. In the
-- client, the audio io task hands what the microphone records to the audio codec task, which cuts it
-- into frames and encodes them; the connection task sends them to the server in voice packets. What
-- comes from the server goes the other way, to the speakers.
--
-- Which file models which part. Functions keep their names in the source.
--   Varint            mumble-protocol/src/varint.rs. The recursion of `write_varint` is on the
--                     accessibility of `<`, since the complement of a number with its top bit set
--                     is smaller.
--   Ping              mumble-protocol/src/ping.rs. The four conversions are `ping_try_from`,
--                     `ping_to_bytes`, `pong_try_from` and `pong_to_bytes`.
--   Voice.Packet      mumble-protocol/src/voice.rs: the packets, and `VoicePacketDst` as a record
--                     with the instances `serverbound` and `clientbound`.
--   Voice.Codec       the same file: `VoiceCodec`. `decode` returns its result and the buffer as it
--                     leaves it, on errors too. The loop over frames recurs on the accessibility of
--                     the order by length.
--   Crypt.Cipher      mumble-protocol/src/crypt.rs: `s2`, `aes_*` and `ocb_*`. The block cipher is a
--                     parameter: OpenSSL's AES-128, which maps blocks to blocks and has an inverse.
--                     The loops over blocks run on fuel, the length of the buffer, which is more
--                     than the number of blocks.
--   Crypt.State       the same file: `CryptState`, `encrypt`, `decrypt`. The part of `decrypt` that
--                     finds the nonce is `arrival`, the part from `ocb_decrypt` on `open_packet`.
--   Control.Raw       mumble-protocol/src/control.rs: `RawControlCodec`.
--   Control.Packet    the same file: `ControlPacket`, its conversions and `ControlCodec`, that is,
--                     what the macro `define_packets` generates without `webrtc-extensions`. The
--                     protobuf messages, which the build generates, are a parameter: a message that
--                     was written is parsed back.
--   Stammer.RoutingTable   stammer/src/routing_table.rs. Hash maps are association lists. What is
--                     stated does not depend on an order. `_move_session` is `move_session`.
--   Stammer.ControlTask    stammer/src/task_control.rs: `handle_packet`, and the loop of
--                     `run_control_task` over the messages that its channel delivers.
--   Stammer.RoutingTask    stammer/src/task_routing.rs: the loop of `run_routing_task`. The accessors
--                     of `TextMessage`, which the build generates, are a parameter.
--   Stammer.SessionTask    stammer/src/task_session.rs: `version_exchange`, and the loop of
--                     `run_session_task`, over the events that its `select!` waits for.
--   Stammer.AcceptTask     stammer/src/task_accept.rs: the loop of `run_accept_task`.
--   Stammer.System    stammer/src/lib.rs: the two channels of `run_stammer_task`, and the control and
--                     the routing task in any interleaving with what the sessions send them.
--   Stammer.Config, Stutter.Config    stammer/src/lib.rs, stutter/src/lib.rs: `from_env` of the
--                     configuration. The variables of the environment are its arguments.
--   Control.Conversions    mumble-protocol/src/control.rs: what `define_packet_from` generates.
--   Stutter.Ring, Stutter.Opus    what the client takes from the crates `ringbuf` and `opus`, with
--                     what their documentation says. Samples are opaque.
--   Stutter.Messages  the messages between the client's tasks.
--   Stutter.AudioCodec     stutter/src/task_audio_codec.rs: the loop of `run_audio_codec_task`. Its
--                     inner loop, `encode_frames`, runs on fuel, which is one more than the number
--                     of samples in the buffer: each round takes 960 of them.
--   Stutter.AudioIo   stutter/src/task_audio_io.rs: the loop of `run_audio_io_task`, and the data
--                     callbacks of the two streams, a callback in one step.
--   Stutter.Connection     stutter/src/task_connection.rs: `handshake`, `version_handshake`, `ping` and
--                     the loop of `run_connection_task`, over the events that its `select!` waits
--                     for. The generated messages are a parameter.
--   Stutter.System    stutter/src/lib.rs: the channels of `run_stutter_task`, and its three tasks in
--                     any interleaving.
--   Stutter.Handshake, Stutter.Speech, Stutter.Keepalive    a client and the server together: the
--                     packets of the one are the events of the other.
--   EchoClient.Connection, EchoClient.Udp    mumble-protocol/examples/echo_client.rs: `connect` from
--                     the authentication on, and `handle_udp`. The generated messages are a
--                     parameter, and a panic of `unwrap` or `expect` is `none` or `panics`.
--   EchoClient.InStep, EchoClient.Exchange    that client with a server, packet by packet.
--   Prelude           the names and lemmas that these share: lists, results, readers, bits, machine
--                     words, maps, decimal numerals.
--
-- Conventions. A number is a natural number, and a word keeps its wrap-around written out. Bytes
-- are lists of numbers, and `IsBytes` says that each is below 256. A panic is `none`, also that of
-- a `split_to`, `split_at_mut`, `advance` or `get_*` beyond the end of a buffer, which `can_split`
-- tells. An `advance` to the position of a cursor stays inside the buffer. A counter that
-- overflows wraps, as in a release build, and the machine is little-endian, where `to_be` swaps.
--
-- What a property assumes. `Fits` says which voice packets the wire format can carry: a target of
-- 5 bits, numbers of 64 bits, frames of CELT and Speex below 128 bytes of which there is one at
-- least, an Opus frame whose length has bit 13 clear, and positional information that is not
-- empty. `LawfulDst` says that a direction's session ids are read back, and holds of both
-- directions. `Framed` says which raw packets have a 16-bit id and a message within the limit.
-- `WellFormed` says of control packets which can be read back: voice packets that fit, and unknown
-- packets with a free id; of a crypt state it says that the history has 256 entries, and that the
-- nonce and the counters fit their types. `Valid` says that every session of a table is in its
-- room, and that every member of a room has a session with that room and is in it once. `Coherent`
-- says that the tables of the two tasks and those on their way are valid, and that the routing
-- task will have the control task's. A run of the control task takes the channel to the routing
-- task as open, as its `expect`s do. `Cuts` says that a stream of samples is whole frames, encoded
-- one after the other, and what is left in the buffer. `PeerSenders` says that a list holds the
-- senders of the other sessions in a room, each once. `Accepts` says how a crypt state changes
-- with a datagram that it accepts. `Distinct` says that no number occurs twice in a list. A
-- server's packets are `Echoable` if they fit, and their encodings and those of the replies are
-- bytes. `Describes` says that a `CryptSetup` message holds a server's key and nonces.
--
-- What is not modelled. Logging, the command line of the example client, and the reserving of
-- capacity. The set-up of the runtime, of connections and of audio devices, whose answers are part
-- of an event. The names of packets for logs. The crates openssl, protobuf, tokio, opus, ringbuf
-- and cpal, which are not of this repository.
pub mod Prelude
pub mod Varint
pub mod Ping
pub mod Voice
pub mod Crypt
pub mod Control
pub mod Stammer
pub mod Stutter
pub mod EchoClient
