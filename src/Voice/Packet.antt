-- ===== src/Voice/Packet.antt =====
-- The packet types of voice.rs, and the trait `VoicePacketDst` with its two implementations.
-- `Bytes` are lists of bytes. `PhantomData` fields are left out.
use atof.Prelude.{
  ℕ, ◌≡◌, ◌++◌, List, [], ◌∷◌, ok, arith, Bool, Option, Reader, pure, ◌>>=◌, ap, refl,
}
use atof.Prelude.Readers.{Reads, Reads-pure, Reads-bind}
use atof.Prelude.Words.{u32, IsU32, IsU64}
use atof.Varint.{read_varint, write_varint}
use atof.Varint.RoundTrip.{read_varint-write_varint}
use atof.Varint.Reading.{read_varint-Reads}

-- A direction of travel: the type of its session ids, and how they are read and written.
pub record VoicePacketDst : Type 1 where
  pub SessionId : Type 0
  pub read_session_id : Reader SessionId
  pub write_session_id : SessionId → List ℕ

-- `impl VoicePacketDst for Serverbound`
abbrev pub serverbound : VoicePacketDst
serverbound = record { SessionId = Unit {0}; read_session_id = pure tt; write_session_id = λ _. [] }

unfoldable pub read_client_session : Reader ℕ
read_client_session = do v ← read_varint; pure (u32 v)

-- `impl VoicePacketDst for Clientbound`
abbrev pub clientbound : VoicePacketDst
clientbound = record {
  SessionId = ℕ;
  read_session_id = read_client_session;
  write_session_id = write_varint;
}

pub data VoicePacketPayload : Type 0 where
  celt_alpha celt_beta speex : List (List ℕ) → VoicePacketPayload
  opus : List ℕ → Bool → VoicePacketPayload

pub data VoicePacket (SessionId : Type 0) : Type 0 where
  ping : (timestamp : ℕ) → VoicePacket SessionId
  audio :
      (target : ℕ) (session_id : SessionId) (seq_num : ℕ) (payload : VoicePacketPayload)
      (position_info : Option (List ℕ))
      → VoicePacket SessionId

-- What the codec needs of a direction: ids that are valid are read back, whatever follows them, and
-- only valid ids are read.
pub record LawfulDst (dst : VoicePacketDst) : Type 1 where
  pub Valid : dst.SessionId → Type 0
  pub read-write :
      (s : dst.SessionId) (rest : List ℕ)
      → Valid s
      → dst.read_session_id (dst.write_session_id s ++ rest) ≡ ok (s, rest)
  pub reads : Reads dst.read_session_id Valid

abbrev pub serverbound_lawful : LawfulDst serverbound
serverbound_lawful = record {
  Valid = λ _. Unit {0};
  read-write = λ _ rest _. refl;
  reads = Reads-pure (λ _. Unit {0}) tt tt;
}

pub read_client_session-write :
    (s : ℕ) (rest : List ℕ) → IsU32 s → read_client_session (write_varint s ++ rest) ≡ ok (s, rest)
unfolding read_client_session
read_client_session-write s rest h =
    rw (read_varint-write_varint s rest (omega arith)) (ap (λ (t : ℕ). ok (t, rest)) (omega arith))

pub varint_reads : Reads read_varint IsU64
varint_reads bytes h v rest e =
    let (fits, b0, front, cut) = read_varint-Reads bytes h v rest e in (fits, b0 ∷ front, cut)

pub read_client_session-Reads : Reads read_client_session IsU32
unfolding read_client_session
read_client_session-Reads =
    Reads-bind IsU64 IsU32 read_varint varint_reads (λ v h. Reads-pure IsU32 (u32 v) (omega arith))

abbrev pub clientbound_lawful : LawfulDst clientbound
clientbound_lawful = record {
  Valid = IsU32;
  read-write = read_client_session-write;
  reads = read_client_session-Reads;
}
