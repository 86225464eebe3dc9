-- ===== src/Control/Plain.antt =====
-- An instance of `Protobuf` for the tests.
use atof.Prelude.{◌≡◌, ℕ, refl, List, some, Result, IoError, ok}
use atof.Control.Packet.{Protobuf}

-- `parse_from_bytes` of a message.
abbrev pub parse_plain : List ℕ → Result IoError (List ℕ)
parse_plain bytes = ok bytes

pub parsed_back : (msg bytes : List ℕ) → some msg ≡ some bytes → parse_plain bytes ≡ ok msg
parsed_back msg bytes e = cc

-- Messages that are the bytes they are written as.
abbrev pub plain_messages : Protobuf
plain_messages = record {
  Message = λ name. List ℕ;
  ProtobufError = IoError;
  from_io = λ e. e;
  to_io = λ e. e;
  write_to_bytes = λ name msg. some msg;
  parse_from_bytes = λ name bytes. parse_plain bytes;
  parse-write = λ name msg bytes e. parsed_back msg bytes e;
  to_io-from_io = λ e. refl;
}
