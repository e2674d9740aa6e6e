-- ===== src/Messages.antt =====
-- node/network/src/messages.rs: the wire format of requests and responses. A stream is the list of
-- the bytes that are still to be read, and writing gives the bytes that a stream receives; closing
-- it is the end of the list. `usize` is 64 bits wide, so a `u64` limit is a `usize`.
mod Codes
pub mod RoundTrip
pub mod Refusals
use tss_libp2p.Prelude.{
  ℕ, ◌<◌, ◌≡◌, List, [], ◌∷◌, ◌++◌, length, ltb, leb, ◌^◌, nat_beq, not, if◌then◌else◌, Bool, true,
  false,
}
use tss_libp2p.Io.{IoResult, ok, err, panic, invalid_input, ◌>>=◌, read_exact}
use tss_libp2p.Varint.{VarintApi, Width, u8, u64, usize, ReadResult, ReadError, eof, decode}
use tss_libp2p.Varint

pub data MessageType : Type 0 where
  coordination computation : MessageType

pub record MessageContext : Type 0 where
  pub message_type : MessageType
  pub session_id : ℕ
  pub protocol_id : ℕ

pub record WireMessage : Type 0 where
  pub context : MessageContext
  pub payload : List ℕ
  pub is_broadcast : Bool

-- `Result<Vec<u8>, ()>`.
pub data Response : Type 0 where
  answer : List ℕ → Response
  refused : Response

-- `message_type as u8` and `is_broadcast as u8`.
abbrev pub type_code : MessageType → ℕ
type_code coordination = 0
type_code computation = 1

abbrev pub bool_code : Bool → ℕ
bool_code false = 0
bool_code true = 1

-- Every failed read of a number is `InvalidInput`.
abbrev pub or_invalid {ℓ} : {A : Type ℓ} → ReadResult A → IoResult A
or_invalid (Varint.ok a) = ok a
or_invalid (Varint.err e) = err invalid_input

-- The `match` on the first number; any other value is a panic.
abbrev pub read_type : ℕ → IoResult MessageType
read_type t = if nat_beq t 0 then ok coordination else if nat_beq t 1 then ok computation else panic

-- The body behind its length. `vec![0; length]` is a panic from 2^63 bytes on, if the limit lets them
-- through.
unfoldable pub read_body : ℕ → ℕ → List ℕ → IoResult (List ℕ × List ℕ)
unfolding read_exact
read_body max len src =
    if ltb max len
    then err invalid_input
    else if leb (2 ^ 63) len
    then panic
    else read_exact len src

module _ (varint : VarintApi) where
  open varint use {encode, read}

  unfoldable pub read_request : ℕ → List ℕ → IoResult (WireMessage × List ℕ)
  unfolding read_body
  read_request max_request_size s0 = do
    (t, s1) ← or_invalid (read u8 s0)
    message_type ← read_type t
    (b, s2) ← or_invalid (read u8 s1)
    (session_id, s3) ← or_invalid (read u64 s2)
    (protocol_id, s4) ← or_invalid (read u64 s3)
    (len, s5) ← or_invalid (read usize s4)
    (buffer, s6) ← read_body max_request_size len s5
    ok (
      record {
        context = record {
          message_type = message_type;
          session_id = session_id;
          protocol_id = protocol_id;
        };
        payload = buffer;
        is_broadcast = not (nat_beq b 0);
      },
      s6,
    )

  unfoldable pub write_request : WireMessage → List ℕ
  write_request req =
      encode (type_code req.context.message_type)
      ++ (encode (bool_code req.is_broadcast)
          ++ (encode req.context.session_id
              ++ (encode req.context.protocol_id ++ (encode (length req.payload) ++ req.payload))))

  -- A stream that is closed before the length is a refusal, any other bad length an error.
  unfoldable pub read_response : ℕ → List ℕ → IoResult (Response × List ℕ)
  unfolding read_body
  read_response max_response_size s0 = elim (read usize s0) [
    | Varint.ok (len, s1) ↦
        read_body max_response_size len s1 >>= λ (buffer, s2). ok (answer buffer, s2)
    | Varint.err eof ↦ ok (refused, s0)
    | Varint.err decode ↦ err invalid_input
  ]

  unfoldable pub write_response : Response → List ℕ
  write_response (answer res) = encode (length res) ++ res
  write_response refused = []
