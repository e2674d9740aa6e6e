-- ===== src/Tss.antt =====
-- tss/src/round_based.rs and factory.rs: between the messages of the round-based library and those of
-- the runtime, and the choice of an agent. The agents themselves are in Tss.Agents.
pub mod Agents
pub mod Delivery
pub mod Signers
use tss_libp2p.Prelude.{ℕ, List, Option, some, none, ◌≡◌, nat_beq, if◌then◌else◌}
use tss_libp2p.Io.{IoResult, ok, panic, ◌>>=◌}
use tss_libp2p.Broadcast.{Name}
use tss_libp2p.Execution.{ProtocolMessage, OutgoingMessage, Routing, broadcast, point_to_point}
use tss_libp2p.Rooms.{ComputeAgent, unwrap}

-- `serde_ipld_dagcbor` for a type, which is not part of the repository: what is written is read back.
pub record CborApi (M : Type 0) : Type 0 where
  pub from_slice : List ℕ → Option M
  pub to_vec : M → Option (List ℕ)
  pub from_slice-to_vec : (m : M) (bs : List ℕ) → to_vec m ≡ some bs → from_slice bs ≡ some m

-- `round_based::Msg`.
pub record Msg (M : Type 0) : Type 0 where
  pub sender : ℕ
  pub receiver : Option ℕ
  pub body : M

abbrev pub receiver_of : Routing → Option ℕ
receiver_of broadcast = none
receiver_of (point_to_point i) = some i

abbrev pub routing_of : Option ℕ → Routing
routing_of none = broadcast
routing_of (some remote_index) = point_to_point remote_index

module _ {M : Type 0} (cbor : CborApi M) where
  -- A message for the protocol; a body that is none of its messages is a panic.
  unfoldable pub incoming_msg : ProtocolMessage → IoResult (Msg M)
  incoming_msg msg = do
    body ← unwrap (cbor.from_slice msg.body)
    ok (record { sender = msg.from; receiver = receiver_of msg.to; body = body })

  -- A message of the protocol, unless it cannot be written; `tx` is the channel that tells when it is
  -- sent. The number of the sender is not part of it.
  unfoldable pub outgoing_msg : ℕ → Msg M → Option OutgoingMessage
  outgoing_msg tx message = elim (cbor.to_vec message.body) [
    | none ↦ none
    | some payload ↦
        some (record { body = payload; to = routing_of message.receiver; sent = some tx })
  ]

-- The agents of the factory, with the path of the key share.
pub data TssAgent : Type 0 where
  key_gen key_sign : Name → TssAgent

-- What an agent says of itself.
unfoldable pub describe : TssAgent → ComputeAgent
describe (key_gen path) = record { session_id = 0; protocol_id = 0 }
describe (key_sign path) = record { session_id = 0; protocol_id = 1 }

-- `TssFactory::make`; none is the error `UnknownProtocol`.
unfoldable pub make : Name → ℕ → Option TssAgent
make key_path protocol_id =
    if nat_beq protocol_id 0
    then some (key_gen key_path)
    else if nat_beq protocol_id 1
    then some (key_sign key_path)
    else none
