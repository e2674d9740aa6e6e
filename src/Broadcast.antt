-- ===== src/Broadcast.antt =====
-- node/network/src/broadcast.rs: the data of the request-response behaviour of all rooms. Protocol
-- names are texts as bytes; a channel is a number that its two ends share; a time is a number. The
-- maps are lists of entries.
pub mod Send
pub mod Events
pub mod Poll
pub mod Delivery
pub mod Pending
pub mod Many
pub mod Arrivals
pub mod Registry
pub mod Inject
pub mod Shrink
pub mod Numbers
pub mod Life
use tss_libp2p.Prelude.{
  ℕ, ◌+◌, ◌*◌, ◌≡◌, ◌↔◌, refl, arith, List, [], ◌∷◌, Option, some, none, Eq, bytes_beq,
  bytes_beq_iff, nat_beq, nat_beq_iff, ◌&&◌, Bool, true, false,
}
use tss_libp2p.Messages.{WireMessage, MessageContext, Response}

abbrev pub Name : Type 0
Name = List ℕ

instance abbrev pub name_eq : Eq Name
name_eq = record { beq = bytes_beq; beq_iff = bytes_beq_iff }

-- `ProtocolRequestId`.
pub record ProtocolRequestId : Type 0 where
  pub protocol : Name
  pub request_id : ℕ

unfoldable pub id_beq : ProtocolRequestId → ProtocolRequestId → Bool
id_beq a b = bytes_beq a.protocol b.protocol && nat_beq a.request_id b.request_id

pub id_beq_iff : (a b : ProtocolRequestId) → (id_beq a b ≡ true) ↔ (a ≡ b)
unfolding id_beq
id_beq_iff a b =
    ground (arith, bytes_beq_iff a.protocol b.protocol, nat_beq_iff a.request_id b.request_id)

instance abbrev pub id_eq : Eq ProtocolRequestId
id_eq = record { beq = id_beq; beq_iff = id_beq_iff }

-- The types of the library `libp2p`, which is not part of the repository: peer ids, the state of a
-- request-response behaviour, the channel on which a request is answered, the two kinds of failure,
-- and the actions that a behaviour asks for.
pub record Net : Type 1 where
  pub PeerId : Type 0
  pub Rq : Type 0
  pub Channel : Type 0
  pub OutboundFailure : Type 0
  pub InboundFailure : Type 0
  pub Action : Type 0

pub data RequestFailure (X : Net) : Type 0 where
  not_connected unknown_protocol refused obsolete : RequestFailure X
  network : X.OutboundFailure → RequestFailure X

-- When a peer is not connected.
pub data IfDisconnected : Type 0 where
  try_connect immediate_error : IfDisconnected

unfoldable pub should_connect : IfDisconnected → Bool
should_connect try_connect = true
should_connect immediate_error = false

-- `ProtocolConfig`; times are in seconds.
pub record ProtocolConfig : Type 0 where
  pub name : Name
  pub max_request_size : ℕ
  pub max_response_size : ℕ
  pub request_timeout : ℕ
  pub inbound_queue : Option ℕ

unfoldable pub new_config : Name → Option ℕ → ProtocolConfig
new_config name inbound_queue = record {
  name = name;
  max_request_size = 8 * 1024 * 1024;
  max_response_size = 10 * 1024;
  request_timeout = 20;
  inbound_queue = inbound_queue;
}

-- What is sent back for a request: `Result<Vec<u8>, ()>` and who is told when it is sent.
pub record OutgoingResponse : Type 0 where
  pub result : Response
  pub sent_feedback : Option ℕ

pub record IncomingMessage (PeerId : Type 0) : Type 0 where
  pub peer_id : PeerId
  pub peer_index : ℕ
  pub payload : List ℕ
  pub is_broadcast : Bool
  pub pending_response : ℕ
  pub context : MessageContext

-- `libp2p::request_response::RequestResponse`, which is not part of the repository. It numbers the
-- requests that it sends so that no number is given out twice.
pub record RequestResponse (X : Net) : Type 0 where
  -- From the limits on the two sizes, the name, whether requests are taken in, the request timeout and
  -- the time that a connection is kept.
  pub create : ℕ → ℕ → Name → Bool → ℕ → ℕ → X.Rq
  pub is_connected : X.Rq → X.PeerId → Bool
  pub send_request : X.Rq → X.PeerId → WireMessage → ℕ × X.Rq
  pub send_response : X.Rq → X.Channel → List ℕ → Bool × X.Rq
  pub issued : X.Rq → ℕ → Bool
  pub send_request-fresh :
      (r : X.Rq) (p : X.PeerId) (m : WireMessage) → issued r (send_request r p m).0 ≡ false
  pub send_request-issued :
      (r : X.Rq) (p : X.PeerId) (m : WireMessage)
      → issued (send_request r p m).1 (send_request r p m).0 ≡ true
  pub send_request-keeps :
      (r : X.Rq) (p : X.PeerId) (m : WireMessage) (k : ℕ)
      → issued r k ≡ true
      → issued (send_request r p m).1 k ≡ true
  pub send_response-keeps :
      (r : X.Rq) (c : X.Channel) (bs : List ℕ) (k : ℕ)
      → issued r k ≡ true
      → issued (send_response r c bs).1 k ≡ true

-- A request whose response is awaited from the application on the channel `response_rx`.
pub record PendingResponse (X : Net) : Type 0 where
  pub peer : X.PeerId
  pub request_id : ℕ
  pub protocol : Name
  pub inner_channel : X.Channel
  pub response_rx : ℕ

pub record Broadcast (X : Net) : Type 0 where
  pub protocols : List (Name × (X.Rq × Option ℕ))
  pub pending_requests : List (ProtocolRequestId × (ℕ × Option ℕ))
  pub pending_responses : List (PendingResponse X)
  pub pending_responses_arrival_time : List (ProtocolRequestId × ℕ)
  pub send_feedback : List (ProtocolRequestId × ℕ)

-- `Result<(PeerId, Vec<u8>), RequestFailure>`.
pub data Reply (X : Net) : Type 0 where
  replied : X.PeerId → List ℕ → Reply X
  failed : RequestFailure X → Reply X

-- What reaches a channel.
pub data Effect (X : Net) : Type 0 where
  reply : ℕ → Reply X → Effect X
  message : ℕ → IncomingMessage X.PeerId → Effect X
  feedback : ℕ → Effect X
