-- ===== src/Examples.antt =====
-- Concrete instances of the libraries' interfaces, for the examples below: they meet the assumptions.
mod Peers
mod Wire
mod Echoes
mod Requests
mod Sessions
mod Daemons
mod Nodes
mod Calls
mod Loop
mod Lives
mod Setups
use tss_libp2p.Prelude.{
  ℕ, suc, List, [], ◌∷◌, ◌≡◌, refl, arith, Option, some, none, Bool, true, false, length, ltb,
  nat_beq, nat_beq_iff, if◌then◌else◌, replicate, All,
}
use tss_libp2p.Peer.{PeerApi}
use tss_libp2p.Peerset.Bytes.{Has38}
use tss_libp2p.Messages.{WireMessage, MessageContext, coordination, computation}
use tss_libp2p.Broadcast.{Net, RequestResponse}

-- A peer is a number, written as the first of 38 bytes.
abbrev pub first_byte : List ℕ → Option ℕ
first_byte [] = none
first_byte (b ∷ bs) = if nat_beq (length (b ∷ bs)) 38 then some b else none

instance abbrev pub numbered_peers : PeerApi ℕ
numbered_peers = record {
  beq = nat_beq;
  beq_iff = nat_beq_iff;
  to_bytes = λ p. p ∷ replicate 37 0;
  from_bytes = first_byte;
  from_bytes-to_bytes = λ p. refl;
}

pub All-Has38 : (ps : List ℕ) → All (Has38 {PeerId = ℕ}) ps
All-Has38 [] = tt
All-Has38 (p ∷ ps) = (refl, All-Has38 ps)

abbrev pub plain_net : Net
plain_net = record {
  PeerId = ℕ;
  Rq = ℕ;
  Channel = ℕ;
  OutboundFailure = ℕ;
  InboundFailure = ℕ;
  Action = ℕ;
}

issued_keeps : (r k : ℕ) → ltb k r ≡ true → ltb k (suc r) ≡ true
issued_keeps r k h = ground arith

not_yet : (r : ℕ) → ltb r r ≡ false
not_yet r = ground arith

now_issued : (r : ℕ) → ltb r (suc r) ≡ true
now_issued r = ground arith

-- Requests are numbered in order; peer 1 alone is connected.
abbrev pub counting : RequestResponse plain_net
unfolding not_yet now_issued issued_keeps
counting = record {
  create = λ a b c d e f. 0;
  is_connected = λ r p. nat_beq p 1;
  send_request = λ r p m. (r, suc r);
  send_response = λ r c bs. (true, r);
  issued = λ r k. ltb k r;
  send_request-fresh = λ r p m. not_yet r;
  send_request-issued = λ r p m. now_issued r;
  send_request-keeps = λ r p m k h. issued_keeps r k h;
  send_response-keeps = λ r c bs k h. h;
}

abbrev pub hello : WireMessage
hello = record {
  context = record { message_type = computation; session_id = 300; protocol_id = 7 };
  payload = 10 ∷ 20 ∷ [];
  is_broadcast = true;
}
