-- ===== src/Negotiation/Quorum.antt =====
-- What one poll of a negotiation does, short of the number of peers and at it.

use tss_libp2p.Prelude.{
  ◌-◌, ℕ, ◌<◌, ◌≡◌, ◌≢◌, refl, arith, List, [], ◌∷◌, ◌++◌, length, Option, some, none, false,
  nat_beq_iff,
}
use tss_libp2p.Peer.{PeerApi, peer_eq}
use tss_libp2p.Io.{IoResult, ok, write_all, new_writer}
use tss_libp2p.Varint.{VarintApi}
use tss_libp2p.Broadcast.{Net, Reply, replied, failed}
use tss_libp2p.Service.{RoomId, NetworkService, NetworkMessage, to_many}
use tss_libp2p.Peerset.Bytes.{wire}
use tss_libp2p.Peerset.Fresh.{length-range, length-sorted}
use tss_libp2p.Peerset
use tss_libp2p.Peerset.{range, sorted_by_id, id_le}
use tss_libp2p.Peerset.RoundTrip.{to_bytes_outcome}
use tss_libp2p.StartMsg
use tss_libp2p.Rooms.{ComputeAgent, new_proxy}
use tss_libp2p.Negotiation.{
  set_insert, NegotiationState, NegotiationChan, NegotiationInput, NegotiationPoll, start,
  negotiate, context_of, receive, begin, wait,
}
use tss_libp2p.Negotiation.Members.{join}

elim-some :
    {A B : Type 0} (o : Option A) (b c : B) {a : A}
    → o ≡ some a
    → elim o [ none ↦ b | some _ ↦ c ] ≡ c
elim-some none b c h = cc
elim-some (some a) b c h = refl

-- The bytes of a new peer set, and that a proxy can be made for it.
module _ {P : Type 0} ⦃api : PeerApi P⦄ where
  abbrev wire_new : List P → List ℕ
  wire_new peers = wire (sorted_by_id peers) (range 0 (length (sorted_by_id peers)))

  new_encoded :
      (varint : VarintApi) (peers : List P) (local : P) (chan : ℕ) (args : List ℕ)
      → (payload : List ℕ) × (StartMsg.to_bytes varint
            (record { parties = (Peerset.new peers local chan).0; body = args })
          ≡ ok payload)
  unfolding StartMsg.to_bytes Peerset.new
  new_encoded varint peers local chan args =
      let bytes =
        (to_bytes_outcome (Peerset.new peers local chan).0).0
          (omega (arith, length-range 0 (length (sorted_by_id peers)))) in
      let framed = write_all (varint.encode (length (wire_new peers))) new_writer in
      let body_framed =
        write_all (varint.encode (length args)) (write_all (wire_new peers) framed) in
      ((write_all args body_framed).buffer, rw bytes refl)

  pub new_proxied :
      (room : RoomId) (rx : ℕ) (service : NetworkService P) (peers : List P) (local : P)
      (chan pchan : ℕ)
      → 0 < length peers
      → new_proxy room rx service (Peerset.new peers local chan).0 pchan
        ≡ ok (
          record {
            id = room;
            rx = some rx;
            tx = pchan;
            capacity = Peerset.size (Peerset.new peers local chan).0 - 1;
            service = service;
            parties = (Peerset.new peers local chan).0;
          },
          pchan,
        )
  unfolding new_proxy Peerset.new Peerset.size
  new_proxied room rx service peers local chan pchan h =
      ground (arith, length-sorted peers, nat_beq_iff (length (sorted_by_id peers)) 0)

-- A negotiation that has asked the peers, with those that have joined and the messages to send.
abbrev pub collecting :
    {P : Type 0}
    → ℕ
    → ComputeAgent
    → NegotiationState P
    → List (NetworkMessage P)
    → List P
    → NegotiationChan P
collecting rx agent st pending peers = record {
  rx = some rx;
  agent = some agent;
  state = some (record st { peers = peers; pending = pending });
}

module _ {X : Net} ⦃api : PeerApi X.PeerId⦄ (varint : VarintApi) (rx : ℕ) (agent : ComputeAgent)
    (st : NegotiationState X.PeerId) where
  -- A poll's output that begins the computation of `parties`: the start message goes to them, and the
  -- room is handed over.
  pub record Begins (pending : List (NetworkMessage X.PeerId)) (members : List X.PeerId)
      (last : NegotiationInput X) (out : IoResult (NegotiationPoll X.PeerId)) : Type 0 where
    pub payload : List ℕ
    pub encoded :
        StartMsg.to_bytes varint (record {
          parties = (Peerset.new members st.service.local_peer_id last.peerset_chan).0;
          body = st.args;
        })
        ≡ ok payload
    pub result :
        let (parties, peerset_rx) =
          Peerset.new members st.service.local_peer_id last.peerset_chan in
        out
        ≡ ok (
          record { rx = none; agent = none; state = none },
          pending
              ++ (record {
                room_id = st.id;
                context = context_of agent;
                message = to_many members payload none;
              }
                  ∷ []),
          some (
              start agent st.on_done last.proxy_chan
                (record {
                  id = st.id;
                  rx = some rx;
                  tx = last.proxy_chan;
                  capacity = Peerset.size parties - 1;
                  service = st.service;
                  parties = parties;
                })
                parties
                peerset_rx
                st.args),
        )

  -- Short of the number, a poll in time waits.
  pub receive_short :
      (r : Option (Reply X)) (i : NegotiationInput X) (pending : List (NetworkMessage X.PeerId))
      (peers : List X.PeerId)
      → i.is_over ≡ false
      → length (join r peers) ≢ st.n
      → receive varint r i
          (record st { peers = peers; pending = pending })
          (collecting rx agent st pending peers)
        ≡ ok (collecting rx agent st [] (join r peers), pending, none)
  unfolding receive wait
  receive_short none i pending peers in_time short = rw in_time refl
  receive_short (some (failed e)) i pending peers in_time short = rw in_time refl
  receive_short (some (replied p b)) i pending peers in_time short =
      ground (arith, in_time, nat_beq_iff (length (set_insert p peers)) st.n)

  pub negotiate-receive :
      (chan : ℕ × ℕ) (i : NegotiationInput X) (pending : List (NetworkMessage X.PeerId))
      (peers : List X.PeerId)
      → st.responses ≡ some chan
      → negotiate varint i (collecting rx agent st pending peers)
        ≡ receive varint i.reply i
            (record st { peers = peers; pending = pending })
            (collecting rx agent st pending peers)
  unfolding negotiate
  negotiate-receive chan i pending peers asked = elim-some st.responses _ _ asked

  -- The reply that makes the number begins the computation.
  begin_new :
      (i : NegotiationInput X) (pending : List (NetworkMessage X.PeerId))
      (peers members : List X.PeerId)
      → 0 < length members
      → Begins pending members i (
          begin varint i
            (record st { peers = members; pending = pending })
            (collecting rx agent st pending peers))
  unfolding begin
  begin_new i pending peers members some_member =
      let (payload, encoded) =
        new_encoded varint members st.service.local_peer_id i.peerset_chan st.args in
      let proxied =
        new_proxied st.id rx st.service members st.service.local_peer_id i.peerset_chan i.proxy_chan
          some_member in
      record { payload = payload; encoded = encoded; result = rw (encoded, proxied) refl }

  pub receive_full :
      (r : Option (Reply X)) (i : NegotiationInput X) (pending : List (NetworkMessage X.PeerId))
      (peers : List X.PeerId)
      → length peers < st.n
      → length (join r peers) ≡ st.n
      → Begins pending (join r peers) i (
          receive varint r i
            (record st { peers = peers; pending = pending })
            (collecting rx agent st pending peers))
  unfolding receive
  receive_full none i pending peers few full = absurd (omega arith)
  receive_full (some (failed e)) i pending peers few full = absurd (omega arith)
  receive_full (some (replied p b)) i pending peers few full =
      rw ((nat_beq_iff (length (set_insert p peers)) st.n).1 full)
        (begin_new i pending peers (set_insert p peers) (omega arith))
