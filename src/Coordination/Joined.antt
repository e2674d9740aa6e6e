-- ===== src/Coordination/Joined.antt =====
-- The joiner's side of a start message.
use tss_libp2p.Prelude.{
  ◌-◌, ℕ, ◌≤◌, ◌<◌, ◌≡◌, refl, sym, ap, ◌∙◌, List, length, some, none, All, arith,
}
use tss_libp2p.Peer.{PeerApi}
use tss_libp2p.Io.{ok, ◌>>=◌}
use tss_libp2p.Messages.{coordination}
use tss_libp2p.Varint.{VarintApi}
use tss_libp2p.Broadcast.{IncomingMessage}
use tss_libp2p.Peerset
use tss_libp2p.Peerset.Bytes.{Has38}
use tss_libp2p.Peerset.Fresh.{new-IsWire, length-sorted}
use tss_libp2p.StartMsg.{StartMsg}
use tss_libp2p.StartMsg
use tss_libp2p.StartMsg.RoundTrip.{frame, from_bytes-to_bytes_frame}
use tss_libp2p.Negotiation.Quorum.{new_proxied}
use tss_libp2p.Coordination.{Phase2Chan, Phase2Input, begun, poll_phase2, join_start}

module _ {PeerId : Type 0} ⦃api : PeerApi PeerId⦄ (varint : VarintApi) where
  -- The start message of a proposer for the peers `members`.
  abbrev pub proposal : List PeerId → PeerId → ℕ → List ℕ → StartMsg PeerId
  proposal members proposer chan args = record {
    parties = (Peerset.new members proposer chan).0;
    body = args;
  }

  decoded :
      (members : List PeerId) (proposer joiner : PeerId) (c chan : ℕ) (args payload : List ℕ)
      → All (Has38 {PeerId = PeerId}) members
      → length members ≤ 210
      → length (frame varint (proposal members proposer c args)) < 8192
      → StartMsg.to_bytes varint (proposal members proposer c args) ≡ ok payload
      → StartMsg.from_bytes varint payload joiner chan
        ≡ ok (proposal members joiner chan args, chan)
  unfolding Peerset.new
  decoded members proposer joiner c chan args payload ids few small encoded =
      let trip =
        from_bytes-to_bytes_frame varint (proposal members proposer c args) joiner chan
          (new-IsWire members proposer c ids (omega arith)) (omega (arith, length-sorted members))
          small in
      sym (ap (λ m. m >>= λ b. StartMsg.from_bytes varint b joiner chan) encoded) ∙ trip

  -- A node that waits for the start message and gets the one of a proposer for 1 to 210 members, whose
  -- bytes stay below the buffer of 8192, begins the computation with the peer set that it would itself
  -- make from the same members, and with the arguments of the proposer.
  pub poll_phase2-start :
      (ch : Phase2Chan PeerId) (rx : ℕ) (inp : Phase2Input PeerId) (msg : IncomingMessage PeerId)
      (members : List PeerId) (proposer : PeerId) (c : ℕ) (args : List ℕ)
      → ch.rx ≡ some rx
      → inp.next ≡ some msg
      → msg.context.message_type ≡ coordination
      → StartMsg.to_bytes varint (proposal members proposer c args) ≡ ok msg.payload
      → All (Has38 {PeerId = PeerId}) members
      → 0 < length members
      → length members ≤ 210
      → length (frame varint (proposal members proposer c args)) < 8192
      → let (parties, peerset_rx) = Peerset.new members ch.service.local_peer_id inp.peerset_chan in
        poll_phase2 varint inp ch
        ≡ ok (
          record ch { rx = none },
          some (
              begun ch.id inp.proxy_chan
                (record {
                  id = ch.id;
                  rx = some rx;
                  tx = inp.proxy_chan;
                  capacity = Peerset.size parties - 1;
                  service = ch.service;
                  parties = parties;
                })
                parties
                peerset_rx
                args),
        )
  unfolding poll_phase2 join_start Peerset.new
  poll_phase2-start ch rx inp msg members proposer c args waits arrived kind encoded ids some_member
        few small =
      let joiner = ch.service.local_peer_id in
      let e =
        decoded members proposer joiner c inp.peerset_chan args msg.payload ids few small encoded in
      let p =
        new_proxied ch.id rx ch.service members joiner inp.peerset_chan inp.proxy_chan
          some_member in
      rw (waits, arrived, kind) (rw (e, join_start) (rw (waits, p) refl))
