-- ===== src/Execution/Addresses.antt =====
-- How a computation's parties are addressed, and what an incoming message becomes.
use tss_libp2p.Prelude.{
  ℕ, ◌+◌, ◌-◌, ◌%◌, ◌≤◌, ◌<◌, ◌≡◌, refl, ap, arith, [], ◌∷◌, ◌++◌, some, none, true, false, length,
  Nodup,
}
use tss_libp2p.Peer.{PeerApi}
use tss_libp2p.Io.{ok}
use tss_libp2p.Messages.{computation}
use tss_libp2p.Broadcast.{IncomingMessage}
use tss_libp2p.Service.{to_one}
use tss_libp2p.Peerset.{index_of, peer_at}
use tss_libp2p.Peerset.Index.{index_of-iff-peer_at}
use tss_libp2p.Rooms.{ReceiverProxy, poll_proxy}
use tss_libp2p.Rooms.Proxy.{poll_proxy_outcome}
use tss_libp2p.Execution.{
  ProtocolExecution, ExecInput, send, told, to_protocol, acknowledge, OutgoingMessage,
  point_to_point, send_out, take_in, party_number,
}

module _ {PeerId : Type 0} ⦃api : PeerApi PeerId⦄ where
  -- In a peer set without repeats of at most 65535 peers, a message of the computation to party `k`
  -- goes to the one peer whose own messages, where the channels take them, the proxy of the same peer set
  -- hands on so that they reach the computation as coming from party `k`.
  pub send_out-take_in :
      (st : ProtocolExecution PeerId) (proxy : ReceiverProxy PeerId) (inp : ExecInput PeerId)
      (out : OutgoingMessage) (k rx rpc : ℕ) (p : PeerId) (back : IncomingMessage PeerId)
      → Nodup st.parties.session_peers
      → length st.parties.session_peers ≤ 65535
      → proxy.parties ≡ st.parties
      → proxy.rx ≡ some rx
      → 0 < k
      → k ≤ 65535
      → out.to ≡ point_to_point k
      → index_of st.parties p ≡ some (k - 1)
      → back.peer_id ≡ p
      → back.is_broadcast ≡ false
      → inp.protocol_takes ≡ true
      → (send_out inp out st
          ≡ ok (
              told out.sent
              ++ (send (record {
                room_id = st.room_id;
                context = record {
                  message_type = computation;
                  session_id = st.session_id;
                  protocol_id = st.protocol_id;
                };
                message = to_one p out.body inp.res_chan;
              })
                  ∷ [])))
        × ((handed : IncomingMessage PeerId) × (poll_proxy
                (record { is_closed = false; next = some back; takes = true; rpc = rpc })
                proxy
              ≡ ok (proxy, some handed, none))
            × (take_in inp handed st
                ≡ ok (
                    acknowledge back.pending_response
                    ∷ to_protocol (record {
                      from = k;
                      to = point_to_point (party_number st.i);
                      body = back.payload;
                    })
                    ∷ [])))
  unfolding send_out take_in
  send_out-take_in st proxy inp out k rx rpc p back apart few same waits low high to_k at_k from_p
        direct open_chan =
      let there : peer_at st.parties (k - 1) ≡ ok p =
        (index_of-iff-peer_at st.parties p (k - 1) apart (omega arith)).0 at_k in
      let number : (k + 65535) % 65536 ≡ k - 1 = omega arith in
      let party : party_number (k - 1) ≡ k = omega arith in
      let handed : IncomingMessage PeerId = record back { peer_index = k - 1 } in
      let proxied =
        (poll_proxy_outcome proxy rx rpc back waits (rw same apart)
            (omega (arith, ap (λ ps. length ps.session_peers) same, few))).0
          (k - 1) (rw (same, from_p) there) in
      (rw (to_k, number, there) refl, (handed, proxied.0, rw (direct, open_chan, party) refl))
