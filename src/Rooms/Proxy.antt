-- ===== src/Rooms/Proxy.antt =====
-- What the proxy does with a message of the network.
use tss_libp2p.Prelude.{
  ℕ, ◌≤◌, ◌≡◌, refl, some, none, Bool, true, false, length, Nodup, inl, inr, Option-cases,
}
use tss_libp2p.Peer.{PeerApi}
use tss_libp2p.Io.{IoResult, ok, panic}
use tss_libp2p.Broadcast.{IncomingMessage}
use tss_libp2p.Peerset.{index_of, peer_at}
use tss_libp2p.Peerset.Index.{index_of-iff-peer_at}
use tss_libp2p.Rooms.{ReceiverProxy, ProxyPoll, poll_proxy, forward}

module _ {PeerId : Type 0} ⦃api : PeerApi PeerId⦄ where
  -- While a computation runs, in a peer set without repeats of at most 65536 peers: a message whose
  -- sender stands at position `i` of the set is handed on with that position as its index and
  -- otherwise unchanged, if the channel to the computation takes it; if the channel does not, the
  -- message is lost and the proxy goes on as if nothing had come; and a message from a peer that is
  -- not in the set is a panic, whether the channel takes messages or not.
  pub poll_proxy_outcome :
      (proxy : ReceiverProxy PeerId) (rx rpc : ℕ) (msg : IncomingMessage PeerId)
      → proxy.rx ≡ some rx
      → Nodup proxy.parties.session_peers
      → length proxy.parties.session_peers ≤ 65536
      → let polled : Bool → IoResult (ProxyPoll PeerId) = λ takes.
        poll_proxy
          (record { is_closed = false; next = some msg; takes = takes; rpc = rpc })
          proxy in
        ((i : ℕ)
          → peer_at proxy.parties i ≡ ok msg.peer_id
          → (polled true ≡ ok (proxy, some (record msg { peer_index = i }), none))
            × (polled false ≡ ok (proxy, none, none)))
        × (((i : ℕ) → ¬ (peer_at proxy.parties i ≡ ok msg.peer_id))
            → (takes : Bool) → polled takes ≡ panic)
  unfolding poll_proxy forward
  poll_proxy_outcome proxy rx rpc msg waits apart few = (
    λ i h.
        let at_i = (index_of-iff-peer_at proxy.parties msg.peer_id i apart few).1 h in
        (rw (waits, at_i) refl, rw (waits, at_i) refl),
    λ stranger takes. elim (Option-cases (index_of proxy.parties msg.peer_id)) [
      | inl missing ↦ rw (waits, missing) refl
      | inr (i, found) ↦
          absurd (stranger i ((index_of-iff-peer_at proxy.parties msg.peer_id i apart few).0 found))
    ],
  )
