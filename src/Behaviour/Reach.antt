-- ===== src/Behaviour/Reach.antt =====
-- Whom a broadcast of the service reaches.
use tss_libp2p.Prelude.{
  true, Nodup, subst, sym, ℕ, List, [], Option, some, false, ◌||◌, ◌≡◌, ap, if◌then◌else◌, ◌∙◌,
}
use tss_libp2p.Peer.{PeerApi}
use tss_libp2p.HashMap
use tss_libp2p.HashSet.{contains}
use tss_libp2p.Config.{Params}
use tss_libp2p.Messages.{MessageContext}
use tss_libp2p.Broadcast.{Net, name_eq, RequestResponse}
use tss_libp2p.Broadcast.Pending.{IsNumbered}
use tss_libp2p.Broadcast.Many.{SentToEach, broadcast_message_outcome}
use tss_libp2p.Service.{RoomId, NetworkService, as_protocol_id, on_message}
use tss_libp2p.Discovery.{Swarm, SwarmApi, DiscoveryBehaviour, boot_peers_of}
use tss_libp2p.Discovery
use tss_libp2p.Discovery.Run.{Call, run}
use tss_libp2p.Discovery.Distinct.{known-Nodup}
use tss_libp2p.Io.{ok}
use tss_libp2p.Discovery.Known.{is_boot, was_connected, known_after}
use tss_libp2p.Behaviour.{Behaviour, over, peers, on_request, service_broadcast}

module _ {X : Net} ⦃peer : PeerApi X.PeerId⦄ (rr : RequestResponse X) {S : Swarm}
    (api : SwarmApi (over X S)) where
  -- After any calls of a new discovery, where every pending request has a number that its protocol has
  -- given out: a broadcast of the service in an open room asks the room's protocol to send the payload,
  -- marked as a broadcast, to each known peer in turn, and each peer is known once. Each of these
  -- requests is pending afterwards with the channel for its response, all requests that were pending
  -- still are, there are no others, and the broadcast fails for nobody at once. Known are the boot
  -- peers of all rooms, if Kademlia is on, and all peers that have ever been connected: the room of the
  -- broadcast and later disconnections play no part.
  pub on_request_reach :
      (me : X.PeerId) (params : Params X.PeerId S.Multiaddr) (mdns : Option S.Mdns)
      (d0 : DiscoveryBehaviour (over X S)) (cs : List (Call (over X S))) (b : Behaviour X S)
      (service : NetworkService X.PeerId) (now : ℕ) (room_id : RoomId) (ctx : MessageContext)
      (payload : List ℕ) (tx queue : Option ℕ) (rq : X.Rq)
      → Discovery.new api me params mdns ≡ ok d0
      → b.discovery ≡ (run api cs d0).1
      → IsNumbered rr b.broadcast
      → HashMap.get (as_protocol_id room_id) b.broadcast.protocols ≡ some (rq, queue)
      → let (b1, es) = on_request rr now (service_broadcast service room_id ctx payload tx) b in
        (es ≡ [])
        × SentToEach rr now
            (as_protocol_id room_id)
            (record { context = ctx; payload = payload; is_broadcast = true })
            tx
            rq
            queue
            (peers room_id b)
            b.broadcast
            b1.broadcast
        × Nodup (peers room_id b)
        × ((p : X.PeerId)
            → contains p (peers room_id b) ≡ (
                (if params.kademlia then is_boot p (boot_peers_of params.rooms) else false)
                || was_connected p cs))
  unfolding on_request service_broadcast on_message peers
  on_request_reach me params mdns d0 cs b service now room_id ctx payload tx queue rq made found
        numbered open_room =
      let (quiet, sent) =
        broadcast_message_outcome rr now b.broadcast (peers room_id b) (as_protocol_id room_id) ctx
          payload tx rq queue numbered open_room in
      (
        quiet,
        sent,
        subst (λ d. Nodup d.peers) (sym found) (known-Nodup api me params mdns d0 cs made),
        λ p. ap (λ d. contains p d.peers) found ∙ known_after api me params mdns d0 cs p made,
      )
