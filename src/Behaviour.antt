-- ===== src/Behaviour.antt =====
-- node/network/src/behaviour.rs: `Behaviour`, which joins discovery and the request-response behaviour,
-- and of service.rs `NetworkWorker::new`, the requests of its loop, and the methods of
-- `NetworkService`. Ping and identify only log. What a method of the service sends to the worker is
-- its result; the channel has no bound.
pub mod Started
pub mod Reach
use tss_libp2p.Prelude.{ℕ, List, [], ◌∷◌, ◌++◌, Option, some, none}
use tss_libp2p.Peer.{PeerApi}
use tss_libp2p.Io.{IoResult, ok, ◌>>=◌}
use tss_libp2p.Config.{Params, RoomArgs}
use tss_libp2p.Config.Keys.{KeyApi, Secret, Keypair, into_keypair}
use tss_libp2p.Config.Files.{Files}
use tss_libp2p.Messages.{MessageContext}
use tss_libp2p.Broadcast.{
  Net, Name, ProtocolConfig, new_config, RequestResponse, Broadcast, Effect, IfDisconnected,
}
use tss_libp2p.Broadcast.Send
use tss_libp2p.Broadcast.Send.{Registered, registered, duplicate_protocol}
use tss_libp2p.Broadcast.Events.{
  BroadcastOut, inbound_answered, inbound_failed, finished, unfinished,
}
use tss_libp2p.Service.{
  RoomId, as_protocol_id, NetworkService, NetworkMessage, to_all, to_many, to_one, on_message,
}
use tss_libp2p.Discovery.{Swarm, SwarmApi, DiscoveryOut, DiscoveryBehaviour, Bootstrapped}
use tss_libp2p.Discovery

-- `BehaviourOut::InboundMessage`.
pub record BehaviourOut (PeerId : Type 0) : Type 0 where
  pub peer : PeerId
  pub protocol : Name

-- The types of discovery, with the peers of the request-response behaviour.
abbrev pub over : Net → Swarm → Swarm
over X S = record S { PeerId = X.PeerId }

pub record Behaviour (X : Net) (S : Swarm) : Type 0 where
  pub discovery : DiscoveryBehaviour (over X S)
  pub broadcast : Broadcast X
  pub events : List (BehaviourOut X.PeerId)

module _ {X : Net} {S : Swarm} where
  -- Known peers: those of all rooms.
  unfoldable pub peers : RoomId → Behaviour X S → List X.PeerId
  peers room_id b = b.discovery.peers

  -- `Behaviour::poll`: the first event that waits.
  unfoldable pub poll : Behaviour X S → Option (BehaviourOut X.PeerId) × Behaviour X S
  poll b = elim b.events [ [] ↦ (none, b) | ev ∷ evs ↦ (some ev, record b { events = evs }) ]

  -- `inject_event` for an event of the request-response behaviour.
  unfoldable pub on_broadcast_out : BroadcastOut X → Behaviour X S → Behaviour X S
  on_broadcast_out (inbound_answered p protocol took) b = record b {
    events = b.events ++ (record { peer = p; protocol = protocol } ∷ []);
  }
  on_broadcast_out (inbound_failed p protocol e) b = record b {
    events = b.events ++ (record { peer = p; protocol = protocol } ∷ []);
  }
  on_broadcast_out (finished p protocol took) b = b
  on_broadcast_out (unfinished p protocol took e) b = b

  -- `inject_event` for an event of discovery.
  unfoldable pub on_discovery_out : DiscoveryOut X.PeerId → Behaviour X S → Behaviour X S
  on_discovery_out (DiscoveryOut.connected p) b = b
  on_discovery_out (DiscoveryOut.disconnected p) b = b

module _ {X : Net} (rr : RequestResponse X) {S : Swarm} where
  unfoldable pub send_message :
      ℕ
      → X.PeerId
      → List ℕ
      → RoomId
      → MessageContext
      → ℕ
      → IfDisconnected
      → Behaviour X S
      → Behaviour X S × List (Effect X)
  send_message now target payload room_id ctx pending_response connect b =
      let (b1, es) =
        Send.send_message rr now b.broadcast target (as_protocol_id room_id) ctx payload
          pending_response connect in
      (record b { broadcast = b1 }, es)

  unfoldable pub broadcast_message :
      ℕ
      → List X.PeerId
      → List ℕ
      → RoomId
      → MessageContext
      → Option ℕ
      → IfDisconnected
      → Behaviour X S
      → Behaviour X S × List (Effect X)
  broadcast_message now targets payload room_id ctx pending_response connect b =
      let (b1, es) =
        Send.broadcast_message rr now b.broadcast targets (as_protocol_id room_id) ctx payload
          pending_response connect in
      (record b { broadcast = b1 }, es)

  -- The worker takes a request of the service: who is known is asked of discovery.
  unfoldable pub on_request :
      ℕ → NetworkMessage X.PeerId → Behaviour X S → Behaviour X S × List (Effect X)
  unfolding on_message peers
  on_request now m b =
      let (b1, es) = on_message rr now (peers m.room_id b) m b.broadcast in
      (record b { broadcast = b1 }, es)

-- One protocol for each room.
unfoldable pub protocols_of :
    {PeerId Multiaddr : Type 0} → List (RoomArgs PeerId Multiaddr) → List ProtocolConfig
protocols_of [] = []
protocols_of (rc ∷ rooms) = new_config (as_protocol_id rc.id) rc.inbound_queue ∷ protocols_of rooms

module _ {X : Net} ⦃peer : PeerApi X.PeerId⦄ (rr : RequestResponse X) {S : Swarm}
    (api : SwarmApi (over X S)) where
  -- `Behaviour::new`.
  unfoldable pub new :
      X.PeerId
      → List ProtocolConfig
      → Params X.PeerId S.Multiaddr
      → Option S.Mdns
      → IoResult (Registered (Behaviour X S))
  new local_peer_id protocols params mdns = elim (Send.new rr protocols) [
    | duplicate_protocol name ↦ ok (duplicate_protocol name)
    | registered b ↦ Discovery.new api local_peer_id params mdns >>= λ d.
        ok (registered (record { discovery = d; broadcast = b; events = [] }))
  ]

  unfoldable pub bootstrap : Behaviour X S → Bootstrapped S.QueryId × Behaviour X S
  bootstrap b =
      let (result, d) = Discovery.bootstrap api b.discovery in (result, record b { discovery = d })

  -- `NetworkWorker::new`, up to the transport: `peer_of` is the peer id of a public key.
  unfoldable pub new_worker :
      {Key : Type 0}
      → KeyApi Key
      → (Keypair Key → X.PeerId)
      → Secret Key
      → Key
      → Params X.PeerId S.Multiaddr
      → Option S.Mdns
      → Files
      → IoResult (Registered (Behaviour X S × NetworkService X.PeerId) × Files)
  unfolding new protocols_of
  new_worker keys peer_of node_key generated params mdns files = do
    (keypair, files1) ← into_keypair keys node_key generated files
    let local_peer_id = peer_of keypair
    made ← new local_peer_id (protocols_of params.rooms) params mdns
    ok (
      elim made [
        | duplicate_protocol name ↦ duplicate_protocol name
        | registered b ↦ registered (b, record { local_peer_id = local_peer_id })
      ],
      files1,
    )

-- The methods of `NetworkService`.
module _ {PeerId : Type 0} (service : NetworkService PeerId) where
  unfoldable pub service_broadcast :
      RoomId → MessageContext → List ℕ → Option ℕ → NetworkMessage PeerId
  service_broadcast room_id context payload response_sender = record {
    room_id = room_id;
    context = context;
    message = to_all payload response_sender;
  }

  unfoldable pub service_broadcast_owned :
      RoomId → MessageContext → List ℕ → Option ℕ → NetworkMessage PeerId
  service_broadcast_owned room_id context payload response_sender = record {
    room_id = room_id;
    context = context;
    message = to_all payload response_sender;
  }

  unfoldable pub service_multicast :
      RoomId → List PeerId → MessageContext → List ℕ → Option ℕ → NetworkMessage PeerId
  service_multicast room_id peer_ids context payload response_sender = record {
    room_id = room_id;
    context = context;
    message = to_many peer_ids payload response_sender;
  }

  unfoldable pub service_multicast_owned :
      RoomId → List PeerId → MessageContext → List ℕ → Option ℕ → NetworkMessage PeerId
  service_multicast_owned room_id peer_ids context payload response_sender = record {
    room_id = room_id;
    context = context;
    message = to_many peer_ids payload response_sender;
  }

  unfoldable pub service_send :
      RoomId → PeerId → MessageContext → List ℕ → ℕ → NetworkMessage PeerId
  service_send room_id target context payload response_sender = record {
    room_id = room_id;
    context = context;
    message = to_one target payload response_sender;
  }

  unfoldable pub service_send_owned :
      RoomId → PeerId → MessageContext → List ℕ → ℕ → NetworkMessage PeerId
  service_send_owned room_id target context payload response_sender = record {
    room_id = room_id;
    context = context;
    message = to_one target payload response_sender;
  }
