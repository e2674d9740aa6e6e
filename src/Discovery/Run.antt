-- ===== src/Discovery/Run.antt =====
-- The calls that the swarm makes of `DiscoveryBehaviour`, in any order, with the events that come out.
use tss_libp2p.Prelude.{List, [], ◌∷◌, Option, some, none}
use tss_libp2p.Peer.{PeerApi}
use tss_libp2p.Discovery.{
  Swarm, SwarmApi, Handed, DiscoveryOut, DiscoveryBehaviour, bootstrap, addresses_of_peer, hand_on,
  inject_connected, inject_disconnected, inject_connection_established, inject_connection_closed,
}
use tss_libp2p.Discovery.Poll.{
  KadAction, MdnsAction, Action, generate_event, dial_address, dial_peer, notify_handler,
  report_observed_addr, close_connection, poll,
}

pub data Call (X : Swarm) : Type 0 where
  connect disconnect : X.PeerId → Call X
  establish : X.PeerId → X.ConnectionId → X.ConnectedPoint → Option (List X.Multiaddr) → Call X
  close : X.PeerId → X.ConnectionId → X.ConnectedPoint → X.KadHandler → Call X
  -- One of the functions that only hand on.
  hand : Handed X → Call X
  ask_addresses : X.PeerId → Call X
  ask_bootstrap : Call X
  ask_poll : List (Option (KadAction X) × X.Kad) → List (Option (MdnsAction X) × X.Mdns) → Call X

-- The event among what a poll gives.
abbrev pub told : {X : Swarm} → Option (Action X) → Option (DiscoveryOut X.PeerId)
told none = none
told (some (generate_event ev)) = some ev
told (some (dial_address address handler)) = none
told (some (dial_peer p condition handler)) = none
told (some (notify_handler p conn ev)) = none
told (some (report_observed_addr address score)) = none
told (some (close_connection p connection)) = none

module _ {X : Swarm} ⦃peer : PeerApi X.PeerId⦄ (api : SwarmApi X) where
  unfoldable pub step :
      Call X → DiscoveryBehaviour X → Option (DiscoveryOut X.PeerId) × DiscoveryBehaviour X
  step (connect p) d = (none, inject_connected api p d)
  step (disconnect p) d = (none, inject_disconnected api p d)
  step (establish p conn endpoint failed) d =
      (none, inject_connection_established api p conn endpoint failed d)
  step (close p conn endpoint handler) d =
      (none, inject_connection_closed api p conn endpoint handler d)
  step (hand call) d = (none, hand_on api call d)
  step (ask_addresses p) d = (none, (addresses_of_peer api p d).1)
  step ask_bootstrap d = (none, (bootstrap api d).1)
  step (ask_poll kad mdns) d = let (a, d1) = poll api kad mdns d in (told a, d1)

  unfoldable pub run :
      List (Call X)
      → DiscoveryBehaviour X
      → List (Option (DiscoveryOut X.PeerId)) × DiscoveryBehaviour X
  unfolding step
  run [] d = ([], d)
  run (c ∷ cs) d = let (out, d1) = step c d in let (outs, d2) = run cs d1 in (out ∷ outs, d2)
