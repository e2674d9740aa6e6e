-- ===== src/Discovery.antt =====
-- node/network/src/discovery.rs: `DiscoveryBehaviour`, which keeps the peers that are known and tells
-- of connections. Discovery.Poll has its `poll`, Discovery.Run its calls in any order.
pub mod Poll
pub mod Run
pub mod Quiet
pub mod Refine
pub mod Known
pub mod Distinct
use tss_libp2p.Prelude.{
  ℕ, ◌+◌, ◌-◌, ◌%◌, ◌^◌, List, [], ◌∷◌, ◌++◌, Option, some, none, Bool, if◌then◌else◌, ◌==◌,
}
use tss_libp2p.Peer.{PeerApi, peer_eq}
use tss_libp2p.HashMap
use tss_libp2p.HashSet.{set_insert}
use tss_libp2p.Io.{IoResult, ok, panic}
use tss_libp2p.Config.{MultiaddrWithPeerId, RoomArgs, Params}

-- The types of `libp2p` that discovery handles, which are not part of the repository: the states of
-- Kademlia and mDNS, and what is only handed on.
pub record Swarm : Type 1 where
  pub PeerId : Type 0
  pub Multiaddr : Type 0
  pub Kad : Type 0
  pub Mdns : Type 0
  pub QueryId : Type 0
  pub KadHandler : Type 0
  pub KadEvent : Type 0
  pub KadIn : Type 0
  pub MdnsHandler : Type 0
  pub MdnsIn : Type 0
  pub Condition : Type 0
  pub ConnectionId : Type 0
  pub ConnectedPoint : Type 0
  pub Closing : Type 0
  pub Score : Type 0
  pub ListenerId : Type 0
  pub DialError : Type 0
  pub ListenError : Type 0

-- The functions of `NetworkBehaviour` that discovery hands on to Kademlia.
pub data Handed (X : Swarm) : Type 0 where
  connected disconnected : X.PeerId → Handed X
  connection_established :
      X.PeerId → X.ConnectionId → X.ConnectedPoint → Option (List X.Multiaddr) → Handed X
  connection_closed : X.PeerId → X.ConnectionId → X.ConnectedPoint → X.KadHandler → Handed X
  event : X.PeerId → X.ConnectionId → X.KadEvent → Handed X
  dial_failure : Option X.PeerId → X.KadHandler → X.DialError → Handed X
  new_listen_addr expired_listen_addr : X.ListenerId → X.Multiaddr → Handed X
  listener_error : X.ListenerId → X.ListenError → Handed X
  listener_closed : X.ListenerId → Option X.ListenError → Handed X
  new_external_addr : X.Multiaddr → Handed X

-- `Kademlia` and `Mdns`, of which nothing is relied on; a function that may change the state gives the
-- new one.
pub record SwarmApi (X : Swarm) : Type 0 where
  pub with_config : X.PeerId → X.Kad
  pub add_address : X.PeerId → X.Multiaddr → X.Kad → X.Kad
  pub bootstrap : X.Kad → Option X.QueryId × X.Kad
  pub kad_addresses : X.PeerId → X.Kad → List X.Multiaddr × X.Kad
  pub mdns_addresses : X.PeerId → X.Mdns → List X.Multiaddr × X.Mdns
  pub inject : Handed X → X.Kad → X.Kad

pub data DiscoveryOut (PeerId : Type 0) : Type 0 where
  connected disconnected : PeerId → DiscoveryOut PeerId

-- `Toggle` is an option.
pub record DiscoveryBehaviour (X : Swarm) : Type 0 where
  pub user_defined : List (X.PeerId × X.Multiaddr)
  pub kademlia : Option X.Kad
  pub mdns : Option X.Mdns
  pub pending_events : List (DiscoveryOut X.PeerId)
  pub num_connections : ℕ
  pub peers : List X.PeerId
  pub peer_addresses : List (X.PeerId × List X.Multiaddr)

-- What `bootstrap` gives: the query, the error of Kademlia, or that there is no Kademlia.
pub data Bootstrapped (QueryId : Type 0) : Type 0 where
  query : QueryId → Bootstrapped QueryId
  no_known_peers not_activated : Bootstrapped QueryId

-- `num_connections += 1` and `-= 1` on `u64`.
abbrev pub one_more : ℕ → ℕ
one_more n = (n + 1) % 2 ^ 64

abbrev pub one_less : ℕ → ℕ
one_less n = (n + 2 ^ 64 - 1) % 2 ^ 64

module _ {X : Swarm} (api : SwarmApi X) where
  -- A call that is handed on to Kademlia, if there is one.
  unfoldable pub hand_on : Handed X → DiscoveryBehaviour X → DiscoveryBehaviour X
  hand_on call d = elim d.kademlia [
    | none ↦ d
    | some kad ↦ record d { kademlia = some (api.inject call kad) }
  ]

-- The boot peers of all rooms.
module _ {PeerId Multiaddr : Type 0} where
  boot_peers :
      List (MultiaddrWithPeerId PeerId Multiaddr)
      → List (PeerId × Multiaddr)
      → List (PeerId × Multiaddr)
  boot_peers [] more = more
  boot_peers (mwp ∷ mwps) more = (mwp.peer_id, mwp.multiaddr) ∷ boot_peers mwps more

  unfoldable pub boot_peers_of : List (RoomArgs PeerId Multiaddr) → List (PeerId × Multiaddr)
  unfolding boot_peers
  boot_peers_of [] = []
  boot_peers_of (ra ∷ rooms) = boot_peers ra.boot_peers (boot_peers_of rooms)

module _ {X : Swarm} ⦃peer : PeerApi X.PeerId⦄ (api : SwarmApi X) where
  open api use {with_config, add_address, kad_addresses, mdns_addresses}

  -- The boot peers are made known to Kademlia and become known peers.
  unfoldable pub add_boot_peers :
      List (X.PeerId × X.Multiaddr) → X.Kad → List X.PeerId → X.Kad × List X.PeerId
  add_boot_peers [] kad peers = (kad, peers)
  add_boot_peers ((p, a) ∷ more) kad peers =
      add_boot_peers more (add_address p a kad) (set_insert p peers)

  -- The state that `DiscoveryBehaviour::new` makes, with mDNS if it is there.
  unfoldable pub started :
      X.PeerId → Params X.PeerId X.Multiaddr → Option X.Mdns → DiscoveryBehaviour X
  unfolding boot_peers_of add_boot_peers
  started local_peer_id params mdns_opt =
      let user_defined = boot_peers_of params.rooms in
      let (kad, peers) = add_boot_peers user_defined (with_config local_peer_id) [] in
      record {
        user_defined = user_defined;
        kademlia = if params.kademlia then some (api.bootstrap kad).1 else none;
        mdns = mdns_opt;
        pending_events = [];
        num_connections = 0;
        peers = if params.kademlia then peers else [];
        peer_addresses = [];
      }

  -- `DiscoveryBehaviour::new`; `mdns` is what `Mdns::new` makes, if it can. `expect` panics where mDNS is
  -- wanted and does not start.
  unfoldable pub new :
      X.PeerId → Params X.PeerId X.Multiaddr → Option X.Mdns → IoResult (DiscoveryBehaviour X)
  unfolding started
  new local_peer_id params mdns =
      let with_mdns : IoResult (DiscoveryBehaviour X) = elim mdns [
        | none ↦ panic
        | some m ↦ ok (started local_peer_id params (some m))
      ] in
      if params.mdns then with_mdns else ok (started local_peer_id params none)

  unfoldable pub bootstrap : DiscoveryBehaviour X → Bootstrapped X.QueryId × DiscoveryBehaviour X
  bootstrap d = elim d.kademlia [
    | none ↦ (not_activated, d)
    | some kad ↦
        let (result, kad') = api.bootstrap kad in
        (
          elim result [ none ↦ no_known_peers | some q ↦ query q ],
          record d { kademlia = some kad' },
        )
  ]

  user_addresses : X.PeerId → List (X.PeerId × X.Multiaddr) → List X.Multiaddr
  user_addresses p [] = []
  user_addresses p ((q, a) ∷ more) =
      let rest = user_addresses p more in if q == p then a ∷ rest else rest

  toggled : {A : Type 0} → (A → List X.Multiaddr × A) → Option A → List X.Multiaddr × Option A
  toggled f none = ([], none)
  toggled f (some a) = let (found, a') = f a in (found, some a')

  -- The addresses that the user has given, then those of Kademlia, then those of mDNS.
  unfoldable pub addresses_of_peer :
      X.PeerId → DiscoveryBehaviour X → List X.Multiaddr × DiscoveryBehaviour X
  unfolding user_addresses toggled
  addresses_of_peer p d =
      let (from_kad, kademlia) = toggled (kad_addresses p) d.kademlia in
      let (from_mdns, mdns) = toggled (mdns_addresses p) d.mdns in
      (
        user_addresses p d.user_defined ++ (from_kad ++ from_mdns),
        record d { kademlia = kademlia; mdns = mdns },
      )

  unfoldable pub inject_connected : X.PeerId → DiscoveryBehaviour X → DiscoveryBehaviour X
  unfolding addresses_of_peer hand_on
  inject_connected p d =
      let (multiaddr, d1) = addresses_of_peer p d in
      hand_on api (Handed.connected p) (record d1 {
        peer_addresses = HashMap.insert p multiaddr d1.peer_addresses;
        peers = set_insert p d1.peers;
        pending_events = d1.pending_events ++ (DiscoveryOut.connected p ∷ []);
      })

  unfoldable pub inject_disconnected : X.PeerId → DiscoveryBehaviour X → DiscoveryBehaviour X
  unfolding hand_on
  inject_disconnected p d =
      hand_on api (Handed.disconnected p)
        (record d { pending_events = d.pending_events ++ (DiscoveryOut.disconnected p ∷ []) })

  unfoldable pub inject_connection_established :
      X.PeerId
      → X.ConnectionId
      → X.ConnectedPoint
      → Option (List X.Multiaddr)
      → DiscoveryBehaviour X
      → DiscoveryBehaviour X
  unfolding hand_on
  inject_connection_established p conn endpoint failed d =
      hand_on api (connection_established p conn endpoint failed)
        (record d { num_connections = one_more d.num_connections })

  unfoldable pub inject_connection_closed :
      X.PeerId
      → X.ConnectionId
      → X.ConnectedPoint
      → X.KadHandler
      → DiscoveryBehaviour X
      → DiscoveryBehaviour X
  unfolding hand_on
  inject_connection_closed p conn endpoint handler d =
      hand_on api (connection_closed p conn endpoint handler)
        (record d { num_connections = one_less d.num_connections })
