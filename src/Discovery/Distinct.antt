-- ===== src/Discovery/Distinct.antt =====
-- Discovery knows each peer once.
use mathlib.Core.List.{Nodup-nil}
use tss_libp2p.Prelude.{
  refl, List, [], ◌∷◌, ◌++◌, Option, ◌≡◌, sym, subst, Nodup, Bool-cases, Option-cases, inl, inr,
}
use tss_libp2p.Peer.{PeerApi, peer_eq}
use tss_libp2p.Io.{ok}
use tss_libp2p.HashMap
use tss_libp2p.HashSet.{set_insert, Nodup-set_insert}
use tss_libp2p.Config.{Params}
use tss_libp2p.Discovery.{
  Swarm, SwarmApi, Handed, DiscoveryOut, DiscoveryBehaviour, started, new, boot_peers_of,
  add_boot_peers, bootstrap, addresses_of_peer, inject_connected, inject_disconnected,
  inject_connection_established, inject_connection_closed, one_more, one_less,
  connection_established, connection_closed,
}
use tss_libp2p.Discovery.Poll.{KadAction, MdnsAction, poll}
use tss_libp2p.Discovery.Quiet.{hand_on-Same, poll_lem}
use tss_libp2p.Discovery.Known.{new-started}
use tss_libp2p.Discovery.Run.{
  Call, connect, disconnect, establish, close, hand, ask_addresses, ask_bootstrap, ask_poll, step,
  run,
}

module _ {X : Swarm} ⦃peer : PeerApi X.PeerId⦄ (api : SwarmApi X) where
  kept_peers : {ps qs : List X.PeerId} → qs ≡ ps → Nodup ps → Nodup qs
  kept_peers same n = subst Nodup (sym same) n

  poll-Nodup :
      (kad : List (Option (KadAction X) × X.Kad)) (mdns : List (Option (MdnsAction X) × X.Mdns))
      (d : DiscoveryBehaviour X) (q : List (DiscoveryOut X.PeerId))
      → d.pending_events ≡ q
      → Nodup d.peers
      → Nodup (poll api kad mdns d).1.peers
  poll-Nodup kad mdns d [] e n = kept_peers ((poll_lem api kad mdns d).0 e).0.0 n
  poll-Nodup kad mdns d (ev ∷ evs) e n =
      let popped = (poll_lem api kad mdns d).1 ev evs e in rw popped n

  step-Nodup :
      (c : Call X) (d : DiscoveryBehaviour X) → Nodup d.peers → Nodup (step api c d).1.peers
  unfolding step bootstrap addresses_of_peer inject_connected inject_disconnected
      inject_connection_established inject_connection_closed
  step-Nodup (connect p) d n =
      let (multiaddr, e) = addresses_of_peer api p d in
      let noted : DiscoveryBehaviour X = record e {
        peer_addresses = HashMap.insert p multiaddr e.peer_addresses;
        peers = set_insert p e.peers;
        pending_events = e.pending_events ++ (DiscoveryOut.connected p ∷ []);
      } in
      kept_peers (hand_on-Same api (Handed.connected p) noted).0 (Nodup-set_insert p d.peers n)
  step-Nodup (disconnect p) d n =
      let told : DiscoveryBehaviour X = record d {
        pending_events = d.pending_events ++ (DiscoveryOut.disconnected p ∷ []);
      } in
      kept_peers (hand_on-Same api (Handed.disconnected p) told).0 n
  step-Nodup (establish p conn endpoint failed) d n =
      let more : DiscoveryBehaviour X = record d { num_connections = one_more d.num_connections } in
      kept_peers (hand_on-Same api (connection_established p conn endpoint failed) more).0 n
  step-Nodup (close p conn endpoint handler) d n =
      let less : DiscoveryBehaviour X = record d { num_connections = one_less d.num_connections } in
      kept_peers (hand_on-Same api (connection_closed p conn endpoint handler) less).0 n
  step-Nodup (hand call) d n = kept_peers (hand_on-Same api call d).0 n
  step-Nodup (ask_addresses p) d n = n
  step-Nodup ask_bootstrap d n = elim (Option-cases d.kademlia) [
    | inl e ↦ rw (e, bootstrap) n
    | inr (k, e) ↦ rw (e, bootstrap) n
  ]
  step-Nodup (ask_poll kad mdns) d n = poll-Nodup kad mdns d d.pending_events refl n

  run-Nodup :
      (cs : List (Call X)) (d : DiscoveryBehaviour X) → Nodup d.peers → Nodup (run api cs d).1.peers
  unfolding run
  run-Nodup [] d n = n
  run-Nodup (c ∷ cs) d n = run-Nodup cs (step api c d).1 (step-Nodup c d n)

  add_boot_peers-Nodup :
      (l : List (X.PeerId × X.Multiaddr)) (kad : X.Kad) (ps : List X.PeerId)
      → Nodup ps
      → Nodup (add_boot_peers api l kad ps).1
  unfolding add_boot_peers
  add_boot_peers-Nodup [] kad ps n = n
  add_boot_peers-Nodup ((q, a) ∷ l) kad ps n =
      add_boot_peers-Nodup l (api.add_address q a kad) (set_insert q ps) (Nodup-set_insert q ps n)

  started-Nodup :
      (me : X.PeerId) (params : Params X.PeerId X.Multiaddr) (mdns_opt : Option X.Mdns)
      → Nodup (started api me params mdns_opt).peers
  unfolding started
  started-Nodup me params mdns_opt = elim (Bool-cases params.kademlia) [
    | inl on ↦
        rw (on, started)
          (add_boot_peers-Nodup (boot_peers_of params.rooms) (api.with_config me) [] Nodup-nil)
    | inr off ↦ rw (off, started) Nodup-nil
  ]

  -- After any calls of a new behaviour, each known peer is known once.
  pub known-Nodup :
      (me : X.PeerId) (params : Params X.PeerId X.Multiaddr) (mdns : Option X.Mdns)
      (d0 : DiscoveryBehaviour X) (cs : List (Call X))
      → new api me params mdns ≡ ok d0
      → Nodup (run api cs d0).1.peers
  known-Nodup me params mdns d0 cs made =
      let (mdns_opt, same) = new-started api me params mdns d0 made in
      run-Nodup cs d0 (subst (λ d. Nodup d.peers) (sym same) (started-Nodup me params mdns_opt))
