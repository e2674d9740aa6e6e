-- ===== src/Discovery/Refine.antt =====
-- What discovery promises: a set of peers that only grows, a queue of events, and a count.
use tss_libp2p.Prelude.{
  ℕ, List, [], ◌∷◌, ◌++◌, Option, some, none, Bool, ◌||◌, ◌≡◌, refl, ◌==◌, inl, inr, Option-cases,
  ap, ◌∙◌,
}
use tss_libp2p.Peer.{PeerApi, peer_eq}
use tss_libp2p.HashMap
use tss_libp2p.HashSet.{contains, contains-set_insert, set_insert}
use tss_libp2p.Discovery.{
  Swarm, SwarmApi, Handed, DiscoveryOut, DiscoveryBehaviour, bootstrap, addresses_of_peer,
  inject_connected, inject_disconnected, inject_connection_established, inject_connection_closed,
  one_more, one_less, connection_established, connection_closed,
}
use tss_libp2p.Discovery.Poll.{KadAction, MdnsAction, poll}
use tss_libp2p.Discovery.Quiet.{Same, hand_on-Same, poll_lem}
use tss_libp2p.Discovery.Run.{
  Call, connect, disconnect, establish, close, hand, ask_addresses, ask_bootstrap, ask_poll, told,
  step, run,
}

-- The abstract state: who is known, the events that wait, and the number of connections.
pub record View (P : Type 0) : Type 0 where
  pub known : P → Bool
  pub queue : List (DiscoveryOut P)
  pub connections : ℕ

module _ {X : Swarm} ⦃peer : PeerApi X.PeerId⦄ where
  -- What a call does to the abstract state, and the event that it gives out.
  unfoldable pub seen : Call X → View X.PeerId → Option (DiscoveryOut X.PeerId) × View X.PeerId
  seen (connect p) v = (
    none,
    record v {
      known = λ q. p == q || v.known q;
      queue = v.queue ++ (DiscoveryOut.connected p ∷ []);
    },
  )
  seen (disconnect p) v = (none, record v { queue = v.queue ++ (DiscoveryOut.disconnected p ∷ []) })
  seen (establish p conn endpoint failed) v =
      (none, record v { connections = one_more v.connections })
  seen (close p conn endpoint handler) v = (none, record v { connections = one_less v.connections })
  seen (hand call) v = (none, v)
  seen (ask_addresses p) v = (none, v)
  seen ask_bootstrap v = (none, v)
  seen (ask_poll kad mdns) v = elim v.queue [
    | [] ↦ (none, v)
    | ev ∷ evs ↦ (some ev, record v { queue = evs })
  ]

  unfoldable pub seen_all :
      List (Call X) → View X.PeerId → List (Option (DiscoveryOut X.PeerId)) × View X.PeerId
  unfolding seen
  seen_all [] v = ([], v)
  seen_all (c ∷ cs) v =
      let (out, v1) = seen c v in let (outs, v2) = seen_all cs v1 in (out ∷ outs, v2)

  -- The behaviour stands for the abstract state.
  pub record Shows (d : DiscoveryBehaviour X) (v : View X.PeerId) : Type 0 where
    pub known : (p : X.PeerId) → contains p d.peers ≡ v.known p
    pub queue : d.pending_events ≡ v.queue
    pub connections : d.num_connections ≡ v.connections

module _ {X : Swarm} ⦃peer : PeerApi X.PeerId⦄ (api : SwarmApi X) where
  -- Discovery that stands for an abstract state still does so when these have not changed.
  Shows-Same :
      (d : DiscoveryBehaviour X) {e : DiscoveryBehaviour X} {v : View X.PeerId}
      → Same d e
      → Shows d v
      → Shows e v
  Shows-Same d (a, b, c) s = record {
    known = λ p. ap (contains p) a ∙ s.known p;
    queue = b ∙ s.queue;
    connections = c ∙ s.connections;
  }

  connect-Shows :
      (p : X.PeerId) (d : DiscoveryBehaviour X) (v : View X.PeerId)
      → Shows d v
      → Shows (inject_connected api p d) (seen {X = X} (connect p) v).1
  unfolding inject_connected addresses_of_peer seen
  connect-Shows p d v s =
      let (multiaddr, e) = addresses_of_peer api p d in
      let noted : DiscoveryBehaviour X = record e {
        peer_addresses = HashMap.insert p multiaddr e.peer_addresses;
        peers = set_insert p e.peers;
        pending_events = e.pending_events ++ (DiscoveryOut.connected p ∷ []);
      } in
      Shows-Same noted (hand_on-Same api (Handed.connected p) noted) (record {
        known = λ q. contains-set_insert q p d.peers ∙ ap (λ b. p == q || b) (s.known q);
        queue = ap (λ l. l ++ (DiscoveryOut.connected p ∷ [])) s.queue;
        connections = s.connections;
      })

  poll-Shows :
      (kad : List (Option (KadAction X) × X.Kad)) (mdns : List (Option (MdnsAction X) × X.Mdns))
      (d : DiscoveryBehaviour X) (v : View X.PeerId) (q : List (DiscoveryOut X.PeerId))
      → v.queue ≡ q
      → Shows d v
      → (told (poll api kad mdns d).0 ≡ (seen (ask_poll kad mdns) v).0)
        × Shows (poll api kad mdns d).1 (seen (ask_poll kad mdns) v).1
  unfolding seen
  poll-Shows kad mdns d v [] e s =
      let (same, none_told) = (poll_lem api kad mdns d).0 (s.queue ∙ e) in
      rw (e, seen) (none_told, Shows-Same d same s)
  poll-Shows kad mdns d v (ev ∷ evs) e s =
      let popped = (poll_lem api kad mdns d).1 ev evs (s.queue ∙ e) in
      rw (e, seen, popped)
        (refl, record { known = s.known; queue = refl; connections = s.connections })

  -- One call of discovery: it gives out the event that the abstract state gives out, and still stands
  -- for it afterwards.
  step-Shows :
      (c : Call X) (d : DiscoveryBehaviour X) (v : View X.PeerId)
      → Shows d v
      → ((step api c d).0 ≡ (seen c v).0) × Shows (step api c d).1 (seen c v).1
  unfolding step seen bootstrap addresses_of_peer inject_disconnected inject_connection_established
      inject_connection_closed
  step-Shows (connect p) d v s = (refl, connect-Shows p d v s)
  step-Shows (disconnect p) d v s = (
    refl,
    Shows-Same
        (record d { pending_events = d.pending_events ++ (DiscoveryOut.disconnected p ∷ []) })
        (hand_on-Same api (Handed.disconnected p)
          (record d { pending_events = d.pending_events ++ (DiscoveryOut.disconnected p ∷ []) }))
        (record {
          known = s.known;
          queue = ap (λ l. l ++ (DiscoveryOut.disconnected p ∷ [])) s.queue;
          connections = s.connections;
        }),
  )
  step-Shows (establish p conn endpoint failed) d v s = (
    refl,
    Shows-Same (record d { num_connections = one_more d.num_connections })
        (hand_on-Same api (connection_established p conn endpoint failed)
          (record d { num_connections = one_more d.num_connections }))
        (record { known = s.known; queue = s.queue; connections = ap one_more s.connections }),
  )
  step-Shows (close p conn endpoint handler) d v s = (
    refl,
    Shows-Same (record d { num_connections = one_less d.num_connections })
        (hand_on-Same api (connection_closed p conn endpoint handler)
          (record d { num_connections = one_less d.num_connections }))
        (record { known = s.known; queue = s.queue; connections = ap one_less s.connections }),
  )
  step-Shows (hand call) d v s = (refl, Shows-Same d (hand_on-Same api call d) s)
  step-Shows (ask_addresses p) d v s =
      (refl, record { known = s.known; queue = s.queue; connections = s.connections })
  step-Shows ask_bootstrap d v s = elim (Option-cases d.kademlia) [
    | inl e ↦ rw (e, bootstrap) (refl, s)
    | inr (k, e) ↦
        rw (e, bootstrap)
          (refl, record { known = s.known; queue = s.queue; connections = s.connections })
  ]
  step-Shows (ask_poll kad mdns) d v s = poll-Shows kad mdns d v v.queue refl s

  -- Over all calls, in any order, discovery keeps a set of known peers that only grows, and gives its
  -- events out in the order in which the connections came and went, one at each poll, whatever
  -- Kademlia and mDNS do in between.
  pub run-Shows :
      (cs : List (Call X)) (d : DiscoveryBehaviour X) (v : View X.PeerId)
      → Shows d v
      → ((run api cs d).0 ≡ (seen_all cs v).0) × Shows (run api cs d).1 (seen_all cs v).1
  unfolding run seen_all
  run-Shows [] d v s = (refl, s)
  run-Shows (c ∷ cs) d v s =
      let (out, s1) = step-Shows c d v s in
      let (outs, s2) = run-Shows cs (step api c d).1 (seen c v).1 s1 in (cc (out, outs), s2)
