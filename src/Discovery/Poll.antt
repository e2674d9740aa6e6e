-- ===== src/Discovery/Poll.antt =====
-- `DiscoveryBehaviour::poll`. What the polls of Kademlia and of mDNS give, one after the other, is an
-- argument: an action, or none for `Poll::Pending`, and the state after it.
use tss_libp2p.Prelude.{List, [], ◌∷◌, Option, some, none}
use tss_libp2p.Discovery.{Swarm, SwarmApi, DiscoveryOut, DiscoveryBehaviour}

-- `NetworkBehaviourAction` over a handler, its input events, and the events that are generated.
pub data BehaviourAction (X : Swarm) (H I E : Type 0) : Type 0 where
  generate_event : E → BehaviourAction X H I E
  dial_address : X.Multiaddr → H → BehaviourAction X H I E
  dial_peer : X.PeerId → X.Condition → H → BehaviourAction X H I E
  notify_handler : X.PeerId → Option X.ConnectionId → I → BehaviourAction X H I E
  report_observed_addr : X.Multiaddr → X.Score → BehaviourAction X H I E
  close_connection : X.PeerId → X.Closing → BehaviourAction X H I E

pub data MdnsEvent (X : Swarm) : Type 0 where
  discovered expired : List (X.PeerId × X.Multiaddr) → MdnsEvent X

-- The events of Kademlia are only logged.
abbrev pub KadAction : Swarm → Type 0
KadAction X = BehaviourAction X X.KadHandler X.KadIn X.KadEvent

abbrev pub MdnsAction : Swarm → Type 0
MdnsAction X = BehaviourAction X X.MdnsHandler X.MdnsIn (MdnsEvent X)

abbrev pub Action : Swarm → Type 0
Action X = BehaviourAction X X.KadHandler X.KadIn (DiscoveryOut X.PeerId)

-- The rest of a poll, where a part of it gave nothing to return.
abbrev pub or_else : {A B : Type 0} → Option A × B → (B → Option A × B) → Option A × B
or_else r next = elim r.0 [ some a ↦ r | none ↦ next r.1 ]

module _ {X : Swarm} where
  -- What an action of Kademlia makes of the poll: it is returned, unless it is an event.
  unfoldable pub of_kad : KadAction X → Option (Action X)
  of_kad (generate_event ev) = none
  of_kad (dial_address address handler) = some (dial_address address handler)
  of_kad (dial_peer p condition handler) = some (dial_peer p condition handler)
  of_kad (notify_handler p conn ev) = some (notify_handler p conn ev)
  of_kad (report_observed_addr address score) = some (report_observed_addr address score)
  of_kad (close_connection p connection) = some (close_connection p connection)

  -- Of mDNS only reports and closings are returned.
  unfoldable pub of_mdns : MdnsAction X → Option (Action X)
  of_mdns (generate_event ev) = none
  of_mdns (dial_address address handler) = none
  of_mdns (dial_peer p condition handler) = none
  of_mdns (notify_handler p conn ev) = none
  of_mdns (report_observed_addr address score) = some (report_observed_addr address score)
  of_mdns (close_connection p connection) = some (close_connection p connection)

  -- `while let Poll::Ready(ev) = self.kademlia.poll(..)`.
  unfoldable pub poll_kad :
      List (Option (KadAction X) × X.Kad)
      → DiscoveryBehaviour X
      → Option (Action X) × DiscoveryBehaviour X
  unfolding of_kad
  poll_kad [] d = (none, d)
  poll_kad ((none, kad) ∷ evs) d = (none, record d { kademlia = some kad })
  poll_kad ((some ev, kad) ∷ evs) d =
      let d1 = record d { kademlia = some kad } in
      let rest = poll_kad evs d1 in elim (of_kad ev) [ some a ↦ (some a, d1) | none ↦ rest ]

  -- `pending_events.pop_front()`.
  unfoldable pub pop_event :
      DiscoveryBehaviour X → Option (DiscoveryOut X.PeerId) × DiscoveryBehaviour X
  pop_event d = elim d.pending_events [
    | [] ↦ (none, d)
    | ev ∷ evs ↦ (some ev, record d { pending_events = evs })
  ]

  abbrev pub generated :
      Option (DiscoveryOut X.PeerId) × DiscoveryBehaviour X
      → Option (Action X) × DiscoveryBehaviour X
  generated r = elim r.0 [ none ↦ (none, r.1) | some ev ↦ (some (generate_event ev), r.1) ]

  -- A part that is switched off is not polled.
  unfoldable pub if_on :
      {A : Type 0}
      → Option A
      → (DiscoveryBehaviour X → Option (Action X) × DiscoveryBehaviour X)
      → DiscoveryBehaviour X
      → Option (Action X) × DiscoveryBehaviour X
  if_on none f d = (none, d)
  if_on (some a) f d = f d

module _ {X : Swarm} (api : SwarmApi X) where
  -- Peers that mDNS has discovered are added to Kademlia.
  add_discovered : List (X.PeerId × X.Multiaddr) → X.Kad → X.Kad
  add_discovered [] kad = kad
  add_discovered ((p, a) ∷ more) kad = add_discovered more (api.add_address p a kad)

  unfoldable pub on_mdns : MdnsAction X → DiscoveryBehaviour X → DiscoveryBehaviour X
  unfolding add_discovered
  on_mdns (generate_event (discovered list)) d = elim d.kademlia [
    | none ↦ d
    | some kad ↦ record d { kademlia = some (add_discovered list kad) }
  ]
  on_mdns (generate_event (expired list)) d = d
  on_mdns (dial_address address handler) d = d
  on_mdns (dial_peer p condition handler) d = d
  on_mdns (notify_handler p conn ev) d = d
  on_mdns (report_observed_addr address score) d = d
  on_mdns (close_connection p connection) d = d

  -- `while let Poll::Ready(ev) = self.mdns.poll(..)`.
  unfoldable pub poll_mdns :
      List (Option (MdnsAction X) × X.Mdns)
      → DiscoveryBehaviour X
      → Option (Action X) × DiscoveryBehaviour X
  unfolding on_mdns of_mdns
  poll_mdns [] d = (none, d)
  poll_mdns ((none, mdns) ∷ evs) d = (none, record d { mdns = some mdns })
  poll_mdns ((some ev, mdns) ∷ evs) d =
      let d1 = on_mdns ev (record d { mdns = some mdns }) in
      let rest = poll_mdns evs d1 in elim (of_mdns ev) [ some a ↦ (some a, d1) | none ↦ rest ]

  -- mDNS, and the events again; none is `Poll::Pending`.
  unfoldable pub poll_from_mdns :
      List (Option (MdnsAction X) × X.Mdns)
      → DiscoveryBehaviour X
      → Option (Action X) × DiscoveryBehaviour X
  unfolding poll_mdns if_on pop_event
  poll_from_mdns mdns_polls d =
      or_else (if_on d.mdns (poll_mdns mdns_polls) d) (λ e. generated (pop_event e))

  unfoldable pub poll_from_kad :
      List (Option (KadAction X) × X.Kad)
      → List (Option (MdnsAction X) × X.Mdns)
      → DiscoveryBehaviour X
      → Option (Action X) × DiscoveryBehaviour X
  unfolding poll_kad if_on poll_from_mdns
  poll_from_kad kad_polls mdns_polls d =
      or_else (if_on d.kademlia (poll_kad kad_polls) d) (poll_from_mdns mdns_polls)

  -- The events that wait come first.
  unfoldable pub poll :
      List (Option (KadAction X) × X.Kad)
      → List (Option (MdnsAction X) × X.Mdns)
      → DiscoveryBehaviour X
      → Option (Action X) × DiscoveryBehaviour X
  unfolding pop_event poll_from_kad
  poll kad_polls mdns_polls d =
      or_else (generated (pop_event d)) (poll_from_kad kad_polls mdns_polls)
