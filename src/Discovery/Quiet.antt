-- ===== src/Discovery/Quiet.antt =====
-- A poll of discovery: which event it gives, and what it leaves as it is.
use tss_libp2p.Prelude.{
  List, [], ◌∷◌, Option, some, none, ◌≡◌, refl, inl, inr, Option-cases, ◌∙◌, sym,
}
use tss_libp2p.Discovery.{Swarm, SwarmApi, Handed, DiscoveryOut, DiscoveryBehaviour, hand_on}
use tss_libp2p.Discovery.Poll.{
  KadAction, MdnsAction, Action, discovered, expired, generate_event, dial_address, dial_peer,
  notify_handler, report_observed_addr, close_connection, poll, poll_kad, poll_mdns, of_kad,
  of_mdns, on_mdns, if_on, pop_event, or_else, generated, poll_from_mdns, poll_from_kad,
}
use tss_libp2p.Discovery.Run.{told}

-- What the polls and the other calls leave as it is.
abbrev pub Same : {X : Swarm} → DiscoveryBehaviour X → DiscoveryBehaviour X → Type 0
Same d e =
    (e.peers ≡ d.peers)
    × (e.pending_events ≡ d.pending_events)
    × (e.num_connections ≡ d.num_connections)

module _ {X : Swarm} (api : SwarmApi X) where
  pub hand_on-Same : (call : Handed X) (d : DiscoveryBehaviour X) → Same d (hand_on api call d)
  unfolding hand_on
  hand_on-Same call d = elim (Option-cases d.kademlia) [
    | inl e ↦ rw (e, hand_on) (refl, refl, refl)
    | inr (k, e) ↦ rw (e, hand_on) (refl, refl, refl)
  ]

  told-of_kad : (a : KadAction X) → told (of_kad a) ≡ none
  unfolding of_kad
  told-of_kad (generate_event ev) = refl
  told-of_kad (dial_address address handler) = refl
  told-of_kad (dial_peer p condition handler) = refl
  told-of_kad (notify_handler p conn ev) = refl
  told-of_kad (report_observed_addr address score) = refl
  told-of_kad (close_connection p connection) = refl

  told-of_mdns : (a : MdnsAction X) → told (of_mdns a) ≡ none
  unfolding of_mdns
  told-of_mdns (generate_event ev) = refl
  told-of_mdns (dial_address address handler) = refl
  told-of_mdns (dial_peer p condition handler) = refl
  told-of_mdns (notify_handler p conn ev) = refl
  told-of_mdns (report_observed_addr address score) = refl
  told-of_mdns (close_connection p connection) = refl

  on_mdns-Same : (a : MdnsAction X) (d : DiscoveryBehaviour X) → Same d (on_mdns api a d)
  unfolding on_mdns
  on_mdns-Same (generate_event (discovered list)) d = elim (Option-cases d.kademlia) [
    | inl e ↦ rw (e, on_mdns) (refl, refl, refl)
    | inr (k, e) ↦ rw (e, on_mdns) (refl, refl, refl)
  ]
  on_mdns-Same (generate_event (expired list)) d = (refl, refl, refl)
  on_mdns-Same (dial_address address handler) d = (refl, refl, refl)
  on_mdns-Same (dial_peer p condition handler) d = (refl, refl, refl)
  on_mdns-Same (notify_handler p conn ev) d = (refl, refl, refl)
  on_mdns-Same (report_observed_addr address score) d = (refl, refl, refl)
  on_mdns-Same (close_connection p connection) d = (refl, refl, refl)

  -- A loop that gives no event and leaves these as they are.
  abbrev pub Quiet : DiscoveryBehaviour X → Option (Action X) × DiscoveryBehaviour X → Type 0
  Quiet d r = Same d r.1 × (told r.0 ≡ none)

  poll_kad-Quiet :
      (evs : List (Option (KadAction X) × X.Kad)) (d : DiscoveryBehaviour X)
      → Quiet d (poll_kad evs d)
  unfolding poll_kad
  poll_kad-Quiet [] d = ((refl, refl, refl), refl)
  poll_kad-Quiet ((none, kad) ∷ evs) d = ((refl, refl, refl), refl)
  poll_kad-Quiet ((some ev, kad) ∷ evs) d = elim (Option-cases (of_kad ev)) [
    | inl e ↦ rw (e, poll_kad) (poll_kad-Quiet evs (record d { kademlia = some kad }))
    | inr (a, e) ↦ let t = rw e at (told-of_kad ev) in rw (e, poll_kad) ((refl, refl, refl), t)
  ]

  poll_mdns-Quiet :
      (evs : List (Option (MdnsAction X) × X.Mdns)) (d : DiscoveryBehaviour X)
      → Quiet d (poll_mdns api evs d)
  unfolding poll_mdns
  poll_mdns-Quiet [] d = ((refl, refl, refl), refl)
  poll_mdns-Quiet ((none, mdns) ∷ evs) d = ((refl, refl, refl), refl)
  poll_mdns-Quiet ((some ev, mdns) ∷ evs) d =
      let d1 = record d { mdns = some mdns } in
      let (a, b, c) = on_mdns-Same ev d1 in
      elim (Option-cases (of_mdns ev)) [
        | inl e ↦
            let ((x, y, z), t) = poll_mdns-Quiet evs (on_mdns api ev d1) in
            rw (e, poll_mdns) ((x ∙ a, y ∙ b, z ∙ c), t)
        | inr (act, e) ↦ let t = rw e at (told-of_mdns ev) in rw (e, poll_mdns) ((a, b, c), t)
      ]

  if_on-Quiet :
      {A : Type 0} (o : Option A)
      (f : DiscoveryBehaviour X → Option (Action X) × DiscoveryBehaviour X)
      (d : DiscoveryBehaviour X)
      → Quiet d (f d)
      → Quiet d (if_on o f d)
  unfolding if_on
  if_on-Quiet none f d q = ((refl, refl, refl), refl)
  if_on-Quiet (some a) f d q = q

  Quiet-trans :
      (d e : DiscoveryBehaviour X) (r : Option (Action X) × DiscoveryBehaviour X)
      → Same d e
      → Quiet e r
      → Quiet d r
  Quiet-trans d e r (a, b, c) ((x, y, z), t) = ((x ∙ a, y ∙ b, z ∙ c), t)

  -- A quiet part, and then the rest of the poll.
  or_else-Quiet :
      (r : Option (Action X) × DiscoveryBehaviour X) (d : DiscoveryBehaviour X)
      (next : DiscoveryBehaviour X → Option (Action X) × DiscoveryBehaviour X)
      → Quiet d r
      → ((e : DiscoveryBehaviour X) → Same d e → Quiet d (next e))
      → Quiet d (or_else r next)
  or_else-Quiet (none, e) d next (same, t) rest = rest e same
  or_else-Quiet (some a, e) d next (same, t) rest = (same, t)

  last_event :
      (d e : DiscoveryBehaviour X)
      → d.pending_events ≡ []
      → Same d e
      → Quiet d (generated (pop_event e))
  unfolding pop_event
  last_event d e empty (a, b, c) = rw (b ∙ empty) ((a, sym empty, c), refl)

  from_mdns-Quiet :
      (mdns : List (Option (MdnsAction X) × X.Mdns)) (d e : DiscoveryBehaviour X)
      → d.pending_events ≡ []
      → Same d e
      → Quiet d (poll_from_mdns api mdns e)
  unfolding poll_from_mdns
  from_mdns-Quiet mdns d e empty s =
      let part = if_on e.mdns (poll_mdns api mdns) e in
      or_else-Quiet part d (λ f. generated (pop_event f))
        (Quiet-trans d e part s
          (if_on-Quiet e.mdns (poll_mdns api mdns) e (poll_mdns-Quiet mdns e)))
        (λ f. last_event d f empty)

  from_kad-Quiet :
      (kad : List (Option (KadAction X) × X.Kad)) (mdns : List (Option (MdnsAction X) × X.Mdns))
      (d e : DiscoveryBehaviour X)
      → d.pending_events ≡ []
      → Same d e
      → Quiet d (poll_from_kad api kad mdns e)
  unfolding poll_from_kad
  from_kad-Quiet kad mdns d e empty s =
      let part = if_on e.kademlia (poll_kad kad) e in
      or_else-Quiet part d (poll_from_mdns api mdns)
        (Quiet-trans d e part s (if_on-Quiet e.kademlia (poll_kad kad) e (poll_kad-Quiet kad e)))
        (λ f. from_mdns-Quiet mdns d f empty)

  -- A poll gives the first event that waits, and takes it from the queue; if none waits it gives
  -- no event. It leaves the known peers and the count as they are.
  pub poll_lem :
      (kad : List (Option (KadAction X) × X.Kad)) (mdns : List (Option (MdnsAction X) × X.Mdns))
      (d : DiscoveryBehaviour X)
      → (d.pending_events ≡ [] → Quiet d (poll api kad mdns d))
        × ((ev : DiscoveryOut X.PeerId) (evs : List (DiscoveryOut X.PeerId))
            → d.pending_events ≡ ev ∷ evs
            → poll api kad mdns d ≡ (some (generate_event ev), record d { pending_events = evs }))
  unfolding poll pop_event
  poll_lem kad mdns d = (
    λ empty.
        or_else-Quiet (generated (pop_event d)) d (poll_from_kad api kad mdns)
          (last_event d d empty (refl, refl, refl)) (λ e. from_kad-Quiet kad mdns d e empty),
    λ ev evs there. rw (there, poll, pop_event) refl,
  )
