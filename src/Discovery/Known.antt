-- ===== src/Discovery/Known.antt =====
-- Who is known after any calls, and how many connections are counted.
use tss_libp2p.Prelude.{
  ℕ, ◌+◌, ◌-◌, ◌<◌, ◌^◌, List, [], ◌∷◌, Option, Bool, true, false, ◌||◌, ◌≡◌, refl, arith, ◌==◌,
  if◌then◌else◌, ap, ◌∙◌, Bool-cases, Option-cases, inl, inr, none, some, subst, sym,
}
use tss_libp2p.Peer.{PeerApi, peer_eq}
use tss_libp2p.HashSet.{contains, contains-set_insert, set_insert}
use tss_libp2p.Config.{Params}
use tss_libp2p.Io.{ok}
use tss_libp2p.Discovery.{
  Swarm, SwarmApi, DiscoveryOut, DiscoveryBehaviour, started, new, boot_peers_of, add_boot_peers,
}
use tss_libp2p.Discovery.Poll.{KadAction, MdnsAction}
use tss_libp2p.Discovery.Run.{
  Call, connect, disconnect, establish, close, hand, ask_addresses, ask_bootstrap, ask_poll, run,
}
use tss_libp2p.Discovery.Refine.{View, Shows, seen, seen_all, run-Shows}

or_rotate : (a b c : Bool) → ((a || b) || c) ≡ (b || (a || c))
or_rotate true true c = refl
or_rotate true false c = refl
or_rotate false b c = refl

-- A peer that stands in a list of addresses.
abbrev pub is_boot :
    {PeerId Multiaddr : Type 0} → ⦃api : PeerApi PeerId⦄ → PeerId → List (PeerId × Multiaddr) → Bool
is_boot p [] = false
is_boot p ((q, a) ∷ more) = q == p || is_boot p more

module _ {X : Swarm} ⦃peer : PeerApi X.PeerId⦄ where
  -- A peer that has been connected at some time.
  abbrev pub was_connected : X.PeerId → List (Call X) → Bool
  was_connected p [] = false
  was_connected p (connect q ∷ cs) = q == p || was_connected p cs
  was_connected p (disconnect q ∷ cs) = was_connected p cs
  was_connected p (establish q conn endpoint failed ∷ cs) = was_connected p cs
  was_connected p (close q conn endpoint handler ∷ cs) = was_connected p cs
  was_connected p (hand call ∷ cs) = was_connected p cs
  was_connected p (ask_addresses q ∷ cs) = was_connected p cs
  was_connected p (ask_bootstrap ∷ cs) = was_connected p cs
  was_connected p (ask_poll kad mdns ∷ cs) = was_connected p cs

  -- The connections that are open after the calls, of `n` before them.
  abbrev pub open_after : ℕ → List (Call X) → ℕ
  open_after n [] = n
  open_after n (establish q conn endpoint failed ∷ cs) = open_after (n + 1) cs
  open_after n (close q conn endpoint handler ∷ cs) = open_after (n - 1) cs
  open_after n (connect q ∷ cs) = open_after n cs
  open_after n (disconnect q ∷ cs) = open_after n cs
  open_after n (hand call ∷ cs) = open_after n cs
  open_after n (ask_addresses q ∷ cs) = open_after n cs
  open_after n (ask_bootstrap ∷ cs) = open_after n cs
  open_after n (ask_poll kad mdns ∷ cs) = open_after n cs

  -- Only what is open is closed, and fewer than 2^64 are open at a time.
  abbrev pub Balanced : ℕ → List (Call X) → Type 0
  Balanced n [] = Unit {0}
  Balanced n (establish q conn endpoint failed ∷ cs) = (n + 1 < 2 ^ 64) × Balanced (n + 1) cs
  Balanced n (close q conn endpoint handler ∷ cs) = (0 < n) × Balanced (n - 1) cs
  Balanced n (connect q ∷ cs) = Balanced n cs
  Balanced n (disconnect q ∷ cs) = Balanced n cs
  Balanced n (hand call ∷ cs) = Balanced n cs
  Balanced n (ask_addresses q ∷ cs) = Balanced n cs
  Balanced n (ask_bootstrap ∷ cs) = Balanced n cs
  Balanced n (ask_poll kad mdns ∷ cs) = Balanced n cs

  seen_poll :
      (kad : List (Option (KadAction X) × X.Kad)) (mdns : List (Option (MdnsAction X) × X.Mdns))
      (v : View X.PeerId) (q : List (DiscoveryOut X.PeerId))
      → v.queue ≡ q
      → ((seen (ask_poll kad mdns) v).1.known ≡ v.known)
        × ((seen (ask_poll kad mdns) v).1.connections ≡ v.connections)
  unfolding seen
  seen_poll kad mdns v [] e = rw (e, seen) (refl, refl)
  seen_poll kad mdns v (ev ∷ evs) e = rw (e, seen) (refl, refl)

  seen_all-known :
      (p : X.PeerId) (cs : List (Call X)) (v : View X.PeerId)
      → (seen_all cs v).1.known p ≡ (v.known p || was_connected p cs)
  unfolding seen_all seen
  seen_all-known p [] v = ground arith
  seen_all-known p (connect q ∷ cs) v =
      seen_all-known p cs (seen {X = X} (connect q) v).1
      ∙ or_rotate (q == p) (v.known p) (was_connected p cs)
  seen_all-known p (disconnect q ∷ cs) v = seen_all-known p cs (seen {X = X} (disconnect q) v).1
  seen_all-known p (establish q conn endpoint failed ∷ cs) v =
      seen_all-known p cs (seen {X = X} (establish q conn endpoint failed) v).1
  seen_all-known p (close q conn endpoint handler ∷ cs) v =
      seen_all-known p cs (seen {X = X} (close q conn endpoint handler) v).1
  seen_all-known p (hand call ∷ cs) v = seen_all-known p cs v
  seen_all-known p (ask_addresses q ∷ cs) v = seen_all-known p cs v
  seen_all-known p (ask_bootstrap ∷ cs) v = seen_all-known p cs v
  seen_all-known p (ask_poll kad mdns ∷ cs) v =
      seen_all-known p cs (seen {X = X} (ask_poll kad mdns) v).1
      ∙ ap (λ (f : X.PeerId → Bool). f p || was_connected p cs)
          (seen_poll kad mdns v v.queue refl).0

module _ {X : Swarm} ⦃peer : PeerApi X.PeerId⦄ (api : SwarmApi X) where
  contains-add_boot_peers :
      (p : X.PeerId) (l : List (X.PeerId × X.Multiaddr)) (kad : X.Kad) (ps : List X.PeerId)
      → contains p (add_boot_peers api l kad ps).1 ≡ (contains p ps || is_boot p l)
  unfolding add_boot_peers
  contains-add_boot_peers p [] kad ps = ground arith
  contains-add_boot_peers p ((q, a) ∷ l) kad ps =
      contains-add_boot_peers p l (api.add_address q a kad) (set_insert q ps)
      ∙ ap (λ b. b || is_boot p l) (contains-set_insert p q ps)
      ∙ or_rotate (q == p) (contains p ps) (is_boot p l)

  -- The abstract state at the start.
  abbrev pub first_view : Params X.PeerId X.Multiaddr → View X.PeerId
  first_view params = record {
    known = λ p. if params.kademlia then is_boot p (boot_peers_of params.rooms) else false;
    queue = [];
    connections = 0;
  }

  started-Shows :
      (me : X.PeerId) (params : Params X.PeerId X.Multiaddr) (mdns_opt : Option X.Mdns)
      → Shows (started api me params mdns_opt) (first_view params)
  unfolding started contains
  started-Shows me params mdns_opt = record {
    known = λ p. elim (Bool-cases params.kademlia) [
      | inl on ↦
          rw (on, started)
            (contains-add_boot_peers p (boot_peers_of params.rooms) (api.with_config me) [])
      | inr off ↦ rw (off, started) refl
    ];
    queue = refl;
    connections = refl;
  }

  -- A behaviour that `new` has made is in its first state; it panics only where mDNS is wanted and does
  -- not start.
  pub new-started :
      (me : X.PeerId) (params : Params X.PeerId X.Multiaddr) (mdns : Option X.Mdns)
      (d0 : DiscoveryBehaviour X)
      → new api me params mdns ≡ ok d0
      → (mdns_opt : Option X.Mdns) × (d0 ≡ started api me params mdns_opt)
  unfolding new
  new-started me params mdns d0 e = elim (Bool-cases params.mdns) [
    | inr off ↦ (none, cc (rw (off, new) at e))
    | inl on ↦ elim (Option-cases mdns) [
      | inl missing ↦ cc (rw (on, missing, new) at e)
      | inr (m, there) ↦ (some m, cc (rw (on, there, new) at e))
    ]
  ]

  -- With an mDNS that starts, discovery is made.
  pub new_starts :
      (me : X.PeerId) (params : Params X.PeerId X.Multiaddr) (mdns : X.Mdns)
      → (d0 : DiscoveryBehaviour X) × (new api me params (some mdns) ≡ ok d0)
  unfolding new
  new_starts me params mdns = elim (Bool-cases params.mdns) [
    | inl on ↦ (started api me params (some mdns), rw (on, new) refl)
    | inr off ↦ (started api me params none, rw (off, new) refl)
  ]

  new-Shows :
      (me : X.PeerId) (params : Params X.PeerId X.Multiaddr) (mdns : Option X.Mdns)
      (d0 : DiscoveryBehaviour X)
      → new api me params mdns ≡ ok d0
      → Shows d0 (first_view params)
  new-Shows me params mdns d0 e =
      let (mdns_opt, same) = new-started me params mdns d0 e in
      subst (λ d. Shows d (first_view params)) (sym same) (started-Shows me params mdns_opt)

  -- After any calls of a new behaviour, a peer is known exactly when it is a boot peer of a room and
  -- Kademlia is on, or has been connected at some time: a peer that disconnects stays known.
  pub known_after :
      (me : X.PeerId) (params : Params X.PeerId X.Multiaddr) (mdns : Option X.Mdns)
      (d0 : DiscoveryBehaviour X) (cs : List (Call X)) (p : X.PeerId)
      → new api me params mdns ≡ ok d0
      → contains p (run api cs d0).1.peers ≡ (
          (if params.kademlia then is_boot p (boot_peers_of params.rooms) else false)
          || was_connected p cs)
  known_after me params mdns d0 cs p made =
      let start = new-Shows me params mdns d0 made in
      let (outs, shows) = run-Shows api cs d0 (first_view params) start in
      shows.known p ∙ seen_all-known p cs (first_view params)
