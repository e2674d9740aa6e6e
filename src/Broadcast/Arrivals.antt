-- ===== src/Broadcast/Arrivals.antt =====
-- The arrival times: the one `expect` of `poll` never fails.
use tss_libp2p.Prelude.{
  ℕ, ◌≡◌, ◌≢◌, refl, arith, List, [], ◌∷◌, Option, none, if◌then◌else◌, ◌||◌, Bool, true, false,
  ◌==◌, Option-cases, inl, inr,
}
use tss_libp2p.HashMap
use tss_libp2p.HashMap.{get-remove, get-insert}
use tss_libp2p.Broadcast.{Net, Name, name_eq, ProtocolRequestId, id_eq, Broadcast}
use tss_libp2p.Broadcast.Send.{is_some}
use tss_libp2p.Messages.{Response}
use tss_libp2p.Broadcast.Events.{
  on_response, on_outbound_failure, on_inbound_failure, on_response_sent, on_request, Event,
  request, response, outbound_failure, inbound_failure, response_sent, other_action, Ready,
  on_event, id_of, panicked,
}
use tss_libp2p.Broadcast.Poll.{queue_of, on_ready}

no_arrival : {A : Type 0} {o : Option A} → o ≡ none → is_some o ≢ true
no_arrival gone h = let bad : false ≡ true = rw gone at h in cc

module _ {X : Net} where
  -- The requests of peers that are open: received, and neither answered nor failed. An event may speak
  -- of an answer only for an open one.
  abbrev pub now_open : Name → Event X → (ProtocolRequestId → Bool) → ProtocolRequestId → Bool
  now_open name (request p id m c) live k = id_of name id == k || live k
  now_open name (response p id r) live k = live k
  now_open name (outbound_failure p id e) live k = live k
  now_open name (inbound_failure p id e) live k = if id_of name id == k then false else live k
  now_open name (response_sent p id) live k = if id_of name id == k then false else live k
  now_open name (other_action a) live k = live k

  abbrev pub Allowed : Name → Event X → (ProtocolRequestId → Bool) → Type 0
  Allowed name (request p id m c) live = Unit {0}
  Allowed name (response p id r) live = Unit {0}
  Allowed name (outbound_failure p id e) live = Unit {0}
  Allowed name (inbound_failure p id e) live = Unit {0}
  Allowed name (response_sent p id) live = live (id_of name id) ≡ true
  Allowed name (other_action a) live = Unit {0}

  -- What `libp2p` documents of the events of its behaviour, for a whole run of events.
  abbrev pub IsOrdered : (ProtocolRequestId → Bool) → List (Ready X) → Type 0
  IsOrdered live [] = Unit {0}
  IsOrdered live (r ∷ rs) =
      Allowed r.protocol r.event live × IsOrdered (now_open r.protocol r.event live) rs

  -- No event of the run makes the handler panic.
  abbrev pub NeverPanics : ℕ → List (Ready X) → Broadcast X → Type 0
  NeverPanics now [] b = Unit {0}
  NeverPanics now (r ∷ rs) b =
      ((on_ready now r b).2 ≢ panicked) × NeverPanics now rs (on_ready now r b).0

  -- Every open request has an arrival time.
  abbrev pub HasArrivals : (ProtocolRequestId → Bool) → Broadcast X → Type 0
  HasArrivals live b =
      (k : ProtocolRequestId)
      → live k ≡ true
      → is_some (HashMap.get k b.pending_responses_arrival_time) ≡ true

  -- A response and an outbound failure leave the arrival times alone.
  on_response-arrivals :
      (now : ℕ) (taken : Bool) (name : Name) (p : X.PeerId) (id : ℕ) (res : Response)
      (b : Broadcast X)
      → ((on_response now taken name p id res b).0.pending_responses_arrival_time
          ≡ b.pending_responses_arrival_time)
        × ((on_response now taken name p id res b).2 ≢ panicked)
  unfolding on_response
  on_response-arrivals now taken name p id res b =
      elim (Option-cases (HashMap.get (id_of name id) b.pending_requests)) [
        | inl gone ↦ rw (gone, on_response) (refl, λ e. cc)
        | inr (v, pending) ↦ rw (pending, on_response) (refl, λ e. cc)
      ]

  on_outbound_failure-arrivals :
      (now : ℕ) (name : Name) (p : X.PeerId) (id : ℕ) (e : X.OutboundFailure) (b : Broadcast X)
      → ((on_outbound_failure now name p id e b).0.pending_responses_arrival_time
          ≡ b.pending_responses_arrival_time)
        × ((on_outbound_failure now name p id e b).2 ≢ panicked)
  unfolding on_outbound_failure
  on_outbound_failure-arrivals now name p id e b =
      elim (Option-cases (HashMap.get (id_of name id) b.pending_requests)) [
        | inl gone ↦ rw (gone, on_outbound_failure) (refl, λ e. cc)
        | inr (v, pending) ↦ rw (pending, on_outbound_failure) (refl, λ e. cc)
      ]

  on_event-arrivals :
      (now rx : ℕ) (taken : Bool) (name : Name) (queue : Option ℕ) (live : ProtocolRequestId → Bool)
      (e : Event X) (b : Broadcast X)
      → Allowed name e live
      → HasArrivals live b
      → ((on_event now rx taken name queue e b).2 ≢ panicked)
        × HasArrivals (now_open name e live) (on_event now rx taken name queue e b).0
  unfolding on_event on_request on_inbound_failure on_response_sent
  on_event-arrivals now rx t name q live (request p id m c) b ok has = (
    λ e. cc,
    λ k open_k.
        rw (get-insert (id_of name id) k now b.pending_responses_arrival_time)
          (ground (arith, has k)),
  )
  on_event-arrivals now rx t name q live (response p id m) b ok has =
      let (same, calm) = on_response-arrivals now t name p id m b in
      (calm, λ k open_k. rw same (has k open_k))
  on_event-arrivals now rx t name q live (outbound_failure p id e) b ok has =
      let (same, calm) = on_outbound_failure-arrivals now name p id e b in
      (calm, λ k open_k. rw same (has k open_k))
  on_event-arrivals now rx t name q live (inbound_failure p id e) b ok has = (
    λ e. cc,
    λ k open_k.
        rw (get-remove (id_of name id) k b.pending_responses_arrival_time) (ground (arith, has k)),
  )
  on_event-arrivals now rx t name q live (response_sent p id) b ok has =
      elim (Option-cases (HashMap.get (id_of name id) b.pending_responses_arrival_time)) [
        | inl gone ↦ absurd (no_arrival gone (has (id_of name id) ok))
        | inr (v, found) ↦
            rw (found, on_response_sent)
              (
                λ e. cc,
                λ k open_k.
                    rw (get-remove (id_of name id) k b.pending_responses_arrival_time)
                      (ground (arith, has k)),
              )
      ]
  on_event-arrivals now rx t name q live (other_action a) b ok has = (λ e. cc, has)

  -- From a state in which every open request has an arrival time, a run of events of which each tells
  -- of a sent response only for an open request, never makes the handler panic.
  pub on_ready-NeverPanics :
      (now : ℕ) (live : ProtocolRequestId → Bool) (rs : List (Ready X)) (b : Broadcast X)
      → HasArrivals live b
      → IsOrdered live rs
      → NeverPanics now rs b
  unfolding on_ready
  on_ready-NeverPanics now live [] b has ordered = tt
  on_ready-NeverPanics now live (r ∷ rs) b has (ok, ordered) =
      let (calm, has1) =
        on_event-arrivals now r.response_rx r.taken r.protocol (queue_of r.protocol b) live r.event
          b ok has in
      (
        calm,
        on_ready-NeverPanics now (now_open r.protocol r.event live) rs (on_ready now r b).0 has1
            ordered,
      )
