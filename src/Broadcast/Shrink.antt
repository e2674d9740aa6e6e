-- ===== src/Broadcast/Shrink.antt =====
-- An event makes no request pending.
use tss_libp2p.Prelude.{
  ℕ, ◌≡◌, refl, ◌∙◌, List, [], ◌∷◌, Option, Bool, true, ◌==◌, Bool-cases, Option-cases, inl, inr,
}
use tss_libp2p.HashMap
use tss_libp2p.HashMap.{get-insert, get-remove}
use tss_libp2p.Broadcast.{Net, Name, name_eq, ProtocolRequestId, id_eq, Broadcast}
use tss_libp2p.Broadcast.Send.{is_some}
use tss_libp2p.Broadcast.Events.{
  id_of, Ready, Event, request, response, outbound_failure, inbound_failure, response_sent,
  other_action, on_event, on_request, on_response, on_outbound_failure, on_inbound_failure,
  on_response_sent, go_on, generate, pass, panicked, Polled,
}
use tss_libp2p.Broadcast.Poll.{on_ready, poll_events}

module _ {X : Net} where
  -- The behaviours stay, and no request becomes pending.
  abbrev pub Shrinks : Broadcast X → Broadcast X → Type 0
  Shrinks b c =
      (c.protocols ≡ b.protocols)
      × ((k : ProtocolRequestId)
          → is_some (HashMap.get k c.pending_requests) ≡ true
          → is_some (HashMap.get k b.pending_requests) ≡ true)

  Shrinks-remove :
      (b : Broadcast X) (k : ProtocolRequestId)
      → Shrinks b (record b { pending_requests = HashMap.remove k b.pending_requests })
  Shrinks-remove b k = (
    refl,
    λ j h. elim (Bool-cases (k == j)) [
      | inl same ↦ cc (rw (get-remove k j b.pending_requests, same) at h)
      | inr apart ↦ rw (get-remove k j b.pending_requests, apart) at h
    ],
  )

  on_event-Shrinks :
      (now rx : ℕ) (taken : Bool) (name : Name) (queue : Option ℕ) (ev : Event X) (b : Broadcast X)
      → Shrinks b (on_event now rx taken name queue ev b).0
  unfolding on_event on_request on_response on_outbound_failure on_inbound_failure on_response_sent
  on_event-Shrinks now rx taken name queue (request p id m c) b = (refl, λ k h. h)
  on_event-Shrinks now rx taken name queue (response p id r) b =
      elim (Option-cases (HashMap.get (id_of name id) b.pending_requests)) [
        | inl gone ↦ rw (gone, on_response) (refl, λ k h. h)
        | inr (v, there) ↦ rw (there, on_response) (Shrinks-remove b (id_of name id))
      ]
  on_event-Shrinks now rx taken name queue (outbound_failure p id e) b =
      elim (Option-cases (HashMap.get (id_of name id) b.pending_requests)) [
        | inl gone ↦ rw (gone, on_outbound_failure) (refl, λ k h. h)
        | inr (v, there) ↦ rw (there, on_outbound_failure) (Shrinks-remove b (id_of name id))
      ]
  on_event-Shrinks now rx taken name queue (inbound_failure p id e) b = (refl, λ k h. h)
  on_event-Shrinks now rx taken name queue (response_sent p id) b =
      elim (Option-cases (HashMap.get (id_of name id) b.pending_responses_arrival_time)) [
        | inl gone ↦ rw (gone, on_response_sent) (refl, λ k h. h)
        | inr (v, there) ↦ rw (there, on_response_sent) (refl, λ k h. h)
      ]
  on_event-Shrinks now rx taken name queue (other_action a) b = (refl, λ k h. h)

  pub poll_events-Shrinks :
      (now : ℕ) (rs : List (Ready X)) (b : Broadcast X) → Shrinks b (poll_events now rs b).0
  unfolding poll_events on_ready
  poll_events-Shrinks now [] b = (refl, λ k h. h)
  poll_events-Shrinks now (r ∷ rs) b =
      let (b1, es, p) = on_ready now r b in
      let (same, fewer) = on_event-Shrinks now r.response_rx r.taken r.protocol _ r.event b in
      let (same2, fewer2) = poll_events-Shrinks now rs b1 in
      go p refl (same, fewer) (same2 ∙ same, λ k h. fewer k (fewer2 k h))
    where
      go :
          (p : Polled X)
          → (on_ready now r b).2 ≡ p
          → Shrinks b (on_ready now r b).0
          → Shrinks b (poll_events now rs (on_ready now r b).0).0
          → Shrinks b (poll_events now (r ∷ rs) b).0
      go go_on e one all = rw (e, poll_events) all
      go (generate out) e one all = rw (e, poll_events) one
      go (pass a) e one all = rw (e, poll_events) one
      go panicked e one all = rw (e, poll_events) one
