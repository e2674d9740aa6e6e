-- ===== src/Broadcast/Pending.antt =====
-- The pending requests: a new one has an id of its own.
use tss_libp2p.Prelude.{
  ℕ, ◌≡◌, ◌≢◌, refl, List, Option, some, none, ◌||◌, true, ◌==◌, Bool-cases, Option-cases, inl, inr,
  ◌⊎◌, ap, sym,
}
use tss_libp2p.HashMap
use tss_libp2p.HashMap.{get-insert}
use tss_libp2p.Messages.{WireMessage}
use tss_libp2p.Broadcast.{
  Net, Name, name_eq, ProtocolRequestId, id_eq, IfDisconnected, should_connect, RequestResponse,
  Broadcast,
}
use tss_libp2p.Broadcast.Send.{is_some, send_wire_message, send_by}
use tss_libp2p.Broadcast.Events.{id_of}

module _ {X : Net} (rr : RequestResponse X) where
  open rr use {
    is_connected, send_request, issued, send_request-fresh, send_request-issued, send_request-keeps,
  }

  -- Every pending request was given its number by the behaviour of its protocol.
  abbrev pub IsNumbered : Broadcast X → Type 0
  IsNumbered b =
      (name : Name) (id : ℕ) (rq : X.Rq) (queue : Option ℕ)
      → HashMap.get name b.protocols ≡ some (rq, queue)
      → is_some (HashMap.get (id_of name id) b.pending_requests) ≡ true
      → issued rq id ≡ true

  pub fresh_id :
      (b : Broadcast X) (name : Name) (rq : X.Rq) (queue : Option ℕ) (target : X.PeerId)
      (m : WireMessage)
      → IsNumbered b
      → HashMap.get name b.protocols ≡ some (rq, queue)
      → HashMap.get (id_of name (send_request rq target m).0) b.pending_requests ≡ none
  fresh_id b name rq queue target m numbered found =
      elim (Option-cases
        (HashMap.get (id_of name (send_request rq target m).0) b.pending_requests)) [
          | inl gone ↦ gone
          | inr (v, pending) ↦
              let fresh = send_request-fresh rq target m in
              let old =
                numbered name (send_request rq target m).0 rq queue found (rw pending refl) in
              cc
        ]

  pending_or_old :
      {A : Type 0} (k j : ProtocolRequestId) (v : A) (m : List (ProtocolRequestId × A))
      → is_some (HashMap.get j (HashMap.insert k v m)) ≡ true
      → (k ≡ j) ⊎ (is_some (HashMap.get j m) ≡ true)
  pending_or_old k j v m h = elim (Bool-cases (k == j)) [
    | inl same ↦ inl ((id_eq.beq_iff k j).0 same)
    | inr apart ↦ inr (rw (get-insert k j v m, apart) at h)
  ]

  pub registered_or_old :
      (k j : Name) (v w : X.Rq × Option ℕ) (m : List (Name × (X.Rq × Option ℕ)))
      → HashMap.get j (HashMap.insert k v m) ≡ some w
      → ((k ≡ j) × (v ≡ w)) ⊎ ((k ≢ j) × (HashMap.get j m ≡ some w))
  registered_or_old k j v w m h = elim (Bool-cases (k == j)) [
    | inl same ↦
        let now_there : some v ≡ some w = rw (get-insert k j v m, same) at h in
        inl ((name_eq.beq_iff k j).0 same, cc)
    | inr apart ↦
        inr (λ e. let again = (name_eq.beq_iff k j).1 e in cc, rw (get-insert k j v m, apart) at h)
  ]

  pub send_by-IsNumbered :
      (now : ℕ) (b : Broadcast X) (target : X.PeerId) (name : Name) (m : WireMessage)
      (tx : Option ℕ) (rq : X.Rq) (queue : Option ℕ)
      → IsNumbered b
      → HashMap.get name b.protocols ≡ some (rq, queue)
      → IsNumbered (send_by rr now b target name m tx rq queue)
  unfolding send_by
  send_by-IsNumbered now b target name m tx rq queue numbered found other id rq2 q2 there pending =
      let nid = (send_request rq target m).0 in
      let rq1 = (send_request rq target m).1 in
      let was =
        pending_or_old (id_of name nid) (id_of other id) (now, tx) b.pending_requests pending in
      elim (registered_or_old name other (rq1, queue) (rq2, q2) b.protocols there) [
        | inl (same, sent) ↦
            let rq_same : rq1 ≡ rq2 = ap (λ v. v.0) sent in
            rw (sym rq_same) (elim was [
              | inl e ↦
                  let id_same : nid ≡ id = ap (λ k. k.request_id) e in
                  rw (sym id_same) (send_request-issued rq target m)
              | inr old ↦
                  send_request-keeps rq target m id (numbered name id rq queue found (rw same old))
            ])
        | inr (apart, there_before) ↦ elim was [
          | inl e ↦ absurd (apart (ap (λ k. k.protocol) e))
          | inr old ↦ numbered other id rq2 q2 there_before old
        ]
      ]

  -- When every pending request was given its number by the behaviour of its protocol, which never
  -- gives out a number twice, this still holds after a request is sent, and the new request takes the
  -- place of none that is pending.
  pub send_wire_message-IsNumbered :
      (now : ℕ) (b : Broadcast X) (target : X.PeerId) (name : Name) (m : WireMessage)
      (tx : Option ℕ) (connect : IfDisconnected)
      → IsNumbered b
      → IsNumbered (send_wire_message rr now b target name m tx connect).0
        × ((rq : X.Rq) (queue : Option ℕ)
            → HashMap.get name b.protocols ≡ some (rq, queue)
            → HashMap.get (id_of name (send_request rq target m).0) b.pending_requests ≡ none)
  unfolding send_wire_message
  send_wire_message-IsNumbered now b target name m tx connect numbered = (
    elim (Option-cases (HashMap.get name b.protocols)) [
      | inl missing ↦ rw (missing, send_wire_message) numbered
      | inr ((rq, queue), found) ↦
          let after = send_by-IsNumbered now b target name m tx rq queue numbered found in
          rw (found, send_wire_message)
            (elim (Bool-cases (is_connected rq target || should_connect connect)) [
              | inl sent ↦ rw sent after
              | inr held ↦ rw held numbered
            ])
    ],
    λ rq queue found. fresh_id b name rq queue target m numbered found,
  )
