-- ===== src/Broadcast/Delivery.antt =====
-- Who hears of a request: the channel that was given with it, once.
use tss_libp2p.Prelude.{ℕ, ◌-◌, ◌≡◌, refl, [], ◌∷◌, Option, some, none, ◌||◌, Bool, true, false}
use tss_libp2p.HashMap
use tss_libp2p.HashMap.{get-remove_self}
use tss_libp2p.Messages.{WireMessage, Response}
use tss_libp2p.Broadcast.{
  Net, Name, name_eq, id_eq, not_connected, unknown_protocol, network, IfDisconnected, try_connect,
  immediate_error, should_connect, RequestResponse, Broadcast, failed, reply,
}
use tss_libp2p.Broadcast.Send.{send_wire_message, send_by}
use tss_libp2p.Broadcast.Events.{
  on_response, on_outbound_failure, to_reply, delivered, generate, go_on, unfinished, id_of,
}

pub or_true : (c : Bool) → (c || true) ≡ true
or_true true = refl
or_true false = refl

module _ {X : Net} (rr : RequestResponse X) where
  open rr use {is_connected, send_request}

  -- A request to send ends in one of three ways: the protocol is not registered, or the peer is not
  -- connected and no connection is wanted, and then nothing changes and the channel gets that failure;
  -- otherwise the request is sent and the channel gets nothing yet.
  pub send_wire_message_outcome :
      (now : ℕ) (b : Broadcast X) (target : X.PeerId) (name : Name) (m : WireMessage) (tx : ℕ)
      → (HashMap.get name b.protocols ≡ none
          → (connect : IfDisconnected)
          → send_wire_message rr now b target name m (some tx) connect
            ≡ (b, reply tx (failed unknown_protocol) ∷ []))
        × ((rq : X.Rq) (queue : Option ℕ)
            → HashMap.get name b.protocols ≡ some (rq, queue)
            → (is_connected rq target ≡ false
                → send_wire_message rr now b target name m (some tx) immediate_error
                  ≡ (b, reply tx (failed not_connected) ∷ []))
              × (is_connected rq target ≡ true
                  → send_wire_message rr now b target name m (some tx) immediate_error
                    ≡ (send_by rr now b target name m (some tx) rq queue, []))
              × (send_wire_message rr now b target name m (some tx) try_connect
                  ≡ (send_by rr now b target name m (some tx) rq queue, [])))
  unfolding send_wire_message should_connect
  send_wire_message_outcome now b target name m tx = (
    λ missing connect. rw (missing, send_wire_message),
    λ rq queue found. (
      λ away. rw (found, send_wire_message) (rw away),
      λ here. rw (found, send_wire_message) (rw here),
      rw (found, send_wire_message) (rw or_true),
    ),
  )

module _ {X : Net} where
  on_response_pending :
      (b : Broadcast X) (name : Name) (id started tx : ℕ) (p : X.PeerId) (res : Response)
      → HashMap.get (id_of name id) b.pending_requests ≡ some (started, some tx)
      → (now : ℕ) (taken : Bool)
      → on_response now taken name p id res b ≡ (
        record b { pending_requests = HashMap.remove (id_of name id) b.pending_requests },
        reply tx (to_reply p res) ∷ [],
        generate (delivered taken p name (now - started) (some tx)),
      )
  unfolding on_response
  on_response_pending b name id started tx p res pending now taken = rw (pending, on_response)

  on_outbound_failure_pending :
      (b : Broadcast X) (name : Name) (id started tx : ℕ) (p : X.PeerId) (e : X.OutboundFailure)
      → HashMap.get (id_of name id) b.pending_requests ≡ some (started, some tx)
      → (now : ℕ)
      → on_outbound_failure now name p id e b ≡ (
        record b { pending_requests = HashMap.remove (id_of name id) b.pending_requests },
        reply tx (failed (network e)) ∷ [],
        generate (unfinished p name (now - started) (network e)),
      )
  unfolding on_outbound_failure
  on_outbound_failure_pending b name id started tx p e pending now =
      rw (pending, on_outbound_failure)

  settled :
      (b : Broadcast X) (name : Name) (id : ℕ) (p : X.PeerId) (res : Response)
      (e : X.OutboundFailure) (now : ℕ) (taken : Bool)
      → HashMap.get (id_of name id) b.pending_requests ≡ none
      → (on_response now taken name p id res b ≡ (b, [], go_on))
        × (on_outbound_failure now name p id e b ≡ (b, [], go_on))
  unfolding on_response on_outbound_failure
  settled b name id p res e now taken gone =
      (rw (gone, on_response), rw (gone, on_outbound_failure))

  -- The first response or failure of a pending request reaches its channel, and it alone: another of
  -- the same request changes nothing and reaches nobody.
  pub reply_once :
      (b : Broadcast X) (name : Name) (id started tx : ℕ) (p : X.PeerId) (res : Response)
      (e : X.OutboundFailure)
      → HashMap.get (id_of name id) b.pending_requests ≡ some (started, some tx)
      → (now : ℕ) (taken : Bool)
      → let (b1, es, _) = on_response now taken name p id res b in
        let (b2, fs, _) = on_outbound_failure now name p id e b in
        (es ≡ reply tx (to_reply p res) ∷ [])
        × (fs ≡ reply tx (failed (network e)) ∷ [])
        × ((later : ℕ) (again : Bool) (q : X.PeerId) (other : Response) (f : X.OutboundFailure)
            → (on_response later again name q id other b1 ≡ (b1, [], go_on))
              × (on_outbound_failure later name q id f b1 ≡ (b1, [], go_on))
              × (on_response later again name q id other b2 ≡ (b2, [], go_on))
              × (on_outbound_failure later name q id f b2 ≡ (b2, [], go_on)))
  reply_once b name id started tx p res e pending now taken =
      let b1 : Broadcast X = record b {
        pending_requests = HashMap.remove (id_of name id) b.pending_requests;
      } in
      let gone = get-remove_self (id_of name id) b.pending_requests in
      rw
        (
          on_response_pending b name id started tx p res pending now taken,
          on_outbound_failure_pending b name id started tx p e pending now,
        )
        (
          refl,
          refl,
          λ later again q other f.
              let (r, o) = settled b1 name id q other f later again gone in (r, o, r, o),
        )
