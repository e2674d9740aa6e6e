-- ===== src/Broadcast/Life.antt =====
-- Everything that the request-response behaviour does, in any order: the calls of the worker, its polls,
-- what the swarm tells it, and what a poll changes in the behaviour of a protocol.
use tss_libp2p.Prelude.{
  ℕ, ◌≡◌, refl, sym, ap, List, [], ◌∷◌, Option, some, none, true, subst, Option-cases, inl, inr,
}
use tss_libp2p.HashMap
use tss_libp2p.Messages.{WireMessage, MessageContext}
use tss_libp2p.Broadcast.{
  Net, Name, name_eq, ProtocolConfig, id_eq, IfDisconnected, RequestResponse, Broadcast,
  OutgoingResponse, PendingResponse,
}
use tss_libp2p.Broadcast.Send.{send_message, broadcast_message, new, registered}
use tss_libp2p.Broadcast.Events.{id_of, Ready}
use tss_libp2p.Broadcast.Poll.{poll}
use tss_libp2p.Broadcast.Pending.{IsNumbered, send_wire_message-IsNumbered, fresh_id}
use tss_libp2p.Broadcast.Numbers.{
  advance-IsNumbered, change_each-IsNumbered, broadcast_message-IsNumbered, poll-IsNumbered,
  new-IsNumbered,
}
use tss_libp2p.Broadcast.Inject.{
  Links, Told, HandlerApi, on_each, change_each, handlers_of, new_handler,
  new_handler_with_replacement, with_handler, inject_connected, inject_disconnected,
  inject_connection_established, inject_connection_closed, inject_event, inject_dial_failure,
  inject_new_listener, inject_new_listen_addr, inject_expired_listen_addr, inject_listener_error,
  inject_listener_closed, inject_new_external_addr, inject_expired_external_addr, connection_closed,
  dial_failure, event, connection_established, new_listener, new_listen_addr, expired_listen_addr,
  listener_error, listener_closed, new_external_addr, expired_external_addr,
}

-- A call of the swarm.
pub data Injection (X : Net) (L : Links) : Type 0 where
  connected disconnected : X.PeerId → Injection X L
  established :
      X.PeerId → L.ConnectionId → L.ConnectedPoint → Option (List L.Multiaddr) → Injection X L
  closed : X.PeerId → L.ConnectionId → L.ConnectedPoint → L.MultiHandler → Injection X L
  handler_event : X.PeerId → L.ConnectionId → Name → L.HandlerEvent → Injection X L
  dial_failed : Option X.PeerId → L.MultiHandler → L.DialError → Injection X L
  listener : L.ListenerId → Injection X L
  listen_addr no_listen_addr : L.ListenerId → L.Multiaddr → Injection X L
  listener_failed : L.ListenerId → L.ListenError → Injection X L
  listener_gone : L.ListenerId → Option L.ListenError → Injection X L
  external_addr no_external_addr : L.Multiaddr → Injection X L
  make_handler : Injection X L
  make_handler_with : Name → L.Handler → Injection X L

module _ {X : Net} {rr : RequestResponse X} {L : Links} (api : HandlerApi rr L) where
  unfoldable pub injected : Injection X L → Broadcast X → Broadcast X
  injected (connected p) b = inject_connected api p b
  injected (disconnected p) b = inject_disconnected api p b
  injected (established p conn endpoint failed) b =
      inject_connection_established api p conn endpoint failed b
  injected (closed p conn endpoint h) b = inject_connection_closed api p conn endpoint h b
  injected (handler_event p conn name ev) b = inject_event api p conn name ev b
  injected (dial_failed p h error) b = inject_dial_failure api p h error b
  injected (listener id) b = inject_new_listener api id b
  injected (listen_addr id addr) b = inject_new_listen_addr api id addr b
  injected (no_listen_addr id addr) b = inject_expired_listen_addr api id addr b
  injected (listener_failed id e) b = inject_listener_error api id e b
  injected (listener_gone id reason) b = inject_listener_closed api id reason b
  injected (external_addr addr) b = inject_new_external_addr api addr b
  injected (no_external_addr addr) b = inject_expired_external_addr api addr b
  injected make_handler b = (new_handler api b).1
  injected (make_handler_with name handler) b = (new_handler_with_replacement api name handler b).1

  -- What the behaviour can become.
  pub data Life (b0 : Broadcast X) : Broadcast X → Type 0 where
    begun : Life b0 b0
    sent :
        {b : Broadcast X} (now : ℕ) (p : X.PeerId) (name : Name) (ctx : MessageContext)
        (payload : List ℕ) (tx : ℕ) (connect : IfDisconnected)
        → Life b0 b
        → Life b0 (send_message rr now b p name ctx payload tx connect).0
    broadcast :
        {b : Broadcast X} (now : ℕ) (ps : List X.PeerId) (name : Name) (ctx : MessageContext)
        (payload : List ℕ) (tx : Option ℕ) (connect : IfDisconnected)
        → Life b0 b
        → Life b0 (broadcast_message rr now b ps name ctx payload tx connect).0
    polled :
        {b : Broadcast X} (now : ℕ) (outcomes : List (PendingResponse X × Option OutgoingResponse))
        (events : List (Ready X))
        → Life b0 b
        → Life b0 (poll rr now outcomes events b).0
    -- `libp2p` polls the behaviour of a protocol, which keeps the numbers that it has given out.
    advanced :
        {b : Broadcast X} (name : Name) (rq rq1 : X.Rq) (queue : Option ℕ)
        → HashMap.get name b.protocols ≡ some (rq, queue)
        → ((k : ℕ) → rr.issued rq k ≡ true → rr.issued rq1 k ≡ true)
        → Life b0 b
        → Life b0 (record b { protocols = HashMap.insert name (rq1, queue) b.protocols })
    told : {b : Broadcast X} (i : Injection X L) → Life b0 b → Life b0 (injected i b)

  pub handlers_of-on_each :
      (ps : List (Name × (X.Rq × Option ℕ)))
      → (handlers_of api ps).1 ≡ on_each (λ r. (api.new_handler r).1) ps
  unfolding handlers_of on_each
  handlers_of-on_each [] = refl
  handlers_of-on_each ((name, (rq, queue)) ∷ ps) =
      ap (λ l. (name, ((api.new_handler rq).1, queue)) ∷ l) (handlers_of-on_each ps)

  made_handlers :
      (b : Broadcast X)
      → IsNumbered rr b
      → IsNumbered rr (record b { protocols = (handlers_of api b.protocols).1 })
  unfolding change_each
  made_handlers b numbered =
      let f = λ (r : X.Rq). (api.new_handler r).1 in
      subst (λ ps. IsNumbered rr (record b { protocols = ps }))
        (sym (handlers_of-on_each b.protocols))
        (change_each-IsNumbered rr f b api.new_handler-keeps numbered)

  hand_each :
      (t : Told X L) (b : Broadcast X)
      → IsNumbered rr b
      → IsNumbered rr (change_each (api.inject t) b)
  hand_each t b numbered = change_each-IsNumbered rr (api.inject t) b (api.inject-keeps t) numbered

  hand_each_with :
      (t : L.Handler → Told X L) (b : Broadcast X)
      → IsNumbered rr b
      → IsNumbered rr (change_each (with_handler api t) b)
  unfolding with_handler
  hand_each_with t b numbered =
      change_each-IsNumbered rr (with_handler api t) b
        (λ r k h.
          api.inject-keeps (t (api.new_handler r).0) (api.new_handler r).1 k
            (api.new_handler-keeps r k h))
        numbered

  injected-IsNumbered :
      (i : Injection X L) (b : Broadcast X) → IsNumbered rr b → IsNumbered rr (injected i b)
  unfolding injected inject_connected inject_disconnected inject_connection_established
      inject_connection_closed inject_event inject_dial_failure inject_new_listener
      inject_new_listen_addr inject_expired_listen_addr inject_listener_error inject_listener_closed
      inject_new_external_addr inject_expired_external_addr new_handler new_handler_with_replacement
  injected-IsNumbered (connected p) b numbered = hand_each (Told.connected p) b numbered
  injected-IsNumbered (disconnected p) b numbered = hand_each (Told.disconnected p) b numbered
  injected-IsNumbered (established p conn endpoint failed) b numbered =
      hand_each (connection_established p conn endpoint failed) b numbered
  injected-IsNumbered (closed p conn endpoint h) b numbered =
      hand_each_with (connection_closed p conn endpoint) b numbered
  injected-IsNumbered (handler_event p conn name ev) b numbered =
      elim (Option-cases (HashMap.get name b.protocols)) [
        | inl missing ↦ rw (missing, inject_event) numbered
        | inr ((rq, queue), found) ↦
            let after =
              advance-IsNumbered rr b name rq (api.inject (event p conn ev) rq) queue numbered found
                (api.inject-keeps (event p conn ev) rq) in
            rw (found, inject_event) after
      ]
  injected-IsNumbered (dial_failed p h error) b numbered =
      hand_each_with (λ handler. dial_failure p handler error) b numbered
  injected-IsNumbered (listener id) b numbered = hand_each (new_listener id) b numbered
  injected-IsNumbered (listen_addr id addr) b numbered =
      hand_each (new_listen_addr id addr) b numbered
  injected-IsNumbered (no_listen_addr id addr) b numbered =
      hand_each (expired_listen_addr id addr) b numbered
  injected-IsNumbered (listener_failed id e) b numbered = hand_each (listener_error id e) b numbered
  injected-IsNumbered (listener_gone id reason) b numbered =
      hand_each (listener_closed id reason) b numbered
  injected-IsNumbered (external_addr addr) b numbered =
      hand_each (new_external_addr addr) b numbered
  injected-IsNumbered (no_external_addr addr) b numbered =
      hand_each (expired_external_addr addr) b numbered
  injected-IsNumbered make_handler b numbered = made_handlers b numbered
  injected-IsNumbered (make_handler_with name handler) b numbered = made_handlers b numbered

  Life-IsNumbered : {b0 b : Broadcast X} → IsNumbered rr b0 → Life b0 b → IsNumbered rr b
  unfolding send_message
  Life-IsNumbered first begun = first
  Life-IsNumbered first (sent {b} now p name ctx payload tx connect l) =
      (send_wire_message-IsNumbered rr now b p name _ (some tx) connect (Life-IsNumbered first l)).0
  Life-IsNumbered first (broadcast {b} now ps name ctx payload tx connect l) =
      broadcast_message-IsNumbered rr now ps b name ctx payload tx connect (Life-IsNumbered first l)
  Life-IsNumbered first (polled {b} now outcomes events l) =
      poll-IsNumbered rr now outcomes events b (Life-IsNumbered first l)
  Life-IsNumbered first (advanced {b} name rq rq1 queue found keeps l) =
      advance-IsNumbered rr b name rq rq1 queue (Life-IsNumbered first l) found keeps
  Life-IsNumbered first (told {b} i l) = injected-IsNumbered i b (Life-IsNumbered first l)

  -- Whatever a behaviour has done since it was made, in any order - sent and broadcast requests,
  -- polled events and answers, been told of connections - every pending request has a number that
  -- its protocol has given out, and a new request of a registered protocol takes the place of
  -- none that is pending.
  pub Life-fresh :
      (list : List ProtocolConfig) (b0 b : Broadcast X) (p : X.PeerId) (name : Name)
      (m : WireMessage) (rq : X.Rq) (queue : Option ℕ)
      → new rr list ≡ registered b0
      → Life b0 b
      → HashMap.get name b.protocols ≡ some (rq, queue)
      → IsNumbered rr b
        × (HashMap.get (id_of name (rr.send_request rq p m).0) b.pending_requests ≡ none)
  Life-fresh list b0 b p name m rq queue made l found =
      let numbered = Life-IsNumbered (new-IsNumbered rr list b0 made) l in
      (numbered, fresh_id rr b name rq queue p m numbered found)
