-- ===== src/Broadcast/Inject.antt =====
-- What the swarm tells the request-response behaviour: each function of `NetworkBehaviour` hands its
-- arguments on to the behaviours of all protocols, or to that of one.
use tss_libp2p.Prelude.{ℕ, List, [], ◌∷◌, Option, some, none, true, ◌≡◌}
use tss_libp2p.Io.{IoResult, ok, panic}
use tss_libp2p.HashMap
use tss_libp2p.Broadcast.{Net, Name, name_eq, RequestResponse, Broadcast}

-- Further types of `libp2p`, which are only handed on. `MultiHandler` joins the handlers of the protocols.
pub record Links : Type 1 where
  pub Handler : Type 0
  pub MultiHandler : Type 0
  pub Multiaddr : Type 0
  pub ConnectionId : Type 0
  pub ConnectedPoint : Type 0
  pub HandlerEvent : Type 0
  pub DialError : Type 0
  pub ListenerId : Type 0
  pub ListenError : Type 0

-- The functions of `NetworkBehaviour` by which a behaviour is told of something.
pub data Told (X : Net) (L : Links) : Type 0 where
  connected disconnected : X.PeerId → Told X L
  connection_established :
      X.PeerId → L.ConnectionId → L.ConnectedPoint → Option (List L.Multiaddr) → Told X L
  connection_closed : X.PeerId → L.ConnectionId → L.ConnectedPoint → L.Handler → Told X L
  event : X.PeerId → L.ConnectionId → L.HandlerEvent → Told X L
  dial_failure : Option X.PeerId → L.Handler → L.DialError → Told X L
  new_listener : L.ListenerId → Told X L
  new_listen_addr expired_listen_addr : L.ListenerId → L.Multiaddr → Told X L
  listener_error : L.ListenerId → L.ListenError → Told X L
  listener_closed : L.ListenerId → Option L.ListenError → Told X L
  new_external_addr expired_external_addr : L.Multiaddr → Told X L

-- These functions of `RequestResponse`, which is not part of the repository: none of them takes back a
-- number that has been given to a request.
pub record HandlerApi {X : Net} (rr : RequestResponse X) (L : Links) : Type 0 where
  pub new_handler : X.Rq → L.Handler × X.Rq
  pub inject : Told X L → X.Rq → X.Rq
  pub try_from_iter : List (Name × L.Handler) → Option L.MultiHandler
  pub new_handler-keeps :
      (r : X.Rq) (k : ℕ) → rr.issued r k ≡ true → rr.issued (new_handler r).1 k ≡ true
  pub inject-keeps :
      (t : Told X L) (r : X.Rq) (k : ℕ) → rr.issued r k ≡ true → rr.issued (inject t r) k ≡ true

-- `for (p, _) in self.protocols.values_mut()`.
unfoldable pub on_each :
    {Rq : Type 0} → (Rq → Rq) → List (Name × (Rq × Option ℕ)) → List (Name × (Rq × Option ℕ))
on_each f [] = []
on_each f ((name, (rq, queue)) ∷ ps) = (name, (f rq, queue)) ∷ on_each f ps

module _ {X : Net} where
  unfoldable pub change_each : (X.Rq → X.Rq) → Broadcast X → Broadcast X
  unfolding on_each
  change_each f b = record b { protocols = on_each f b.protocols }

module _ {X : Net} {rr : RequestResponse X} {L : Links} (api : HandlerApi rr L) where
  open api use {inject}

  -- A handler for each protocol.
  unfoldable pub handlers_of :
      List (Name × (X.Rq × Option ℕ)) → List (Name × L.Handler) × List (Name × (X.Rq × Option ℕ))
  handlers_of [] = ([], [])
  handlers_of ((name, (rq, queue)) ∷ ps) =
      let (h, rq1) = api.new_handler rq in
      let (hs, ps1) = handlers_of ps in ((name, h) ∷ hs, (name, (rq1, queue)) ∷ ps1)

  -- `expect` on what `MultiHandler` makes of the handlers: it refuses handlers that share the name of an
  -- inbound protocol.
  unfoldable pub joined : List (Name × L.Handler) → IoResult L.MultiHandler
  joined hs = elim (api.try_from_iter hs) [ none ↦ panic | some h ↦ ok h ]

  unfoldable pub new_handler : Broadcast X → IoResult L.MultiHandler × Broadcast X
  unfolding handlers_of joined
  new_handler b = let (hs, ps) = handlers_of b.protocols in (joined hs, record b { protocols = ps })

  -- `get_mut` and the replacement of what it finds.
  unfoldable pub replace : Name → L.Handler → List (Name × L.Handler) → List (Name × L.Handler)
  replace protocol handler hs = elim (HashMap.get protocol hs) [
    | none ↦ hs
    | some h ↦ HashMap.insert protocol handler hs
  ]

  unfoldable pub new_handler_with_replacement :
      Name → L.Handler → Broadcast X → IoResult L.MultiHandler × Broadcast X
  unfolding handlers_of joined replace
  new_handler_with_replacement protocol handler b =
      let (hs, ps) = handlers_of b.protocols in
      (joined (replace protocol handler hs), record b { protocols = ps })

  unfoldable pub inject_connected : X.PeerId → Broadcast X → Broadcast X
  unfolding change_each
  inject_connected p b = change_each (inject (connected p)) b

  unfoldable pub inject_disconnected : X.PeerId → Broadcast X → Broadcast X
  unfolding change_each
  inject_disconnected p b = change_each (inject (disconnected p)) b

  unfoldable pub inject_connection_established :
      X.PeerId
      → L.ConnectionId
      → L.ConnectedPoint
      → Option (List L.Multiaddr)
      → Broadcast X
      → Broadcast X
  unfolding change_each
  inject_connection_established p conn endpoint failed_addresses b =
      change_each (inject (connection_established p conn endpoint failed_addresses)) b

  -- A behaviour that is told with a handler gets a new one of its own.
  unfoldable pub with_handler : (L.Handler → Told X L) → X.Rq → X.Rq
  with_handler t rq = let (handler, rq1) = api.new_handler rq in inject (t handler) rq1

  unfoldable pub inject_connection_closed :
      X.PeerId → L.ConnectionId → L.ConnectedPoint → L.MultiHandler → Broadcast X → Broadcast X
  unfolding change_each with_handler
  inject_connection_closed p conn endpoint h b =
      change_each (with_handler (connection_closed p conn endpoint)) b

  unfoldable pub inject_event :
      X.PeerId → L.ConnectionId → Name → L.HandlerEvent → Broadcast X → Broadcast X
  inject_event p conn p_name ev b = elim (HashMap.get p_name b.protocols) [
    | none ↦ b
    | some (proto, queue) ↦ record b {
      protocols = HashMap.insert p_name (inject (event p conn ev) proto, queue) b.protocols;
    }
  ]

  unfoldable pub inject_dial_failure :
      Option X.PeerId → L.MultiHandler → L.DialError → Broadcast X → Broadcast X
  unfolding change_each with_handler
  inject_dial_failure p h error b =
      change_each (with_handler (λ handler. dial_failure p handler error)) b

  unfoldable pub inject_new_listener : L.ListenerId → Broadcast X → Broadcast X
  unfolding change_each
  inject_new_listener id b = change_each (inject (new_listener id)) b

  unfoldable pub inject_new_listen_addr : L.ListenerId → L.Multiaddr → Broadcast X → Broadcast X
  unfolding change_each
  inject_new_listen_addr id addr b = change_each (inject (new_listen_addr id addr)) b

  unfoldable pub inject_expired_listen_addr : L.ListenerId → L.Multiaddr → Broadcast X → Broadcast X
  unfolding change_each
  inject_expired_listen_addr id addr b = change_each (inject (expired_listen_addr id addr)) b

  unfoldable pub inject_listener_error : L.ListenerId → L.ListenError → Broadcast X → Broadcast X
  unfolding change_each
  inject_listener_error id e b = change_each (inject (listener_error id e)) b

  unfoldable pub inject_listener_closed :
      L.ListenerId → Option L.ListenError → Broadcast X → Broadcast X
  unfolding change_each
  inject_listener_closed id reason b = change_each (inject (listener_closed id reason)) b

  unfoldable pub inject_new_external_addr : L.Multiaddr → Broadcast X → Broadcast X
  unfolding change_each
  inject_new_external_addr addr b = change_each (inject (new_external_addr addr)) b

  unfoldable pub inject_expired_external_addr : L.Multiaddr → Broadcast X → Broadcast X
  unfolding change_each
  inject_expired_external_addr addr b = change_each (inject (expired_external_addr addr)) b
