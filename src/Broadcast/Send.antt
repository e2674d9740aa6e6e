-- ===== src/Broadcast/Send.antt =====
-- `Broadcast::new` and the sending of requests. What is handed to a channel by `try_send` is listed;
-- whether the channel takes it only changes a log line here. `now` is the time.
use tss_libp2p.Prelude.{
  ℕ, ◌+◌, List, [], ◌∷◌, ◌++◌, Option, some, none, if◌then◌else◌, ◌||◌, Bool, true, false,
}
use tss_libp2p.HashMap
use tss_libp2p.Messages.{WireMessage, MessageContext}
use tss_libp2p.Broadcast.{
  Name, name_eq, id_eq, RequestFailure, not_connected, unknown_protocol, IfDisconnected,
  should_connect, ProtocolConfig, Net, RequestResponse, Broadcast, failed, Effect, reply,
}

-- `Result<Broadcast, RegisterError>`.
pub data Registered {ℓ} (A : Type ℓ) : Type ℓ where
  registered : A → Registered A
  duplicate_protocol : Name → Registered A

abbrev pub is_some {ℓ} : {A : Type ℓ} → Option A → Bool
is_some none = false
is_some (some a) = true

module _ {X : Net} (rr : RequestResponse X) where
  open rr use {create, is_connected, send_request}

  -- The loop of `new` over the configurations.
  unfoldable pub register :
      List (Name × (X.Rq × Option ℕ))
      → List ProtocolConfig
      → Registered (List (Name × (X.Rq × Option ℕ)))
  register protocols [] = registered protocols
  register protocols (cfg ∷ list) =
      let rq_rp =
        create cfg.max_request_size cfg.max_response_size cfg.name (is_some cfg.inbound_queue)
          cfg.request_timeout (cfg.request_timeout + 10) in
      let rest = register (HashMap.insert cfg.name (rq_rp, cfg.inbound_queue) protocols) list in
      elim (HashMap.get cfg.name protocols) [ none ↦ rest | some _ ↦ duplicate_protocol cfg.name ]

  unfoldable pub new : List ProtocolConfig → Registered (Broadcast X)
  unfolding register
  new list = elim (register [] list) [
    | duplicate_protocol name ↦ duplicate_protocol name
    | registered protocols ↦ registered (record {
      protocols = protocols;
      pending_requests = [];
      pending_responses = [];
      pending_responses_arrival_time = [];
      send_feedback = [];
    })
  ]

  -- A failure for whoever awaits the response.
  abbrev pub offer_failure : Option ℕ → RequestFailure X → List (Effect X)
  offer_failure none e = []
  offer_failure (some tx) e = reply tx (failed e) ∷ []

  -- The request is sent by the behaviour of its protocol and noted as pending.
  unfoldable pub send_by :
      ℕ → Broadcast X → X.PeerId → Name → WireMessage → Option ℕ → X.Rq → Option ℕ → Broadcast X
  send_by now b target protocol_id message pending_response protocol queue =
      let (request_id, protocol') = send_request protocol target message in
      record b {
        protocols = HashMap.insert protocol_id (protocol', queue) b.protocols;
        pending_requests =
            HashMap.insert (record { protocol = protocol_id; request_id = request_id })
              (now, pending_response) b.pending_requests;
      }

  unfoldable pub send_wire_message :
      ℕ
      → Broadcast X
      → X.PeerId
      → Name
      → WireMessage
      → Option ℕ
      → IfDisconnected
      → Broadcast X × List (Effect X)
  unfolding send_by
  send_wire_message now b target protocol_id message pending_response connect =
      elim (HashMap.get protocol_id b.protocols) [
        | none ↦ (b, offer_failure pending_response unknown_protocol)
        | some (protocol, queue) ↦
            if is_connected protocol target || should_connect connect
            then (send_by now b target protocol_id message pending_response protocol queue, [])
            else (b, offer_failure pending_response not_connected)
      ]

  unfoldable pub send_message :
      ℕ
      → Broadcast X
      → X.PeerId
      → Name
      → MessageContext
      → List ℕ
      → ℕ
      → IfDisconnected
      → Broadcast X × List (Effect X)
  unfolding send_wire_message
  send_message now b target protocol_id ctx payload pending_response connect =
      send_wire_message now b target protocol_id
        (record { context = ctx; payload = payload; is_broadcast = false }) (some pending_response)
        connect

  unfoldable pub broadcast_message :
      ℕ
      → Broadcast X
      → List X.PeerId
      → Name
      → MessageContext
      → List ℕ
      → Option ℕ
      → IfDisconnected
      → Broadcast X × List (Effect X)
  broadcast_message now b [] protocol_id ctx payload pending_response connect = (b, [])
  broadcast_message now b (target ∷ targets) protocol_id ctx payload pending_response connect =
      let (b1, es) =
        send_wire_message now b target protocol_id
          (record { context = ctx; payload = payload; is_broadcast = true }) pending_response
          connect in
      let (b2, fs) =
        broadcast_message now b1 targets protocol_id ctx payload pending_response connect in
      (b2, es ++ fs)
