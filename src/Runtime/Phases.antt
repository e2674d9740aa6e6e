-- ===== src/Runtime/Phases.antt =====
-- The room that a phase belongs to: none of the phases leaves it.
use tss_libp2p.Prelude.{
  ◌-◌, ℕ, ◌≡◌, refl, sym, ◌∙◌, ap, Option, some, Option-cases, Bool-cases, inl, inr, nat_beq, subst,
  ◌⊎◌,
}
use tss_libp2p.Peer.{PeerApi}
use tss_libp2p.Io.{IoResult, ok, err, panic, stuck, >>=-eq-ok}
use tss_libp2p.Messages.{MessageType, coordination, computation}
use tss_libp2p.Varint.{VarintApi}
use tss_libp2p.Broadcast.{IncomingMessage}
use tss_libp2p.Service.{RoomId, NetworkService}
use tss_libp2p.Peerset.{Peerset, size, index_of}
use tss_libp2p.StartMsg
use tss_libp2p.StartMsg.{StartMsg}
use tss_libp2p.Rooms.{
  Phase1Channel, ReceiverProxy, ProxyInput, unwrap, new_phase1, new_proxy, back_to_phase1, forward,
  poll_proxy,
}
use tss_libp2p.Negotiation.{NegotiationState, NegotiationMsg, start, abort, new_negotiation}
use tss_libp2p.Coordination.{
  Phase1Msg, Phase1Input, Phase2Chan, Phase2Msg, Phase2Input, LocalRpc, nothing, canceled,
  requested, from_remote, from_local, begun, aborted, take_local, poll_phase1, give_up, join_start,
  poll_phase2,
}

-- What a room is asked for, after it has been a proxy's.
abbrev pub IsBack : {P : Type 0} → RoomId → RoomId → Phase1Channel P → ℕ → Type 0
IsBack room id ch tx = (room ≡ id) × (ch.id ≡ id) × (ch.on_local_rpc ≡ tx)

MessageType-cases : (m : MessageType) → (m ≡ coordination) ⊎ (m ≡ computation)
MessageType-cases coordination = inl refl
MessageType-cases computation = inr refl

module _ {PeerId : Type 0} where
  -- An output of phase 1 belongs to its room.
  abbrev pub FromRoom : RoomId → Phase1Msg PeerId → Type 0
  FromRoom id (from_remote p protocol session payload tx ch) = ch.id ≡ id
  FromRoom id (from_local room n negotiation) =
      (room ≡ id) × ((st : NegotiationState PeerId) × (negotiation.state ≡ some st) × (st.id ≡ id))

  abbrev pub OfRoom2 : RoomId → Phase2Msg PeerId → Type 0
  OfRoom2 id (begun room rx proxy parties peerset_rx body) = proxy.id ≡ id
  OfRoom2 id (aborted room ch tx) = IsBack room id ch tx

  abbrev pub OfNegotiation : RoomId → NegotiationMsg PeerId → Type 0
  OfNegotiation id (start agent on_done rx proxy parties peerset_rx args) = proxy.id ≡ id
  OfNegotiation id (abort room ch tx) = IsBack room id ch tx

  take_local-FromRoom :
      (l : LocalRpc) (rx : ℕ) (ch after : Phase1Channel PeerId) (out : Phase1Msg PeerId)
      → take_local l rx ch ≡ ok (after, some out)
      → FromRoom ch.id out
  unfolding take_local new_negotiation
  take_local-FromRoom nothing rx ch after out e = cc e
  take_local-FromRoom canceled rx ch after out e = cc e
  take_local-FromRoom (requested m) rx ch after out e =
      let made =
        from_local ch.id m.n (new_negotiation ch.id rx m.n m.args ch.service m.agent m.on_done) in
      let same : made ≡ out = cc e in subst (FromRoom ch.id) same (refl, (_, refl, refl))

  pub poll_phase1-FromRoom :
      (inp : Phase1Input PeerId) (ch after : Phase1Channel PeerId) (out : Phase1Msg PeerId)
      → poll_phase1 inp ch ≡ ok (after, some out)
      → FromRoom ch.id out
  unfolding poll_phase1
  poll_phase1-FromRoom inp ch after out e =
      let (rx, waits, rest) = >>=-eq-ok (unwrap ch.rx) _ e in
      elim (Option-cases inp.next) [
        | inl none_there ↦ take_local-FromRoom inp.local rx ch after out (rw none_there at rest)
        | inr (msg, there) ↦ elim (MessageType-cases msg.context.message_type) [
          | inl kind ↦
              let made =
                from_remote msg.peer_id msg.context.protocol_id msg.context.session_id msg.payload
                  msg.pending_response
                  (record { id = ch.id; rx = some rx; service = ch.service }) in
              let same : made ≡ out = cc (rw (there, kind) at rest) in
              subst (FromRoom ch.id) same refl
          | inr kind ↦ cc (rw (there, kind) at rest)
        ]
      ]

  give_up-OfRoom2 :
      (rpc : ℕ) (ch after : Phase2Chan PeerId) (out : Phase2Msg PeerId)
      → give_up rpc ch ≡ ok (after, some out)
      → OfRoom2 ch.id out
  unfolding give_up new_phase1
  give_up-OfRoom2 rpc ch after out e =
      let (rx, waits, rest) = >>=-eq-ok (unwrap ch.rx) _ e in
      let (phase1, tx) = new_phase1 ch.id rx ch.service rpc in
      let same : aborted ch.id phase1 tx ≡ out = cc rest in
      subst (OfRoom2 ch.id) same (refl, refl, refl)

  pub poll_proxy-IsBack :
      ⦃api : PeerApi PeerId⦄
      → (inp : ProxyInput PeerId) (proxy after : ReceiverProxy PeerId)
        (m : Option (IncomingMessage PeerId)) (room : RoomId) (ch : Phase1Channel PeerId) (tx : ℕ)
      → poll_proxy inp proxy ≡ ok (after, m, some (room, (ch, tx)))
      → IsBack room proxy.id ch tx
  unfolding poll_proxy back_to_phase1 forward new_phase1
  poll_proxy-IsBack inp proxy after m room ch tx e = elim (Bool-cases inp.is_closed) [
    | inl closed ↦
        let (rx, waits, rest) = >>=-eq-ok (unwrap proxy.rx) _ (rw closed at e) in
        let (phase1, sender) = new_phase1 proxy.id rx proxy.service inp.rpc in
        let same_room : proxy.id ≡ room = cc rest in
        let same_phase : phase1 ≡ ch = cc rest in
        let same_sender : sender ≡ tx = cc rest in
        (
          sym same_room,
          sym (ap (λ c. c.id) same_phase),
          sym (ap (λ c. c.on_local_rpc) same_phase) ∙ same_sender,
        )
    | inr running ↦ elim (Option-cases inp.next) [
      | inl none_there ↦
          let (rx, waits, rest) = >>=-eq-ok (unwrap proxy.rx) _ (rw (running, none_there) at e) in
          cc rest
      | inr (msg, there) ↦
          let (rx, waits, rest) = >>=-eq-ok (unwrap proxy.rx) _ (rw (running, there) at e) in
          let (i, found, last) = >>=-eq-ok (unwrap (index_of proxy.parties msg.peer_id)) _ rest in
          cc last
    ]
  ]

module _ {PeerId : Type 0} ⦃api : PeerApi PeerId⦄ where
  pub new_proxy-id :
      (room : RoomId) (rx : ℕ) (service : NetworkService PeerId) (parties : Peerset PeerId)
      (chan : ℕ) (proxy : ReceiverProxy PeerId) (receiver : ℕ)
      → new_proxy room rx service parties chan ≡ ok (proxy, receiver)
      → proxy.id ≡ room
  unfolding new_proxy
  new_proxy-id room rx service parties chan proxy receiver e =
      elim (Bool-cases (nat_beq (size parties) 0)) [
        | inl empty ↦ cc (rw empty at e)
        | inr some_peer ↦
            let made : ReceiverProxy PeerId = record {
              id = room;
              rx = some rx;
              tx = chan;
              capacity = size parties - 1;
              service = service;
              parties = parties;
            } in
            let same : made ≡ proxy = cc (rw some_peer at e) in sym (ap (λ q. q.id) same)
      ]

module _ {PeerId : Type 0} ⦃api : PeerApi PeerId⦄ (varint : VarintApi) where
  join_start-OfRoom2 :
      (msg : IncomingMessage PeerId) (inp : Phase2Input PeerId) (ch after : Phase2Chan PeerId)
      (out : Phase2Msg PeerId)
      → join_start varint msg inp ch ≡ ok (after, some out)
      → OfRoom2 ch.id out
  unfolding join_start
  join_start-OfRoom2 msg inp ch after out e =
      go (StartMsg.from_bytes varint msg.payload ch.service.local_peer_id inp.peerset_chan) refl
    where
      go :
          (r : IoResult (StartMsg PeerId × ℕ))
          → StartMsg.from_bytes varint msg.payload ch.service.local_peer_id inp.peerset_chan ≡ r
          → OfRoom2 ch.id out
      go (err x) eq = give_up-OfRoom2 inp.rpc ch after out (rw (eq, join_start) at e)
      go panic eq = cc (rw (eq, join_start) at e)
      go stuck eq = cc (rw (eq, join_start) at e)
      go (ok (start_msg, peerset_rx)) eq =
          let (rx, waits, rest) = >>=-eq-ok (unwrap ch.rx) _ (rw (eq, join_start) at e) in
          let ((proxy, receiver), made, last) =
            >>=-eq-ok (new_proxy ch.id rx ch.service start_msg.parties inp.proxy_chan) _ rest in
          let same : begun ch.id receiver proxy start_msg.parties peerset_rx start_msg.body ≡ out =
            cc last in
          subst (OfRoom2 ch.id) same
            (new_proxy-id ch.id rx ch.service start_msg.parties inp.proxy_chan proxy receiver made)

  pub poll_phase2-OfRoom2 :
      (inp : Phase2Input PeerId) (ch after : Phase2Chan PeerId) (out : Phase2Msg PeerId)
      → poll_phase2 varint inp ch ≡ ok (after, some out)
      → OfRoom2 ch.id out
  unfolding poll_phase2 join_start
  poll_phase2-OfRoom2 inp ch after out e =
      let (rx, waits, rest) = >>=-eq-ok (unwrap ch.rx) _ e in
      elim (Option-cases inp.next) [
        | inl none_there ↦ elim (Bool-cases inp.is_over) [
          | inl over ↦ give_up-OfRoom2 inp.rpc ch after out (rw (none_there, over) at rest)
          | inr more ↦ cc (rw (none_there, more) at rest)
        ]
        | inr (msg, there) ↦ elim (MessageType-cases msg.context.message_type) [
          | inl kind ↦ join_start-OfRoom2 msg inp ch after out (rw (there, kind) at rest)
          | inr kind ↦ cc (rw (there, kind) at rest)
        ]
      ]
