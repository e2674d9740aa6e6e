-- ===== src/Runtime/Negotiated.antt =====
-- A negotiation stays with its room.
use tss_libp2p.Prelude.{
  ◌≡◌, refl, ◌∙◌, List, [], ◌∷◌, ◌++◌, Option, some, none, Option-cases, Bool-cases, inl, inr,
  nat_beq, length, subst,
}
use tss_libp2p.Peer.{PeerApi}
use tss_libp2p.Io.{IoResult, ok, err, panic, stuck, ◌>>=◌}
use tss_libp2p.Varint.{VarintApi}
use tss_libp2p.Broadcast.{Net, Reply, replied, failed}
use tss_libp2p.HashSet.{set_insert}
use tss_libp2p.Service.{RoomId, NetworkMessage}
use tss_libp2p.Peerset
use tss_libp2p.StartMsg
use tss_libp2p.Rooms.{unwrap, new_phase1, new_proxy}
use tss_libp2p.Negotiation.{
  NegotiationChan, NegotiationState, NegotiationInput, NegotiationPoll, negotiate, receive, begin,
  wait, ask, run_negotiation, unwrap_io,
}
use tss_libp2p.Runtime.Phases.{OfNegotiation, new_proxy-id}

module _ {PeerId : Type 0} where
  abbrev pub OfState : RoomId → NegotiationChan PeerId → Type 0
  OfState id chan = (st : NegotiationState PeerId) × (chan.state ≡ some st) × (st.id ≡ id)

  -- What a poll leaves or gives belongs to the room.
  abbrev pub Post : RoomId → IoResult (NegotiationPoll PeerId) → Type 0
  Post id (ok (chan, sent, none)) = OfState id chan
  Post id (ok (chan, sent, some out)) = OfNegotiation id out
  Post id (err e) = Unit {0}
  Post id panic = Unit {0}
  Post id stuck = Unit {0}

  bind-Post :
      {A : Type 0} (id : RoomId) (m : IoResult A) (f : A → IoResult (NegotiationPoll PeerId))
      → ((a : A) → m ≡ ok a → Post id (f a))
      → Post id (m >>= f)
  bind-Post id (ok a) f h = h a refl
  bind-Post id (err e) f h = tt
  bind-Post id panic f h = tt
  bind-Post id stuck f h = tt

  with_more :
      (id : RoomId) (sent : List (NetworkMessage PeerId)) (q : NegotiationPoll PeerId)
      → Post id (ok q)
      → Post id (ok (q.0, sent ++ q.1, q.2))
  with_more id sent (chan, more, none) h = h
  with_more id sent (chan, more, some out) h = h

  -- A poll and the rest of the run, if it gave no output.
  go_on-Post :
      (id : RoomId) (rest : NegotiationChan PeerId → IoResult (NegotiationPoll PeerId))
      (r : NegotiationPoll PeerId)
      → ((chan : NegotiationChan PeerId) → OfState id chan → Post id (rest chan))
      → Post id (ok r)
      → Post id (elim r.2 [
        | some out ↦ ok (r.0, r.1, some out)
        | none ↦ rest r.0 >>= λ q. ok (q.0, r.1 ++ q.1, q.2)
      ])
  go_on-Post id rest (chan, sent, some out) later p = p
  go_on-Post id rest (chan, sent, none) later p =
      bind-Post id (rest chan) _ (λ q e. with_more id sent q (subst (Post id) e (later chan p)))

module _ {X : Net} ⦃api : PeerApi X.PeerId⦄ (varint : VarintApi) (id : RoomId) where
  wait-Post :
      (inp : NegotiationInput X) (sent : List (NetworkMessage X.PeerId))
      (st : NegotiationState X.PeerId) (chan : NegotiationChan X.PeerId)
      → st.id ≡ id
      → Post id (wait varint inp sent st chan)
  unfolding wait new_phase1
  wait-Post inp sent st chan h = elim (Bool-cases inp.is_over) [
    | inl over ↦ rw (over, wait) (bind-Post id (unwrap chan.rx) _ (λ rx e. (h, h, refl)))
    | inr more ↦ rw (more, wait) (st, refl, h)
  ]

  begin-Post :
      (inp : NegotiationInput X) (st : NegotiationState X.PeerId) (chan : NegotiationChan X.PeerId)
      → st.id ≡ id
      → Post id (begin varint inp st chan)
  unfolding begin
  begin-Post inp st chan h =
      let (parties, peerset_rx) = Peerset.new st.peers st.service.local_peer_id inp.peerset_chan in
      bind-Post id (unwrap chan.agent) _ (λ agent _.
        bind-Post id
          (unwrap_io (StartMsg.to_bytes varint (record { parties = parties; body = st.args }))) _
          (λ payload _. bind-Post id (unwrap chan.rx) _ (λ rx _.
            bind-Post id (new_proxy st.id rx st.service parties inp.proxy_chan) _ (λ r made.
              new_proxy-id st.id rx st.service parties inp.proxy_chan r.0 r.1 made ∙ h))))

  receive-Post :
      (reply : Option (Reply X)) (inp : NegotiationInput X) (st : NegotiationState X.PeerId)
      (chan : NegotiationChan X.PeerId)
      → st.id ≡ id
      → Post id (receive varint reply inp st chan)
  unfolding receive
  receive-Post none inp st chan h = wait-Post inp st.pending (record st { pending = [] }) chan h
  receive-Post (some (failed x)) inp st chan h =
      wait-Post inp st.pending (record st { pending = [] }) chan h
  receive-Post (some (replied p bs)) inp st chan h =
      let st1 = record st { peers = set_insert p st.peers } in
      elim (Bool-cases (nat_beq (length st1.peers) st.n)) [
        | inl all ↦ rw (all, receive) (begin-Post inp st1 chan h)
        | inr few ↦
            rw (few, receive) (wait-Post inp st.pending (record st1 { pending = [] }) chan h)
      ]

  negotiate-Post :
      (inp : NegotiationInput X) (chan : NegotiationChan X.PeerId)
      → OfState id chan
      → Post id (negotiate varint inp chan)
  unfolding negotiate ask
  negotiate-Post inp chan (st0, here, h) =
      rw (here, negotiate)
        (elim (Option-cases st0.responses) [
          | inl none_yet ↦
              rw none_yet
                (bind-Post id (unwrap chan.agent) _ (λ agent _. wait-Post inp st0.pending _ chan h))
          | inr (rx, asked) ↦ rw asked (receive-Post inp.reply inp st0 chan h)
        ])

  -- All polls of a negotiation, up to its first output, stay with the room.
  pub run_negotiation-Post :
      (inputs : List (NegotiationInput X)) (chan : NegotiationChan X.PeerId)
      → OfState id chan
      → Post id (run_negotiation varint inputs chan)
  unfolding run_negotiation
  run_negotiation-Post [] chan h = h
  run_negotiation-Post (i ∷ is) chan h = bind-Post id (negotiate varint i chan) _ (λ r e.
      go_on-Post id (run_negotiation varint is) r (run_negotiation-Post is)
        (subst (Post id) e (negotiate-Post i chan h)))
