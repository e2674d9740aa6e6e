-- ===== src/Runtime/Returns.antt =====
-- The rooms that come back to wait.
use tss_libp2p.Prelude.{
  ℕ, ◌≡◌, ◌≢◌, refl, sym, ap, [], ◌∷◌, Option, some, none, Bool, false, ◌==◌, Bool-cases, inl, inr,
}
use tss_libp2p.Peer.{PeerApi}
use tss_libp2p.Io.{ok}
use tss_libp2p.HashMap
use tss_libp2p.HashMap.{get-insert, get-insert_self, get-remove_self}
use tss_libp2p.Broadcast.{name_eq}
use tss_libp2p.Service.{RoomId}
use tss_libp2p.Rooms.{ComputeAgent, Phase1Channel, new_phase1}
use tss_libp2p.Negotiation.{abort}
use tss_libp2p.Coordination.{aborted, Phase2Msg, Phase2Chan, abort_phase2}
use tss_libp2p.Runtime.{
  ComputationRequest, Daemon, ask_room, put_back, on_computation, on_proxy, on_local, on_remote,
  on_phase2,
}
use tss_libp2p.Runtime.Asking.{reaches, modify_present}

module _ {PeerId : Type 0} where
  -- The room of `phase1` waits again after the step from `d` to `after`, and can be asked.
  abbrev pub Returned :
      (ℕ → Option ComputeAgent)
      → (ℕ → Bool)
      → Daemon PeerId
      → Phase1Channel PeerId
      → Daemon PeerId
      → Type 0
  Returned make is_canceled d phase1 after =
      (after.rooms_coordination ≡ phase1 ∷ d.rooms_coordination)
      × (HashMap.get phase1.id after.rooms_rpc ≡ some phase1.on_local_rpc)
      × ((room : RoomId)
          → room ≢ phase1.id
          → HashMap.get room after.rooms_rpc ≡ HashMap.get room d.rooms_rpc)
      × (after.network_proxies ≡ d.network_proxies)
      × (after.protocol_executions ≡ d.protocol_executions)
      × ((req : ComputationRequest) (agent : ComputeAgent)
          → req.room_id ≡ phase1.id
          → make req.protocol_id ≡ some agent
          → is_canceled phase1.on_local_rpc ≡ false
          → (on_computation make is_canceled req after).1
            ≡ ask_room phase1.on_local_rpc
                (record { n = req.n; args = req.args; agent = agent; on_done = req.on_done })
              ∷ [])

module _ {PeerId : Type 0} ⦃api : PeerApi PeerId⦄ where
  put_back-Returned :
      (make : ℕ → Option ComputeAgent) (is_canceled : ℕ → Bool) (d : Daemon PeerId)
      (ch : Phase1Channel PeerId)
      → Returned make is_canceled d ch (put_back ch.id ch ch.on_local_rpc d)
  unfolding put_back
  put_back-Returned make is_canceled d ch =
      let held = get-insert_self ch.id ch.on_local_rpc d.rooms_rpc in
      (
        refl,
        held,
        λ room other. elim (Bool-cases (ch.id == room)) [
          | inl same ↦ absurd (other (sym ((name_eq.beq_iff ch.id room).0 same)))
          | inr differs ↦ rw (get-insert ch.id room ch.on_local_rpc d.rooms_rpc, differs) refl
        ],
        refl,
        refl,
        λ req agent same known open_rpc.
            ap (λ r. r.1)
              (reaches make is_canceled (put_back ch.id ch ch.on_local_rpc d) req ch.on_local_rpc
                agent (rw same held) known open_rpc),
      )

  -- Whatever the other rooms do, a room that comes back waits again and can be asked: by an end of a
  -- computation, by a negotiation that is given up, by a request of a peer for a protocol that is not
  -- known, and by an abort of phase 2 if the loop still holds a sender for the room. The room's new
  -- channel joins those that wait, the loop holds its sender and keeps the senders of all other rooms,
  -- the computations and their proxies, and the next request for the room and a known protocol goes to
  -- that channel, if the room has not dropped it.
  pub on_proxy-Returned :
      (make : ℕ → Option ComputeAgent) (is_canceled : ℕ → Bool) (d : Daemon PeerId)
      (channel : Phase2Chan PeerId) (agent : ComputeAgent) (outcome : Phase2Msg PeerId)
      (protocol_id response_tx n rx rpc old : ℕ)
      → channel.rx ≡ some rx
      → make protocol_id ≡ none
      → let phase1 = new_phase1 channel.id rx channel.service rpc in
        Returned make is_canceled d phase1.0 (on_proxy channel.id phase1.0 phase1.1 d)
        × ((d1 : Daemon PeerId) × (on_local channel.id n (abort channel.id phase1.0 phase1.1) d
              ≡ ok d1)
            × Returned make is_canceled d phase1.0 d1)
        × ((d1 : Daemon PeerId) × (on_remote make protocol_id response_tx channel outcome rpc d
              ≡ ok (d1, []))
            × Returned make is_canceled d phase1.0 d1)
        × (HashMap.get channel.id d.rooms_rpc ≡ some old
            → (d1 : Daemon PeerId) × (on_phase2 agent (aborted channel.id phase1.0 phase1.1) d
                ≡ ok d1)
              × Returned make is_canceled d phase1.0 d1)
  unfolding put_back on_proxy on_local on_remote on_phase2 abort_phase2 new_phase1
  on_proxy-Returned make is_canceled d channel agent outcome protocol_id response_tx n rx rpc old
        waits unknown =
      let (phase1, tx) = new_phase1 channel.id rx channel.service rpc in
      let back = put_back-Returned make is_canceled d phase1 in
      (
        back,
        (_, refl, back),
        (
          put_back channel.id phase1 tx d,
          rw (unknown, on_remote) (rw (waits, abort_phase2) refl),
          back,
        ),
        λ there. (
          put_back channel.id phase1 tx d,
          rw (modify_present channel.id tx old d.rooms_rpc there) refl,
          back,
        ),
      )
