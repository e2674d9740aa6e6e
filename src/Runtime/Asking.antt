-- ===== src/Runtime/Asking.antt =====
-- Which rooms a local request can reach.
use tss_libp2p.Prelude.{
  ℕ, ◌≡◌, ◌≢◌, refl, sym, List, [], ◌∷◌, Option, some, none, Bool, false, ◌==◌, All, Bool-cases,
  inl, inr,
}
use tss_libp2p.Peer.{PeerApi}
use tss_libp2p.Io.{ok, panic}
use tss_libp2p.HashMap
use tss_libp2p.HashMap.{get-insert, get-insert_self, get-remove_self}
use tss_libp2p.Broadcast.{name_eq}
use tss_libp2p.Service.{RoomId}
use tss_libp2p.Rooms.{ComputeAgent, Phase1Channel, new_phase1}
use tss_libp2p.Coordination.{canceled, poll_phase1, take_local, aborted}
use tss_libp2p.Runtime.{
  ComputationRequest, Daemon, ask_room, busy, put_back, on_computation, on_phase2, modify,
}

pub modify_absent :
    (id : RoomId) (tx : ℕ) (m : List (RoomId × ℕ)) → HashMap.get id m ≡ none → modify id tx m ≡ m
unfolding modify
modify_absent id tx m gone = rw (gone, modify) refl

pub modify_present :
    (id : RoomId) (tx old : ℕ) (m : List (RoomId × ℕ))
    → HashMap.get id m ≡ some old
    → modify id tx m ≡ HashMap.insert id tx m
unfolding modify
modify_present id tx old m there = rw (there, modify) refl

module _ {PeerId : Type 0} where
  -- The loop holds the sender of the room's channel.
  abbrev pub Holds : List (RoomId × ℕ) → Phase1Channel PeerId → Type 0
  Holds rpc ch = HashMap.get ch.id rpc ≡ some ch.on_local_rpc

  -- A local request reaches every room that waits.
  abbrev pub CanAsk : Daemon PeerId → Type 0
  CanAsk d = All (Holds d.rooms_rpc) d.rooms_coordination

  abbrev pub NotWaiting : RoomId → Daemon PeerId → Type 0
  NotWaiting id d = All (λ (ch : Phase1Channel PeerId). ch.id ≢ id) d.rooms_coordination

  Holds-insert :
      (id : RoomId) (tx : ℕ) (rpc : List (RoomId × ℕ)) (chs : List (Phase1Channel PeerId))
      → All (λ (ch : Phase1Channel PeerId). ch.id ≢ id) chs
      → All (Holds rpc) chs
      → All (Holds (HashMap.insert id tx rpc)) chs
  Holds-insert id tx rpc [] away held = tt
  Holds-insert id tx rpc (ch ∷ chs) (apart, away) (held, others) = (
    elim (Bool-cases (id == ch.id)) [
      | inl same ↦ absurd (apart (sym ((name_eq.beq_iff id ch.id).0 same)))
      | inr other ↦ rw (get-insert id ch.id tx rpc, other) held
    ],
    Holds-insert id tx rpc chs away others,
  )

  pub put_back-CanAsk :
      (d : Daemon PeerId) (id : RoomId) (ch : Phase1Channel PeerId) (tx : ℕ)
      → CanAsk d
      → NotWaiting id d
      → ch.id ≡ id
      → ch.on_local_rpc ≡ tx
      → CanAsk (put_back id ch tx d)
  unfolding put_back
  put_back-CanAsk d id ch tx held away named its = (
    rw (named, its) (get-insert_self id tx d.rooms_rpc),
    Holds-insert id tx d.rooms_rpc d.rooms_coordination away held,
  )

  pub reaches :
      (make : ℕ → Option ComputeAgent) (is_canceled : ℕ → Bool) (d : Daemon PeerId)
      (req : ComputationRequest) (on_rpc : ℕ) (agent : ComputeAgent)
      → HashMap.get req.room_id d.rooms_rpc ≡ some on_rpc
      → make req.protocol_id ≡ some agent
      → is_canceled on_rpc ≡ false
      → on_computation make is_canceled req d ≡ (
        record d { rooms_rpc = HashMap.remove req.room_id d.rooms_rpc },
        ask_room on_rpc
              (record { n = req.n; args = req.args; agent = agent; on_done = req.on_done })
            ∷ [],
      )
  unfolding on_computation
  reaches make is_canceled d req on_rpc agent held known open_rpc =
      rw (held, on_computation) (rw (known, open_rpc) refl)

  unreached :
      (make : ℕ → Option ComputeAgent) (is_canceled : ℕ → Bool) (d : Daemon PeerId)
      (req : ComputationRequest)
      → HashMap.get req.room_id d.rooms_rpc ≡ none
      → on_computation make is_canceled req d ≡ (d, busy req.on_done ∷ [])
  unfolding on_computation
  unreached make is_canceled d req gone = rw (gone, on_computation) refl

module _ {PeerId : Type 0} ⦃api : PeerApi PeerId⦄ where
  -- A local request that a room has not read yet is lost when a peer asks first: the request takes
  -- the sender from the loop, and if phase 2 is then aborted, the room waits on a channel without a
  -- sender, every later request is answered with an error, and the room's next poll without a message
  -- panics.
  pub on_computation-aborted :
      (make : ℕ → Option ComputeAgent) (is_canceled : ℕ → Bool) (d : Daemon PeerId)
      (req : ComputationRequest) (on_rpc rpc rx : ℕ) (agent other : ComputeAgent)
      → HashMap.get req.room_id d.rooms_rpc ≡ some on_rpc
      → make req.protocol_id ≡ some agent
      → is_canceled on_rpc ≡ false
      → let (d1, es) = on_computation make is_canceled req d in
        let (ch, tx) = new_phase1 req.room_id rx d.network_service rpc in
        (d2 : Daemon PeerId) × (on_phase2 other (aborted req.room_id ch tx) d1 ≡ ok d2)
        × (d2.rooms_coordination ≡ ch ∷ d.rooms_coordination)
        × (HashMap.get req.room_id d2.rooms_rpc ≡ none)
        × ((later : ComputationRequest)
            → later.room_id ≡ req.room_id
            → on_computation make is_canceled later d2 ≡ (d2, busy later.on_done ∷ []))
        × (poll_phase1 (record { next = none; local = canceled }) ch ≡ panic)
  unfolding on_phase2 poll_phase1 take_local new_phase1
  on_computation-aborted make is_canceled d req on_rpc rpc rx agent other held known open_rpc =
      let gone = get-remove_self req.room_id d.rooms_rpc in
      let ch = (new_phase1 req.room_id rx d.network_service rpc).0 in
      let d2 : Daemon PeerId = record d {
        rooms_rpc = HashMap.remove req.room_id d.rooms_rpc;
        rooms_coordination = ch ∷ d.rooms_coordination;
      } in
      rw (reaches make is_canceled d req on_rpc agent held known open_rpc) (
        d2,
        rw (modify_absent req.room_id rpc (HashMap.remove req.room_id d.rooms_rpc) gone) refl,
        refl,
        gone,
        λ later same. unreached make is_canceled d2 later (rw same gone),
        refl,
      )
