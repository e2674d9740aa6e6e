-- ===== src/Coordination.antt =====
-- node/runtime/src/coordination.rs: the two phases by which a node joins a computation. One call of
-- `poll_phase1` or `poll_phase2` is one poll; none for its output is `Poll::Pending`.
pub mod Joined
pub mod Agreement
use tss_libp2p.Prelude.{ℕ, List, Option, some, none, Bool, if◌then◌else◌}
use tss_libp2p.Peer.{PeerApi}
use tss_libp2p.Io.{IoResult, ok, err, panic, stuck, ◌>>=◌}
use tss_libp2p.Messages.{MessageType, coordination, computation}
use tss_libp2p.Broadcast.{IncomingMessage}
use tss_libp2p.Service.{RoomId, NetworkService}
use tss_libp2p.Varint.{VarintApi}
use tss_libp2p.Peerset.{Peerset}
use tss_libp2p.StartMsg
use tss_libp2p.Rooms.{LocalRpcMsg, Phase1Channel, ReceiverProxy, new_phase1, new_proxy, unwrap}
use tss_libp2p.Negotiation.{NegotiationChan, new_negotiation}

-- A room whose node has agreed to take part and waits for the start message.
pub record Phase2Chan (PeerId : Type 0) : Type 0 where
  pub id : RoomId
  pub rx : Option ℕ
  pub service : NetworkService PeerId

pub data Phase1Msg (PeerId : Type 0) : Type 0 where
  -- The peer, its protocol and session, the payload, the channel of the answer, and the next phase.
  from_remote : PeerId → ℕ → ℕ → List ℕ → ℕ → Phase2Chan PeerId → Phase1Msg PeerId
  from_local : RoomId → ℕ → NegotiationChan PeerId → Phase1Msg PeerId

-- What `try_recv` gives on the channel for local requests.
pub data LocalRpc : Type 0 where
  nothing : LocalRpc
  canceled : LocalRpc
  requested : LocalRpcMsg → LocalRpc

pub record Phase1Input (PeerId : Type 0) : Type 0 where
  pub next : Option (IncomingMessage PeerId)
  pub local : LocalRpc

abbrev pub Phase1Poll : Type 0 → Type 0
Phase1Poll PeerId = Phase1Channel PeerId × Option (Phase1Msg PeerId)

module _ {PeerId : Type 0} where
  -- The channel for local requests: a dropped sender is a panic.
  unfoldable pub take_local : LocalRpc → ℕ → Phase1Channel PeerId → IoResult (Phase1Poll PeerId)
  take_local nothing rx ch = ok (ch, none)
  take_local canceled rx ch = panic
  take_local (requested m) rx ch = ok (
    record ch { rx = none },
    some (from_local ch.id m.n (new_negotiation ch.id rx m.n m.args ch.service m.agent m.on_done)),
  )

  unfoldable pub poll_phase1 :
      Phase1Input PeerId → Phase1Channel PeerId → IoResult (Phase1Poll PeerId)
  unfolding take_local
  poll_phase1 inp ch = do
    rx ← unwrap ch.rx
    elim inp.next [
      | none ↦ take_local inp.local rx ch
      | some msg ↦ elim msg.context.message_type [
        | coordination ↦ ok (
          record ch { rx = none },
          some (
              from_remote msg.peer_id msg.context.protocol_id msg.context.session_id msg.payload
                msg.pending_response (record { id = ch.id; rx = some rx; service = ch.service })),
        )
        | computation ↦ panic
      ]
    ]

  -- `Phase2Chan::abort`.
  unfoldable pub abort_phase2 :
      ℕ → Phase2Chan PeerId → IoResult (RoomId × (Phase1Channel PeerId × ℕ))
  abort_phase2 rpc ch = do rx ← unwrap ch.rx; ok (ch.id, new_phase1 ch.id rx ch.service rpc)

pub data Phase2Msg (PeerId : Type 0) : Type 0 where
  -- The room, its receiver, the proxy, the parties, the channel of the peer set, and the body.
  begun : RoomId → ℕ → ReceiverProxy PeerId → Peerset PeerId → ℕ → List ℕ → Phase2Msg PeerId
  aborted : RoomId → Phase1Channel PeerId → ℕ → Phase2Msg PeerId

-- What a poll finds, and the channels it may make.
pub record Phase2Input (PeerId : Type 0) : Type 0 where
  pub next : Option (IncomingMessage PeerId)
  pub is_over : Bool
  pub peerset_chan : ℕ
  pub proxy_chan : ℕ
  pub rpc : ℕ

abbrev pub Phase2Poll : Type 0 → Type 0
Phase2Poll PeerId = Phase2Chan PeerId × Option (Phase2Msg PeerId)

module _ {PeerId : Type 0} where
  -- Back to phase 1.
  unfoldable pub give_up : ℕ → Phase2Chan PeerId → IoResult (Phase2Poll PeerId)
  give_up rpc ch = do
    rx ← unwrap ch.rx
    let (ch1, tx) = new_phase1 ch.id rx ch.service rpc
    ok (record ch { rx = none }, some (aborted ch.id ch1 tx))

module _ {PeerId : Type 0} ⦃api : PeerApi PeerId⦄ (varint : VarintApi) where
  -- The start message begins the computation; one that does not parse ends the phase.
  unfoldable pub join_start :
      IncomingMessage PeerId → Phase2Input PeerId → Phase2Chan PeerId → IoResult (Phase2Poll PeerId)
  unfolding give_up
  join_start msg inp ch =
      elim (StartMsg.from_bytes varint msg.payload ch.service.local_peer_id inp.peerset_chan) [
        | ok (start_msg, peerset_rx) ↦ do
          rx ← unwrap ch.rx
          (proxy, receiver) ← new_proxy ch.id rx ch.service start_msg.parties inp.proxy_chan
          ok (
            record ch { rx = none },
            some (begun ch.id receiver proxy start_msg.parties peerset_rx start_msg.body),
          )
        | err e ↦ give_up inp.rpc ch
        | panic ↦ panic
        | stuck ↦ stuck
      ]

  unfoldable pub poll_phase2 : Phase2Input PeerId → Phase2Chan PeerId → IoResult (Phase2Poll PeerId)
  unfolding join_start give_up
  poll_phase2 inp ch = do
    rx ← unwrap ch.rx
    elim inp.next [
      | none ↦ if inp.is_over then give_up inp.rpc ch else ok (ch, none)
      | some msg ↦ elim msg.context.message_type [
        | coordination ↦ join_start msg inp ch
        | computation ↦ panic
      ]
    ]
