-- ===== src/Runtime.antt =====
-- node/runtime/src/runtime.rs: the loop of `RuntimeDaemon::run`, a handler for each branch of its
-- `select!`. Within a branch the loop awaits the next phase of the room, whose output is an argument.
-- A future that has given its output has left its set.
pub mod Asking
pub mod Returns
pub mod Start
pub mod Phases
pub mod Negotiated
pub mod Turns
pub mod Places
pub mod Handled
pub mod Kept
use tss_libp2p.Prelude.{ℕ, List, [], ◌∷◌, Option, some, none, Bool, true, false, if◌then◌else◌}
use tss_libp2p.Peer.{PeerApi}
use tss_libp2p.Io.{IoResult, ok, ◌>>=◌}
use tss_libp2p.HashMap
use tss_libp2p.Broadcast.{name_eq}
use tss_libp2p.Service.{RoomId, NetworkService}
use tss_libp2p.Echo.{EchoGadget}
use tss_libp2p.Echo
use tss_libp2p.Peerset.{size}
use tss_libp2p.Rooms.{ComputeAgent, LocalRpcMsg, Phase1Channel, ReceiverProxy, new_phase1}
use tss_libp2p.Negotiation.{NegotiationMsg, start, abort}
use tss_libp2p.Coordination.{Phase2Chan, abort_phase2, Phase2Msg, begun, aborted}
use tss_libp2p.Execution.{ProtocolExecution, new_execution}

-- `RuntimeMessage::RequestComputation`.
pub record ComputationRequest : Type 0 where
  pub room_id : RoomId
  pub n : ℕ
  pub protocol_id : ℕ
  pub args : List ℕ
  pub on_done : ℕ

-- The state of the loop: the senders of local requests, and the futures that it polls.
pub record Daemon (PeerId : Type 0) : Type 0 where
  pub network_service : NetworkService PeerId
  pub rooms_rpc : List (RoomId × ℕ)
  pub rooms_coordination : List (Phase1Channel PeerId)
  pub network_proxies : List (ReceiverProxy PeerId)
  pub protocol_executions : List (EchoGadget × ProtocolExecution PeerId)

-- What the loop sends.
pub data RuntimeEffect : Type 0 where
  -- An error to whoever asked for the computation: the protocol is unknown, or busy.
  unknown_protocol busy : ℕ → RuntimeEffect
  -- A request to the room that waits on the channel.
  ask_room : ℕ → LocalRpcMsg → RuntimeEffect
  -- An empty answer to the peer that asked.
  accept : ℕ → RuntimeEffect

-- `entry(room_id).and_modify(|e| *e = tx)`: an entry that is not there is not made.
unfoldable pub modify : RoomId → ℕ → List (RoomId × ℕ) → List (RoomId × ℕ)
modify id tx m = elim (HashMap.get id m) [ none ↦ m | some _ ↦ HashMap.insert id tx m ]

module _ {PeerId : Type 0} where
  -- The start of `run`: every room waits in phase 1. Each comes with its queue and a new channel.
  unfoldable pub open_rooms : List (RoomId × (ℕ × ℕ)) → Daemon PeerId → Daemon PeerId
  open_rooms [] d = d
  open_rooms ((room_id, (rx, rpc)) ∷ rooms) d =
      let (ch, tx) = new_phase1 room_id rx d.network_service rpc in
      open_rooms rooms (record d {
        rooms_coordination = ch ∷ d.rooms_coordination;
        rooms_rpc = HashMap.insert room_id tx d.rooms_rpc;
      })

  -- A room waits in phase 1 again.
  unfoldable pub put_back : RoomId → Phase1Channel PeerId → ℕ → Daemon PeerId → Daemon PeerId
  put_back id ch tx d = record d {
    rooms_coordination = ch ∷ d.rooms_coordination;
    rooms_rpc = HashMap.insert id tx d.rooms_rpc;
  }

  -- A local request. `make` is the factory of the agents, `is_canceled` tells whether the room has
  -- dropped its end.
  unfoldable pub on_computation :
      (ℕ → Option ComputeAgent)
      → (ℕ → Bool)
      → ComputationRequest
      → Daemon PeerId
      → Daemon PeerId × List RuntimeEffect
  on_computation make is_canceled req d = elim (HashMap.get req.room_id d.rooms_rpc) [
    | none ↦ (d, busy req.on_done ∷ [])
    | some on_rpc ↦ elim (make req.protocol_id) [
      | none ↦ (d, unknown_protocol req.on_done ∷ [])
      | some agent ↦ (
        record d { rooms_rpc = HashMap.remove req.room_id d.rooms_rpc },
        if is_canceled on_rpc
            then busy req.on_done ∷ []
            else ask_room on_rpc
                (record { n = req.n; args = req.args; agent = agent; on_done = req.on_done })
              ∷ [],
      )
    ]
  ]

  -- The proxy of a computation is done.
  unfoldable pub on_proxy : RoomId → Phase1Channel PeerId → ℕ → Daemon PeerId → Daemon PeerId
  unfolding put_back
  on_proxy room_id phase1 rpc_tx d = put_back room_id phase1 rpc_tx d

module _ {PeerId : Type 0} ⦃api : PeerApi PeerId⦄ where
  -- The output of phase 2 for a request of a peer.
  unfoldable pub on_phase2 :
      ComputeAgent → Phase2Msg PeerId → Daemon PeerId → IoResult (Daemon PeerId)
  unfolding modify
  on_phase2 agent (begun room_id receiver proxy parties peerset_rx init_body) d = do
    exec ← new_execution room_id agent d.network_service parties none
    ok (record d {
      network_proxies = proxy ∷ d.network_proxies;
      protocol_executions = (Echo.new (size parties), exec) ∷ d.protocol_executions;
    })
  on_phase2 agent (aborted room_id ch tx) d = ok (record d {
    rooms_rpc = modify room_id tx d.rooms_rpc;
    rooms_coordination = ch ∷ d.rooms_coordination;
  })

  -- A request of a peer to take part. `outcome` is the output of phase 2, `rpc` the channel that an
  -- abort makes.
  unfoldable pub on_remote :
      (ℕ → Option ComputeAgent)
      → ℕ
      → ℕ
      → Phase2Chan PeerId
      → Phase2Msg PeerId
      → ℕ
      → Daemon PeerId
      → IoResult (Daemon PeerId × List RuntimeEffect)
  unfolding on_phase2 put_back
  on_remote make protocol_id response_tx channel outcome rpc d = elim (make protocol_id) [
    | none ↦ abort_phase2 rpc channel >>= λ (id, (ch, tx)). ok (put_back id ch tx d, [])
    | some agent ↦ on_phase2 agent outcome d >>= λ d1. ok (d1, accept response_tx ∷ [])
  ]

  -- The output of a negotiation that a local request has begun.
  unfoldable pub on_local :
      RoomId → ℕ → NegotiationMsg PeerId → Daemon PeerId → IoResult (Daemon PeerId)
  unfolding put_back
  on_local id n (start agent on_done receiver proxy parties peerset_rx args) d = do
    exec ← new_execution id agent d.network_service parties (some on_done)
    ok (record d {
      network_proxies = proxy ∷ d.network_proxies;
      protocol_executions = (Echo.new n, exec) ∷ d.protocol_executions;
    })
  on_local id n (abort room_id phase1 rpc_tx) d = ok (put_back room_id phase1 rpc_tx d)
