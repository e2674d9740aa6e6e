-- ===== src/Runtime/Turns.antt =====
-- The loop of `RuntimeDaemon::run` as a step relation: a turn of the loop for each branch of its
-- `select!`, with the polls of the futures that it awaits. A poll of a phase or of a proxy that gives
-- nothing leaves it as it is, so that the last poll is enough.
use tss_libp2p.Prelude.{ℕ, List, ◌∷◌, ◌++◌, Option, some, Bool, ◌≡◌}
use tss_libp2p.Peer.{PeerApi}
use tss_libp2p.Io.{ok}
use tss_libp2p.Varint.{VarintApi}
use tss_libp2p.Broadcast.{Net, IncomingMessage}
use tss_libp2p.Service.{RoomId, NetworkMessage}
use tss_libp2p.Rooms.{ComputeAgent, Phase1Channel, ReceiverProxy, ProxyInput, poll_proxy}
use tss_libp2p.Negotiation.{NegotiationChan, NegotiationMsg, NegotiationInput, run_negotiation}
use tss_libp2p.Coordination.{
  Phase1Input, Phase2Chan, Phase2Msg, Phase2Input, from_remote, from_local, poll_phase1,
  poll_phase2,
}
use tss_libp2p.Echo.{EchoGadget}
use tss_libp2p.Execution.{ProtocolExecution}
use tss_libp2p.Runtime.{
  ComputationRequest, Daemon, RuntimeEffect, on_computation, on_remote, on_local, on_proxy,
}

module _ (X : Net) ⦃api : PeerApi X.PeerId⦄ (varint : VarintApi)
    (make : ℕ → Option ComputeAgent) where
  pub data Turn (d : Daemon X.PeerId) : Daemon X.PeerId → Type 0 where
    -- A message of the service.
    request :
        (is_canceled : ℕ → Bool) (req : ComputationRequest)
        → Turn d (on_computation make is_canceled req d).0
    -- A room in phase 1 has a request of a peer; the start message is awaited, if the protocol is known.
    remote :
        (before after : List (Phase1Channel X.PeerId)) (ch ch1 : Phase1Channel X.PeerId)
        (inp1 : Phase1Input X.PeerId) (p : X.PeerId) (protocol_id session_id : ℕ) (payload : List ℕ)
        (response_tx : ℕ) (channel channel1 : Phase2Chan X.PeerId) (inp2 : Phase2Input X.PeerId)
        (outcome : Phase2Msg X.PeerId) (rpc : ℕ) {e : Daemon X.PeerId}
        (effects : List RuntimeEffect)
        → d.rooms_coordination ≡ before ++ (ch ∷ after)
        → poll_phase1 inp1 ch
          ≡ ok (ch1, some (from_remote p protocol_id session_id payload response_tx channel))
        → ((agent : ComputeAgent)
            → make protocol_id ≡ some agent
            → poll_phase2 varint inp2 channel ≡ ok (channel1, some outcome))
        → on_remote make protocol_id response_tx channel outcome rpc
            (record d { rooms_coordination = before ++ after })
          ≡ ok (e, effects)
        → Turn d e
    -- A room in phase 1 has read a local request; its negotiation is awaited.
    local :
        (before after : List (Phase1Channel X.PeerId)) (ch ch1 : Phase1Channel X.PeerId)
        (inp1 : Phase1Input X.PeerId) (id : RoomId) (n : ℕ)
        (negotiation negotiation1 : NegotiationChan X.PeerId) (inputs : List (NegotiationInput X))
        (sent : List (NetworkMessage X.PeerId)) (outcome : NegotiationMsg X.PeerId)
        {e : Daemon X.PeerId}
        → d.rooms_coordination ≡ before ++ (ch ∷ after)
        → poll_phase1 inp1 ch ≡ ok (ch1, some (from_local id n negotiation))
        → run_negotiation varint inputs negotiation ≡ ok (negotiation1, sent, some outcome)
        → on_local id n outcome (record d { rooms_coordination = before ++ after }) ≡ ok e
        → Turn d e
    -- A computation has ended.
    executed :
        (before after : List (EchoGadget × ProtocolExecution X.PeerId))
        (done : EchoGadget × ProtocolExecution X.PeerId)
        → d.protocol_executions ≡ before ++ (done ∷ after)
        → Turn d (record d { protocol_executions = before ++ after })
    -- The proxy of a computation gives its room back.
    proxied :
        (before after : List (ReceiverProxy X.PeerId)) (proxy proxy1 : ReceiverProxy X.PeerId)
        (inp : ProxyInput X.PeerId) (m : Option (IncomingMessage X.PeerId)) (room_id : RoomId)
        (phase1 : Phase1Channel X.PeerId) (rpc_tx : ℕ)
        → d.network_proxies ≡ before ++ (proxy ∷ after)
        → poll_proxy inp proxy ≡ ok (proxy1, m, some (room_id, (phase1, rpc_tx)))
        → Turn d (on_proxy room_id phase1 rpc_tx (record d { network_proxies = before ++ after }))

  -- What the loop can reach.
  pub data Reach (d : Daemon X.PeerId) : Daemon X.PeerId → Type 0 where
    here : Reach d d
    next : {e f : Daemon X.PeerId} → Reach d e → Turn e f → Reach d f
