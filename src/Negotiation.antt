-- ===== src/Negotiation.antt =====
-- node/runtime/src/negotiation.rs: `NegotiationChan`, the proposer of a computation. One call of
-- `negotiate` is one poll; none for its output is `Poll::Pending`. A HashSet of peers is a list
-- without repeats. Arithmetic on `u16` wraps, as in a release build.
pub mod Members
pub mod Quorum
pub mod Outcome
use tss_libp2p.Prelude.{
  ℕ, zero, suc, ◌+◌, ◌-◌, ◌%◌, List, [], ◌∷◌, ◌++◌, length, Option, some, none, Bool, nat_beq,
  if◌then◌else◌, true, false,
}
use tss_libp2p.Peer.{PeerApi}
use tss_libp2p.HashSet.{set_insert}
use tss_libp2p.Io.{IoResult, ok, err, panic, stuck, ◌>>=◌}
use tss_libp2p.Messages.{MessageContext, MessageType, coordination}
use tss_libp2p.Broadcast.{Net, Reply, replied, failed}
use tss_libp2p.Service.{RoomId, NetworkService, NetworkMessage, MessageRouting, to_all, to_many}
use tss_libp2p.Varint.{VarintApi}
use tss_libp2p.Peerset.{Peerset}
use tss_libp2p.Peerset
use tss_libp2p.StartMsg.{StartMsg}
use tss_libp2p.StartMsg
use tss_libp2p.Rooms.{ComputeAgent, Phase1Channel, ReceiverProxy, new_phase1, new_proxy, unwrap}

-- `io::Result::unwrap`.
abbrev pub unwrap_io {ℓ} : {A : Type ℓ} → IoResult A → IoResult A
unwrap_io (ok a) = ok a
unwrap_io (err e) = panic
unwrap_io panic = panic
unwrap_io stuck = stuck

-- `responses` is the channel of the replies with its bound, once it is made; `pending` are the
-- messages to the worker that the pending futures send.
pub record NegotiationState (PeerId : Type 0) : Type 0 where
  pub id : RoomId
  pub n : ℕ
  pub args : List ℕ
  pub service : NetworkService PeerId
  pub peers : List PeerId
  pub responses : Option (ℕ × ℕ)
  pub pending : List (NetworkMessage PeerId)
  pub on_done : ℕ

pub record NegotiationChan (PeerId : Type 0) : Type 0 where
  pub rx : Option ℕ
  pub agent : Option ComputeAgent
  pub state : Option (NegotiationState PeerId)

pub data NegotiationMsg (PeerId : Type 0) : Type 0 where
  -- The agent, `on_done`, the receiver of the room, the proxy, the parties, the channel of the peer
  -- set, and the arguments.
  start :
      ComputeAgent
      → ℕ
      → ℕ
      → ReceiverProxy PeerId
      → Peerset PeerId
      → ℕ
      → List ℕ
      → NegotiationMsg PeerId
  abort : RoomId → Phase1Channel PeerId → ℕ → NegotiationMsg PeerId

-- What a poll finds: the next reply, whether the interval is over, and the channels it may make.
pub record NegotiationInput (X : Net) : Type 0 where
  pub reply : Option (Reply X)
  pub is_over : Bool
  pub responses_chan : ℕ
  pub peerset_chan : ℕ
  pub proxy_chan : ℕ
  pub rpc : ℕ

-- The channel after a poll, the messages to the worker, and the output.
abbrev pub NegotiationPoll : Type 0 → Type 0
NegotiationPoll PeerId =
    NegotiationChan PeerId × List (NetworkMessage PeerId) × Option (NegotiationMsg PeerId)

unfoldable pub new_negotiation :
    {PeerId : Type 0}
    → RoomId
    → ℕ
    → ℕ
    → List ℕ
    → NetworkService PeerId
    → ComputeAgent
    → ℕ
    → NegotiationChan PeerId
new_negotiation room_id room_rx n args service agent on_done = record {
  rx = some room_rx;
  agent = some agent;
  state = some (record {
    id = room_id;
    n = n;
    args = args;
    service = service;
    peers = service.local_peer_id ∷ [];
    responses = none;
    pending = [];
    on_done = on_done;
  });
}

-- The context of the messages of a negotiation.
abbrev pub context_of : ComputeAgent → MessageContext
context_of agent = record {
  message_type = coordination;
  session_id = agent.session_id;
  protocol_id = agent.protocol_id;
}

module _ {X : Net} ⦃api : PeerApi X.PeerId⦄ (varint : VarintApi) where
  -- The set is complete: the start message goes to its peers.
  unfoldable pub begin :
      NegotiationInput X
      → NegotiationState X.PeerId
      → NegotiationChan X.PeerId
      → IoResult (NegotiationPoll X.PeerId)
  begin inp st chan = do
    agent ← unwrap chan.agent
    let (parties, peerset_rx) = Peerset.new st.peers st.service.local_peer_id inp.peerset_chan
    payload ← unwrap_io (StartMsg.to_bytes varint (record { parties = parties; body = st.args }))
    rx ← unwrap chan.rx
    (receiver_proxy, room_receiver) ← new_proxy st.id rx st.service parties inp.proxy_chan
    ok (
      record { rx = none; agent = none; state = none },
      st.pending
          ++ (record {
            room_id = st.id;
            context = context_of agent;
            message = to_many st.peers payload none;
          }
              ∷ []),
      some (start agent st.on_done room_receiver receiver_proxy parties peerset_rx st.args),
    )

  -- The end of a poll: the interval, and otherwise the state is put back.
  unfoldable pub wait :
      NegotiationInput X
      → List (NetworkMessage X.PeerId)
      → NegotiationState X.PeerId
      → NegotiationChan X.PeerId
      → IoResult (NegotiationPoll X.PeerId)
  wait inp sent st chan =
      if inp.is_over
      then (unwrap chan.rx >>= λ rx.
          let (ch, tx) = new_phase1 st.id rx st.service inp.rpc in
          ok (record chan { rx = none; state = none }, sent, some (abort st.id ch tx)))
      else ok (record chan { state = some st }, sent, none)

  -- What the channel of the replies holds: a peer that replied joins, and the last one that is missing
  -- begins the computation.
  unfoldable pub receive :
      Option (Reply X)
      → NegotiationInput X
      → NegotiationState X.PeerId
      → NegotiationChan X.PeerId
      → IoResult (NegotiationPoll X.PeerId)
  unfolding begin wait
  receive none inp st chan = wait inp st.pending (record st { pending = [] }) chan
  receive (some (failed _)) inp st chan = wait inp st.pending (record st { pending = [] }) chan
  receive (some (replied p _)) inp st chan =
      let st1 = record st { peers = set_insert p st.peers } in
      if nat_beq (length st1.peers) st.n
      then begin inp st1 chan
      else wait inp st.pending (record st1 { pending = [] }) chan

  -- The first poll asks all peers.
  unfoldable pub ask :
      NegotiationInput X
      → NegotiationState X.PeerId
      → NegotiationChan X.PeerId
      → IoResult (NegotiationPoll X.PeerId)
  unfolding wait
  ask inp st chan = do
    agent ← unwrap chan.agent
    wait inp st.pending
        (record st {
          responses = some (inp.responses_chan, (st.n + 65535) % 65536);
          pending =
              record {
                room_id = st.id;
                context = context_of agent;
                message = to_all [] (some inp.responses_chan);
              }
              ∷ [];
        })
        chan

  unfoldable pub negotiate :
      NegotiationInput X → NegotiationChan X.PeerId → IoResult (NegotiationPoll X.PeerId)
  unfolding receive ask
  negotiate inp chan = do
    st ← unwrap chan.state
    elim st.responses [ none ↦ ask inp st chan | some rx ↦ receive inp.reply inp st chan ]

  -- The polls of a task up to the first output.
  unfoldable pub run_negotiation :
      List (NegotiationInput X) → NegotiationChan X.PeerId → IoResult (NegotiationPoll X.PeerId)
  unfolding negotiate
  run_negotiation [] chan = ok (chan, [], none)
  run_negotiation (i ∷ is) chan = negotiate i chan >>= λ r.
      let more = run_negotiation is r.0 in
      elim r.2 [
        | some out ↦ ok (r.0, r.1, some out)
        | none ↦ more >>= λ q. ok (q.0, r.1 ++ q.1, q.2)
      ]
