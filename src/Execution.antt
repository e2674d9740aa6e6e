-- ===== src/Execution.antt =====
-- node/runtime/src/execution.rs: `ProtocolExecution`, which stands between a running computation and
-- the network, with the messages of traits.rs. One call of `poll_execution` is one poll. A `try_send`
-- that its `expect` guards panics where the channel does not take the message.
pub mod Addresses
pub mod Reports
use tss_libp2p.Prelude.{
  ℕ, ◌+◌, ◌%◌, List, [], ◌∷◌, ◌++◌, Option, some, none, Bool, true, false, nat_beq, if◌then◌else◌,
}
use tss_libp2p.Peer.{PeerApi}
use tss_libp2p.Io.{IoResult, ok, panic, ◌>>=◌}
use tss_libp2p.Messages.{MessageContext, coordination, computation}
use tss_libp2p.Broadcast.{IncomingMessage}
use tss_libp2p.Service.{RoomId, NetworkService, NetworkMessage, to_many, to_one}
use tss_libp2p.Peerset.{Peerset, index_of, peer_at, remotes_iter, size, as_u16}
use tss_libp2p.Echo.{EchoMessage, incoming, outgoing}
use tss_libp2p.Rooms.{ComputeAgent, unwrap}

-- `MessageRouting` of traits.rs: parties count from 1.
pub data Routing : Type 0 where
  broadcast : Routing
  point_to_point : ℕ → Routing

pub record ProtocolMessage : Type 0 where
  pub from : ℕ
  pub body : List ℕ
  pub to : Routing

pub record OutgoingMessage : Type 0 where
  pub body : List ℕ
  pub to : Routing
  pub sent : Option ℕ

-- `PeersetMsg`, with the channel of the answer.
pub data PeersetMsg (PeerId : Type 0) : Type 0 where
  read_from_cache : ℕ → PeersetMsg PeerId
  write_to_cache : Peerset PeerId → ℕ → PeersetMsg PeerId

pub record ProtocolExecution (PeerId : Type 0) : Type 0 where
  pub room_id : RoomId
  pub local_peer_id : PeerId
  pub protocol_id : ℕ
  pub session_id : ℕ
  pub parties : Peerset PeerId
  pub on_done : Option ℕ
  pub i : ℕ
  pub n : ℕ

-- The result of the computation: bytes, or an error.
pub data Computed : Type 0 where
  computed : List ℕ → Computed
  broken : Computed

-- The output of a computation that is over: `Ok(())`, or `InternalError`.
pub data Ended : Type 0 where
  succeeded internal_error : Ended

-- What a poll does, in order.
pub data ExecEffect (PeerId : Type 0) : Type 0 where
  cache_access : RoomId → PeersetMsg PeerId → ExecEffect PeerId
  send : NetworkMessage PeerId → ExecEffect PeerId
  told_sent : ℕ → ExecEffect PeerId
  to_echo : EchoMessage → ExecEffect PeerId
  acknowledge : ℕ → ExecEffect PeerId
  to_protocol : ProtocolMessage → ExecEffect PeerId
  done : ℕ → Computed → ExecEffect PeerId

-- What a poll finds; `res_chan` is the channel of replies that it may make, and the flags tell whether
-- the channel to the echo gadget takes an outgoing and an incoming message, and the computation one.
pub record ExecInput (PeerId : Type 0) : Type 0 where
  pub from_peerset : Option (PeersetMsg PeerId)
  pub from_protocol : Option OutgoingMessage
  pub from_network : Option (IncomingMessage PeerId)
  pub result : Option Computed
  pub res_chan : ℕ
  pub echo_takes_outgoing : Bool
  pub echo_takes_incoming : Bool
  pub protocol_takes : Bool

-- The channels of a computation of `n` parties have room for `n - 1`, and none for nothing panics.
unfoldable pub new_execution :
    {PeerId : Type 0}
    → ⦃api : PeerApi PeerId⦄ → RoomId
    → ComputeAgent
    → NetworkService PeerId
    → Peerset PeerId
    → Option ℕ
    → IoResult (ProtocolExecution PeerId)
new_execution {PeerId} room_id agent service parties on_done = do
  i ← unwrap (index_of parties parties.local_peer_id)
  let st : ProtocolExecution PeerId = record {
    room_id = room_id;
    local_peer_id = service.local_peer_id;
    protocol_id = agent.protocol_id;
    session_id = 0;
    parties = parties;
    on_done = on_done;
    i = i;
    n = as_u16 (size parties);
  }
  (if nat_beq ((as_u16 (size parties) + 65535) % 65536) 0 then panic else ok st)

-- `i + 1` on `u16`.
abbrev pub party_number : ℕ → ℕ
party_number i = (i + 1) % 65536

module _ {PeerId : Type 0} where
  abbrev pub told : Option ℕ → List (ExecEffect PeerId)
  told none = []
  told (some tx) = told_sent tx ∷ []

  -- A try_send that must succeed.
  abbrev pub expect_sent : Bool → ExecEffect PeerId → IoResult (List (ExecEffect PeerId))
  expect_sent true e = ok (e ∷ [])
  expect_sent false e = panic

  abbrev pub optionally {ℓ} :
      {A : Type ℓ}
      → Option A
      → (A → IoResult (List (ExecEffect PeerId)))
      → IoResult (List (ExecEffect PeerId))
  optionally none f = ok []
  optionally (some a) f = f a

  -- A message of the network: a broadcast goes to the echo gadget, a direct one is acknowledged; both
  -- go to the computation.
  unfoldable pub take_in :
      ExecInput PeerId
      → IncomingMessage PeerId
      → ProtocolExecution PeerId
      → IoResult (List (ExecEffect PeerId))
  take_in inp message st = do
    es ←
        (if message.is_broadcast
          then expect_sent inp.echo_takes_incoming (
              to_echo (record {
                sender = party_number message.peer_index;
                payload = message.payload;
                response = incoming message.pending_response;
              }))
          else ok (acknowledge message.pending_response ∷ []))
    fs ← expect_sent inp.protocol_takes (
        to_protocol (record {
          from = party_number message.peer_index;
          to = if message.is_broadcast then broadcast else point_to_point (party_number st.i);
          body = message.payload;
        }))
    ok (es ++ fs)

  -- The end of a poll: the result goes to whoever asked for it.
  unfoldable pub finish : Option Computed → ProtocolExecution PeerId → List (ExecEffect PeerId)
  finish none st = []
  finish (some res) st = elim st.on_done [ none ↦ [] | some tx ↦ done tx res ∷ [] ]

-- The output of a poll: none for `Poll::Pending`.
unfoldable pub output : Option Computed → Option Ended
output none = none
output (some (computed res)) = some succeeded
output (some broken) = some internal_error

module _ {PeerId : Type 0} ⦃api : PeerApi PeerId⦄ where
  -- A message of the computation: to one party by its number, or to all others.
  unfoldable pub send_out :
      ExecInput PeerId
      → OutgoingMessage
      → ProtocolExecution PeerId
      → IoResult (List (ExecEffect PeerId))
  send_out inp message st = elim message.to [
    | point_to_point remote_index ↦ do
      p ← peer_at st.parties ((remote_index + 65535) % 65536)
      ok (
          told message.sent
          ++ (send (record {
            room_id = st.room_id;
            context = record {
              message_type = computation;
              session_id = st.session_id;
              protocol_id = st.protocol_id;
            };
            message = to_one p message.body inp.res_chan;
          })
              ∷ []))
    | broadcast ↦ do
      es ← expect_sent inp.echo_takes_outgoing (
          to_echo (record {
            sender = party_number st.i;
            payload = message.body;
            response = outgoing inp.res_chan;
          }))
      ok (
          es
          ++ (send (record {
            room_id = st.room_id;
            context = record {
              message_type = coordination;
              session_id = st.session_id;
              protocol_id = st.protocol_id;
            };
            message = to_many (remotes_iter st.parties) message.body (some inp.res_chan);
          })
              ∷ []))
  ]

  -- The effects of a poll, and its output.
  unfoldable pub poll_execution :
      ExecInput PeerId
      → ProtocolExecution PeerId
      → IoResult (List (ExecEffect PeerId) × Option Ended)
  unfolding send_out take_in finish output
  poll_execution inp st = do
    es ← optionally inp.from_peerset (λ m. ok (cache_access st.room_id m ∷ []))
    fs ← optionally inp.from_protocol (λ m. send_out inp m st)
    gs ← optionally inp.from_network (λ m. take_in inp m st)
    ok (es ++ (fs ++ (gs ++ finish inp.result st)), output inp.result)
