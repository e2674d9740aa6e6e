-- ===== src/Lib.antt =====
-- A model of tss-libp2p: nodes that run a threshold protocol in rooms over libp2p.
--
-- The parts, from the network upwards, with the file that models each.
--
-- Messages: node/network/src/messages.rs. `GenericCodec` by `read_request`, `write_request`,
--   `read_response` and `write_response`; a stream is the list of the bytes to be read.
-- Broadcast: node/network/src/broadcast.rs. The state of `Broadcast`; Broadcast.Send has `new` and
--   the sending of requests, Broadcast.Events the handlers of `poll`, one for each event, Broadcast.Poll
--   its loops, Broadcast.Inject what the swarm tells it and the handlers of connections, Broadcast.Life
--   all of this in any order. What goes to a channel is a list of effects; which events and answers
--   are ready is an argument.
-- Service: node/network/src/service.rs and lib.rs. The messages to the worker, what its loop does with
--   one, and the names of rooms.
-- Config: node/network/src/config.rs. Addresses with a peer id and the parameters of a node;
--   Config.Keys has the secret key of a node and its file, Config.Files the file system under it.
-- Discovery: node/network/src/discovery.rs. `DiscoveryBehaviour` and its functions; Discovery.Poll has
--   its `poll`, Discovery.Run any sequence of calls, Discovery.Refine the abstract state that it stands
--   for.
-- Behaviour: node/network/src/behaviour.rs, which joins discovery and the request-response behaviour, and
--   of service.rs the start of the worker and the methods of `NetworkService`.
-- Peerset: node/runtime/src/peerset.rs. The peers of a session in order, their indexes, the bytes
--   of the set and the recovery of the indexes from a cache.
-- StartMsg: `StartMsg` of node/runtime/src/negotiation.rs, through `BufWriter` and `BufReader`.
-- Negotiation: `NegotiationChan` of the same file, the proposer. It asks all peers, counts the
--   replies, makes the peer set and sends the start message.
-- Coordination: node/runtime/src/coordination.rs, the two phases of a joiner.
-- Rooms: node/runtime/src/network_proxy.rs and the types that it shares with the phases. The proxy
--   gives each message of the room the index of its sender.
-- Execution: node/runtime/src/execution.rs and traits.rs, between a running computation, the network
--   and the echo.
-- Runtime: node/runtime/src/runtime.rs, a handler for each branch of the loop of `RuntimeDaemon::run`,
--   over the rooms that wait, the proxies and the executions. Runtime.Turns is the loop itself, as a
--   step relation with the polls of the phases in it.
-- Cacher: node/runtime/src/peerset_cacher.rs, the peer set of each room in memory or in a file.
-- Echo: node/runtime/src/echo.rs. A round gathers the broadcasts of all parties, answers each with
--   the hash of all, and compares the hashes that come back.
-- Tss: tss/src/round_based.rs and factory.rs, between the messages of the runtime and those of the
--   round-based library; Tss.Agents has keygen.rs and keysign.rs around their state machines.
-- Rpc: node/rpc-api/src/lib.rs, the calls to make a key and to sign, and the poll of their result.
-- Deploy: tss/src/config.rs and cmd/src/main.rs, the setup of a node and its start from the
--   configuration, which makes the network, the room and the runtime.
--
-- A call of Rpc becomes a request to the runtime, which asks the room. A proposal goes from `negotiate`
-- through `StartMsg.to_bytes`, `broadcast_message` and the wire to `poll_phase2` of each joiner; both
-- ends then make a peer set, a proxy and an execution, whose agent runs the protocol. A broadcast of
-- the computation goes to the echo of each node.
--
-- Shared: Prelude (library names, Boolean tests, lists over the native numbers, sorting), Peer (the
-- identity of a peer), Io (`std::io` as the code uses it, with `buf_capacity`, the 8192 bytes of a
-- buffer), Varint (the varint crate), HashMap and HashSet (`std::collections`). Examples has concrete
-- instances and a run of each result.
--
-- Taken as parameters, with what is relied on: `PeerId` (its equality and bytes), the varint crate
-- (what is encoded is read back, an empty input is an end of file, a number read fits its width),
-- the request-response behaviour of libp2p (it never gives out a request number twice), the hash
-- function of the echo, Kademlia, mDNS and the join of handlers (nothing is relied on), addresses (a
-- part that is added at the end is what `pop` takes, and a text is read back), ed25519 keys (32 bytes, read back), CBOR and JSON (what is written is read back), the hash
-- of a room's name, and what the channels hold at each poll.
--
-- A function with a panic, an I/O error or a loop gives an `IoResult`; a state machine built as a
-- future is one function for each poll. Fuel is used once, in `Peerset.read_peers`: each round
-- takes a byte of the input at least, so that its length and one are enough. Machine integers wrap
-- as in a release build. Log lines and debug assertions are left out.
--
-- Not modelled: permissions and failures of a disk, and paths that are spelled in two ways; the
-- transport, the swarm, ping and identify; the handler that discovery makes for a connection; the
-- JSON-RPC server; the state machines of the cryptography and their runs; the arguments of the
-- command line and the commands that only call the RPC.
pub mod Prelude
pub mod Peer
pub mod Io
pub mod Varint
pub mod HashMap
pub mod HashSet
pub mod Config
pub mod Messages
pub mod Peerset
pub mod StartMsg
pub mod Echo
pub mod Broadcast
pub mod Service
pub mod Discovery
pub mod Behaviour
pub mod Rooms
pub mod Negotiation
pub mod Coordination
pub mod Execution
pub mod Runtime
pub mod Cacher
pub mod Tss
pub mod Rpc
pub mod Deploy
pub mod Examples
