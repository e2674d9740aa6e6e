-- ===== src/Rpc.antt =====
-- node/rpc-api/src/lib.rs: the requests that a call of the RPC makes of the runtime, and the answer that
-- it waits for. The JSON-RPC library is not part of the repository.
pub mod Sessions
use tss_libp2p.Prelude.{ℕ, ◌+◌, ◌%◌, List, Option, some, none}
use tss_libp2p.Io.{BufWriter, new_writer, write_all}
use tss_libp2p.Varint.{VarintApi}
use tss_libp2p.Broadcast.{Name}
use tss_libp2p.Service.{RoomId}
use tss_libp2p.Execution.{Computed, computed, broken}
use tss_libp2p.Runtime.{ComputationRequest}
use tss_libp2p.Tss.{CborApi}

-- `RpcApi::keygen`: the threshold is the argument of the computation. `hash` makes the id of a room of
-- its name, `tx` is the channel of the result.
unfoldable pub keygen : VarintApi → (Name → RoomId) → ℕ → Name → ℕ → ℕ → ComputationRequest
keygen varint hash tx room n t =
    let io = write_all (varint.encode t) new_writer in
    record { room_id = hash room; n = n; protocol_id = 0; args = io.buffer; on_done = tx }

-- `RpcApi::sign`: `t + 1` on `u16`.
unfoldable pub sign : (Name → RoomId) → ℕ → Name → ℕ → List ℕ → ComputationRequest
sign hash tx room t msg = record {
  room_id = hash room;
  n = (t + 1) % 65536;
  protocol_id = 1;
  args = msg;
  on_done = tx;
}

-- What `try_recv` finds on the channel of the result: a result, nothing yet, or no sender any more.
pub data Received : Type 0 where
  result : Computed → Received
  empty canceled : Received

-- `RpcResult`, with the two texts of its internal errors.
pub data RpcResult (T : Type 0) : Type 0 where
  value : T → RpcResult T
  unexpected_output terminated : RpcResult T

-- `AsyncResult::poll`; none is `Poll::Pending`.
unfoldable pub poll_result : {T : Type 0} → CborApi T → Received → Option (RpcResult T)
poll_result cbor (result (computed bytes)) = elim (cbor.from_slice bytes) [
  | none ↦ some unexpected_output
  | some v ↦ some (value v)
]
poll_result cbor (result broken) = some terminated
poll_result cbor empty = none
poll_result cbor canceled = some terminated
