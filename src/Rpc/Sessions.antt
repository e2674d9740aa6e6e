-- ===== src/Rpc/Sessions.antt =====
-- A call of the RPC, through the room that takes it, to the state machine and back.
use mathlib.Core.Option
use tss_libp2p.Prelude.{
  ℕ, ◌%◌, ◌+◌, ◌<◌, ◌≡◌, refl, ap, arith, List, [], ◌∷◌, Option, some, Bool, false, length,
  append-nil,
}
use tss_libp2p.Peer.{PeerApi}
use tss_libp2p.Io.{ok, new_writer, buf_capacity_lem}
use tss_libp2p.Io.Writer.{write_all_fits}
use tss_libp2p.HashMap
use tss_libp2p.Varint.{VarintApi, ReadResult, u16}
use tss_libp2p.Rooms.{ComputeAgent}
use tss_libp2p.Broadcast.{Name, name_eq}
use tss_libp2p.Config.Files.{Files}
use tss_libp2p.Service.{RoomId}
use tss_libp2p.Peerset.{Peerset, index_of, size}
use tss_libp2p.Execution.{party_number}
use tss_libp2p.Runtime.{Daemon, ask_room, on_computation}
use tss_libp2p.Tss.{make, describe}
use tss_libp2p.Tss.Agents.{keygen_start}
use tss_libp2p.Rpc.{keygen, sign}

-- The agents that the daemon of a node makes.
abbrev pub agents : Name → ℕ → Option ComputeAgent
agents key_path id = Option.map describe (make key_path id)

module _ (varint : VarintApi) (hash : Name → RoomId) where
  keygen_args :
      (tx : ℕ) (room : Name) (n t : ℕ)
      → length (varint.encode t) < 8192
      → (keygen varint hash tx room n t).args ≡ varint.encode t
  unfolding keygen
  keygen_args tx room n t short =
      ap (λ w. w.buffer)
        (write_all_fits (varint.encode t) new_writer (omega (arith, buf_capacity_lem)))

  module _ {PeerId : Type 0} ⦃api : PeerApi PeerId⦄ where
    -- A call to make a key for `n` parties with threshold `t`, numbers below 65536 of which the
    -- second is encoded in less than 8192 bytes, in a room that waits for a request: the room is
    -- asked for these `n` parties, with the agent for keys, and each party's state machine gets
    -- its place in the peer set, the threshold of the call and the number of parties.
    pub keygen_request :
        (d : Daemon PeerId) (is_canceled : ℕ → Bool) (key_path room : Name) (tx on_rpc n t i : ℕ)
        (parties : Peerset PeerId)
        → t < 65536
        → length (varint.encode t) < 8192
        → HashMap.get (hash room) d.rooms_rpc ≡ some on_rpc
        → is_canceled on_rpc ≡ false
        → index_of parties parties.local_peer_id ≡ some i
        → size parties ≡ n
        → n < 65536
        → let req = keygen varint hash tx room n t in
          ((on_computation (agents key_path) is_canceled req d).1
            ≡ ask_room on_rpc (record {
              n = n;
              args = req.args;
              agent = record { session_id = 0; protocol_id = 0 };
              on_done = tx;
            })
              ∷ [])
          × (keygen_start varint parties req.args ≡ ok (party_number i, t, n))
    unfolding on_computation make describe keygen keygen_start
    keygen_request d is_canceled key_path room tx on_rpc n t i parties small short waits open_rpc
          at_i many low =
        let args = keygen_args tx room n t short in
        let read : varint.read u16 (varint.encode t) ≡ ReadResult.ok (t, []) =
          rw (append-nil (varint.encode t)) at (varint.read-encode u16 t [] (omega arith)) in
        let whole : size parties % 65536 ≡ n = omega arith in
        (rw (waits, open_rpc, on_computation) refl, rw (args, at_i, read, whole, keygen_start) refl)

    -- A call to sign with a threshold `t` below 65536, in a room that waits for a request: the
    -- room is asked for `t + 1` parties, with the agent for signatures and the message as its
    -- arguments. For the threshold 65535 the sum wraps, and it is asked for no party at all.
    pub sign_request :
        (d : Daemon PeerId) (is_canceled : ℕ → Bool) (key_path room : Name) (tx on_rpc t : ℕ)
        (msg : List ℕ)
        → t < 65536
        → HashMap.get (hash room) d.rooms_rpc ≡ some on_rpc
        → is_canceled on_rpc ≡ false
        → let es = (on_computation (agents key_path) is_canceled (sign hash tx room t msg) d).1 in
          let asked = λ (n : ℕ).
            ask_room on_rpc (record {
              n = n;
              args = msg;
              agent = record { session_id = 0; protocol_id = 1 };
              on_done = tx;
            })
            ∷ [] in
          (t < 65535 → es ≡ asked (t + 1)) × (t ≡ 65535 → es ≡ asked 0)
    unfolding on_computation make describe sign
    sign_request d is_canceled key_path room tx on_rpc t msg small waits open_rpc = (
      λ low.
          let sum : (t + 1) % 65536 ≡ t + 1 = omega arith in
          rw (waits, open_rpc, sum, on_computation) refl,
      λ top.
          let sum : (t + 1) % 65536 ≡ 0 = omega arith in
          rw (waits, open_rpc, sum, on_computation) refl,
    )
