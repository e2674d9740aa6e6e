-- ===== src/StartMsg/RoundTrip.antt =====
-- A start message through its bytes.
use tss_libp2p.Prelude.{
  ℕ, ◌+◌, ◌^◌, ◌<◌, ◌≤◌, ◌≡◌, ap, ◌∙◌, List, [], ◌++◌, length, arith, append_assoc, append-nil,
  length-append, take-append, drop-append,
}
use tss_libp2p.Io.{ok, ◌>>=◌, BufWriter, new_writer, write_all, buf_capacity, buf_capacity_lem}
use tss_libp2p.Io.Writer.{write_all_fits}
use tss_libp2p.Varint.{VarintApi, usize}
use tss_libp2p.Peer.{PeerApi}
use tss_libp2p.Peerset.{Peerset}
use tss_libp2p.Peerset
use tss_libp2p.Peerset.Bytes.{wire}
use tss_libp2p.Peerset.RoundTrip.{IsWire, to_bytes_outcome, from_bytes-to_bytes}
use tss_libp2p.StartMsg.{StartMsg, from_bytes, to_bytes, read_vec}

pub read_vec-append :
    (xs rest : List ℕ) → length xs < 2 ^ 63 → read_vec (length xs) (xs ++ rest) ≡ ok (xs, rest)
unfolding read_vec
read_vec-append xs rest h =
    ground (arith, length-append xs rest, take-append xs rest, drop-append xs rest)

read_vec_all : (xs : List ℕ) → length xs < 2 ^ 63 → read_vec (length xs) xs ≡ ok (xs, [])
read_vec_all xs h = rw append-nil at (read_vec-append xs [] h)

-- Four writes that fit the buffer together stand in it one after the other.
write_four :
    (a b c d : List ℕ)
    → length a + length b + length c + length d < buf_capacity
    → (write_all d (write_all c (write_all b (write_all a new_writer)))).buffer
      ≡ a ++ (b ++ (c ++ d))
write_four a b c d h =
    let buffered : List ℕ → BufWriter = λ bs. record { buffer = bs; inner = [] } in
    let e1 = write_all_fits a new_writer (omega arith) in
    let e2 = write_all_fits b (buffered a) (omega arith) in
    let e3 = write_all_fits c (buffered (a ++ b)) (omega (arith, length-append a b)) in
    let e4 =
      write_all_fits d (buffered ((a ++ b) ++ c))
        (omega (arith, length-append a b, length-append (a ++ b) c)) in
    rw (e1, e2, e3, e4) (append_assoc (a ++ b) c d ∙ append_assoc a b (c ++ d))

module _ {PeerId : Type 0} ⦃api : PeerApi PeerId⦄ (varint : VarintApi) where
  open varint use {encode, read, read-encode}

  -- The bytes of the peer set.
  abbrev pub peerset_bytes : StartMsg PeerId → List ℕ
  peerset_bytes msg = wire msg.parties.session_peers msg.parties.parties_indexes

  -- Both parts behind their lengths.
  abbrev pub frame : StartMsg PeerId → List ℕ
  frame msg =
      let ps = peerset_bytes msg in
      encode (length ps) ++ (ps ++ (encode (length msg.body) ++ msg.body))

  pub length-frame :
      (msg : StartMsg PeerId)
      → length (frame msg)
        ≡ length (encode (length (peerset_bytes msg)))
          + length (peerset_bytes msg)
          + length (encode (length msg.body))
          + length msg.body
  length-frame msg =
      let ps = peerset_bytes msg in
      let body_len = encode (length msg.body) in
      omega (
        arith,
        length-append (encode (length ps)) (ps ++ (body_len ++ msg.body)),
        length-append ps (body_len ++ msg.body),
        length-append body_len msg.body,
      )

  pub to_bytes-frame :
      (msg : StartMsg PeerId)
      → IsWire msg.parties
      → length (frame msg) < 8192
      → to_bytes varint msg ≡ ok (frame msg)
  unfolding to_bytes
  to_bytes-frame msg w k = rw ((to_bytes_outcome msg.parties).0 (omega (arith, w.aligned))) (
      ap ok (
        write_four _ (peerset_bytes msg) _ msg.body
          (omega (arith, length-frame msg, buf_capacity_lem))))

  -- The two parts are read back from the frame, whatever the peer set's bytes are.
  from_bytes-frame :
      (msg : StartMsg PeerId) (local : PeerId) (chan : ℕ)
      → length (frame msg) < 8192
      → from_bytes varint (frame msg) local chan ≡ (
          Peerset.from_bytes (peerset_bytes msg) local chan >>= λ r.
          ok (record { parties = r.0; body = msg.body }, r.1))
  unfolding from_bytes
  from_bytes-frame msg local chan k =
      let ps = peerset_bytes msg in
      let tail = encode (length msg.body) ++ msg.body in
      let len = length-frame msg in
      simp (
        read-encode usize (length ps) (ps ++ tail) (omega arith),
        read_vec-append ps tail (omega arith),
        read-encode usize (length msg.body) msg.body (omega arith),
        read_vec_all msg.body (omega arith),
      )

  -- What the proposer sends is what a joiner reads, with the joiner as the local peer: the same peers
  -- at the same positions, their indexes and the body. For up to 210 peers with ids of 38 bytes, in the
  -- order of their ids and each with one index, below 256, and a message that stays below the buffer of
  -- 8192 bytes.
  pub from_bytes-to_bytes_frame :
      (msg : StartMsg PeerId) (local : PeerId) (chan : ℕ)
      → IsWire msg.parties
      → length msg.parties.session_peers ≤ 210
      → length (frame msg) < 8192
      → (to_bytes varint msg >>= λ b. from_bytes varint b local chan)
        ≡ ok (
          record msg { parties = record msg.parties { local_peer_id = local; to_runtime = chan } },
          chan,
        )
  from_bytes-to_bytes_frame msg local chan w h k =
      let parts = from_bytes-to_bytes msg.parties local chan w h in
      let bytes = (to_bytes_outcome msg.parties).0 (omega (arith, w.aligned)) in
      rw (to_bytes-frame msg w k, from_bytes-frame msg local chan k) (rw (rw bytes at parts))
