-- ===== src/StartMsg/Failures.antt =====
-- Start messages that do not arrive.
use tss_libp2p.Prelude.{ℕ, ◌^◌, ◌<◌, ◌≤◌, ◌≡◌, ap, List, [], ◌++◌, length, arith}
use tss_libp2p.Io.{ok, err, panic, invalid_input, ◌>>=◌, new_writer, write_all, buf_capacity_lem}
use tss_libp2p.Io.Writer.{write_all_large}
use tss_libp2p.Varint.{VarintApi, usize}
use tss_libp2p.Peer.{PeerApi}
use tss_libp2p.Peerset.Bytes.{wire}
use tss_libp2p.StartMsg.RoundTrip.{read_vec-append}
use tss_libp2p.Peerset.RoundTrip.{to_bytes_outcome}
use tss_libp2p.StartMsg.{StartMsg, from_bytes, to_bytes, read_vec}

read_vec_huge : (n : ℕ) (src : List ℕ) → 2 ^ 63 ≤ n → read_vec n src ≡ panic
unfolding read_vec
read_vec_huge n src h = ground arith

module _ {PeerId : Type 0} ⦃api : PeerApi PeerId⦄ (varint : VarintApi) where
  open varint use {encode, read, read-encode, read-nil}

  -- A body of 8192 bytes or more is lost: the message that is sent is empty, and every joiner refuses
  -- it.
  pub to_bytes_large :
      (msg : StartMsg PeerId) (local : PeerId) (chan : ℕ)
      → length msg.parties.session_peers ≤ length msg.parties.parties_indexes
      → 8192 ≤ length msg.body
      → (to_bytes varint msg ≡ ok [])
        × ((to_bytes varint msg >>= λ b. from_bytes varint b local chan) ≡ err invalid_input)
  unfolding to_bytes from_bytes
  to_bytes_large msg local chan aligned large =
      let bytes = (to_bytes_outcome msg.parties).0 aligned in
      let lost =
        write_all_large msg.body
          (write_all (encode (length msg.body)) (
            write_all (wire msg.parties.session_peers msg.parties.parties_indexes) (
              write_all
                (encode (length (wire msg.parties.session_peers msg.parties.parties_indexes)))
                new_writer)))
          (omega (arith, buf_capacity_lem)) in
      (rw bytes (ap ok lost), rw (bytes, lost) (rw (read-nil usize)))

  -- A length of 2^63 or more, for either part, is a panic of the joiner, whoever sent it.
  pub from_bytes_huge :
      (n : ℕ) (rest peers : List ℕ) (local : PeerId) (chan : ℕ)
      → 2 ^ 63 ≤ n
      → n < 2 ^ 64
      → length peers < 2 ^ 63
      → (from_bytes varint (encode n ++ rest) local chan ≡ panic)
        × (from_bytes varint (encode (length peers) ++ (peers ++ (encode n ++ rest))) local chan
            ≡ panic)
  unfolding from_bytes
  from_bytes_huge n rest peers local chan big fits short = (
    simp (read-encode usize n rest fits, read_vec_huge n rest big),
    simp (
      read-encode usize (length peers) (peers ++ (encode n ++ rest)) (omega arith),
      read_vec-append peers (encode n ++ rest) short,
      read-encode usize n rest fits,
      read_vec_huge n rest big,
    ),
  )
