-- ===== src/StartMsg.antt =====
-- node/runtime/src/negotiation.rs: `StartMsg`, the message by which the proposer starts a
-- computation. `BufReader` is used through exact reads only, so that the input is a list.
pub mod RoundTrip
pub mod Failures
use tss_libp2p.Prelude.{ℕ, ◌^◌, List, ◌++◌, length, leb, if◌then◌else◌}
use tss_libp2p.Io.{IoResult, ok, panic, ◌>>=◌, read_exact, BufWriter, new_writer, write_all}
use tss_libp2p.Varint.{VarintApi, usize}
use tss_libp2p.Peer.{PeerApi}
use tss_libp2p.Messages.{or_invalid}
use tss_libp2p.Peerset.{Peerset}
use tss_libp2p.Peerset

pub record StartMsg (PeerId : Type 0) : Type 0 where
  pub parties : Peerset PeerId
  pub body : List ℕ

-- `vec![0; n]` and `read_exact` into it: a capacity above `isize::MAX` is a panic.
unfoldable pub read_vec : ℕ → List ℕ → IoResult (List ℕ × List ℕ)
unfolding read_exact
read_vec n src = if leb (2 ^ 63) n then panic else read_exact n src

module _ {PeerId : Type 0} ⦃api : PeerApi PeerId⦄ (varint : VarintApi) where
  open varint use {encode, read}

  unfoldable pub from_bytes : List ℕ → PeerId → ℕ → IoResult (StartMsg PeerId × ℕ)
  from_bytes b local_peer_id chan = do
    (peerset_len, s1) ← or_invalid (read usize b)
    (peerset_buffer, s2) ← read_vec peerset_len s1
    (len, s3) ← or_invalid (read usize s2)
    (body, s4) ← read_vec len s3
    (parties, rx) ← Peerset.from_bytes peerset_buffer local_peer_id chan
    ok (record { parties = parties; body = body }, rx)

  -- The result is what stands in the buffer, `io.buffer()`; the vector behind it is dropped.
  unfoldable pub to_bytes : StartMsg PeerId → IoResult (List ℕ)
  to_bytes msg = do
    peerset_bytes ← Peerset.to_bytes msg.parties
    let w1 = write_all (encode (length peerset_bytes)) new_writer
    let w2 = write_all peerset_bytes w1
    let w3 = write_all (encode (length msg.body)) w2
    let w4 = write_all msg.body w3
    ok w4.buffer
