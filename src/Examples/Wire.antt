-- ===== src/Examples/Wire.antt =====
-- Requests, responses and start messages, with a concrete varint.
use tss_libp2p.Prelude.{
  ℕ, ◌^◌, ◌≤◌, ◌<◌, ◌≡◌, ◌≢◌, refl, arith, List, [], ◌∷◌, ◌++◌, length, replicate, length-replicate,
  sort, insert,
}
use tss_libp2p.Io.{ok, err, panic, ◌>>=◌, invalid_input}
use tss_libp2p.Varint.{u8, ReadError, VarintApi}
use tss_libp2p.Varint
use tss_libp2p.Varint.Leb128.{leb128, length-encode}
use tss_libp2p.Messages.{answer, read_request, write_request, read_response, write_response}
use tss_libp2p.Messages.RoundTrip.{read_request-write_request, read_response-write_response}
use tss_libp2p.Messages.Refusals.{read_request-over_limit, read_request_panics}
use tss_libp2p.Peerset.{Peerset, bytes_le}
use tss_libp2p.Peerset.Bytes.{length-wire}
use tss_libp2p.StartMsg.{StartMsg, from_bytes, to_bytes}
use tss_libp2p.StartMsg.RoundTrip.{frame, length-frame, peerset_bytes, from_bytes-to_bytes_frame}
use tss_libp2p.StartMsg.Failures.{to_bytes_large, from_bytes_huge}
use tss_libp2p.Examples.{numbered_peers, All-Has38, hello}

read_request-write_request_example :
    read_request leb128 2 (write_request leb128 hello ++ (99 ∷ [])) ≡ ok (hello, 99 ∷ [])
read_request-write_request_example =
    read_request-write_request leb128 2 hello (99 ∷ []) (omega arith) (omega arith) (omega arith)
      (omega arith)

read_response-write_response_example :
    read_response leb128 4 (write_response leb128 (answer (1 ∷ 2 ∷ [])))
    ≡ ok (answer (1 ∷ 2 ∷ []), [])
read_response-write_response_example =
    read_response-write_response leb128 4 (answer (1 ∷ 2 ∷ [])) (omega arith, omega arith)

read_request-over_limit_example :
    read_request leb128 1 (write_request leb128 hello ++ []) ≡ err invalid_input
read_request-over_limit_example =
    read_request-over_limit leb128 1 hello [] (omega arith) (omega arith) (omega arith)
      (omega arith)

read_request_panics_example :
    ((t : ℕ) (rest : List ℕ)
      → leb128.read u8 (5 ∷ 0 ∷ []) ≡ Varint.ok (t, rest)
      → (2 ≤ t → read_request leb128 9 (5 ∷ 0 ∷ []) ≡ panic)
        × (t ≤ 1 → read_request leb128 9 (5 ∷ 0 ∷ []) ≢ panic))
    × ((e : ReadError)
        → leb128.read u8 (5 ∷ 0 ∷ []) ≡ Varint.err e
        → read_request leb128 9 (5 ∷ 0 ∷ []) ≡ err invalid_input)
read_request_panics_example = read_request_panics leb128 9 (5 ∷ 0 ∷ []) (omega arith)

abbrev group : Peerset ℕ
group = record {
  local_peer_id = 4;
  session_peers = 4 ∷ 9 ∷ [];
  parties_indexes = 0 ∷ 1 ∷ [];
  to_runtime = 5;
}

abbrev invitation : StartMsg ℕ
invitation = record { parties = group; body = 1 ∷ 2 ∷ 3 ∷ [] }

invitation_small : length (frame leb128 invitation) < 8192
invitation_small = omega (
  arith,
  length-frame leb128 invitation,
  length-encode (length (peerset_bytes leb128 invitation)),
  length-encode 3,
  length-wire {PeerId = ℕ} (4 ∷ 9 ∷ []) (0 ∷ 1 ∷ []) (All-Has38 (4 ∷ 9 ∷ [])) refl,
)

from_bytes-to_bytes_frame_example :
    (to_bytes leb128 invitation >>= λ b. from_bytes {PeerId = ℕ} leb128 b 9 6)
    ≡ ok (record invitation { parties = record group { local_peer_id = 9; to_runtime = 6 } }, 6)
unfolding sort insert bytes_le
from_bytes-to_bytes_frame_example =
    from_bytes-to_bytes_frame leb128 invitation 9 6
      (record {
        ids = All-Has38 (4 ∷ 9 ∷ []);
        aligned = refl;
        sorted = refl;
        small = (omega arith, (omega arith, tt));
      })
      (omega arith) invitation_small

abbrev long_body : List ℕ
long_body = replicate 8192 7

abbrev lost : StartMsg ℕ
lost = record { parties = group; body = long_body }

to_bytes_large_example :
    (to_bytes leb128 lost ≡ ok [])
    × ((to_bytes leb128 lost >>= λ b. from_bytes {PeerId = ℕ} leb128 b 9 6) ≡ err invalid_input)
to_bytes_large_example =
    to_bytes_large leb128 lost 9 6 (omega arith) (omega (arith, length-replicate {A = ℕ} 8192 7))

from_bytes_huge_example :
    (from_bytes {PeerId = ℕ} leb128 (leb128.encode (2 ^ 63) ++ []) 4 6 ≡ panic)
    × (from_bytes {PeerId = ℕ} leb128
          (leb128.encode 2 ++ ((1 ∷ 2 ∷ []) ++ (leb128.encode (2 ^ 63) ++ [])))
          4
          6
        ≡ panic)
from_bytes_huge_example =
    from_bytes_huge leb128 (2 ^ 63) [] (1 ∷ 2 ∷ []) 4 6 (omega arith) (omega arith) (omega arith)
