-- ===== src/Messages/RoundTrip.antt =====
-- Reading back what `GenericCodec` wrote.
use tss_libp2p.Prelude.{
  ℕ, ◌≤◌, ◌<◌, ◌^◌, ◌≡◌, List, [], ◌++◌, length, append_assoc, arith, take-append, drop-append,
  length-append, append-nil,
}
use tss_libp2p.Io.{ok}
use tss_libp2p.Varint.{VarintApi, u8, u64, usize}
use tss_libp2p.Messages.{
  WireMessage, Response, answer, refused, type_code, bool_code, read_body, read_request,
  write_request, read_response, write_response,
}
use tss_libp2p.Messages.Codes.{type_code-lt, bool_code-lt, read_type-type_code, bool_code-ne-zero}

read_body-append :
    (max : ℕ) (body rest : List ℕ)
    → length body < 2 ^ 63
    → length body ≤ max
    → read_body max (length body) (body ++ rest) ≡ ok (body, rest)
unfolding read_body
read_body-append max body rest small h =
    ground (arith, length-append body rest, take-append body rest, drop-append body rest)

body_alone :
    (max : ℕ) (body : List ℕ)
    → length body < 2 ^ 63
    → length body ≤ max
    → read_body max (length body) body ≡ ok (body, [])
body_alone max body small h = rw append-nil at (read_body-append max body [] small h)

abbrev pub FitsResponse : ℕ → Response → Type 0
FitsResponse max (answer body) = (length body < 2 ^ 63) × (length body ≤ max)
FitsResponse max refused = Unit {0}

module _ (varint : VarintApi) where
  open varint use {encode, read-encode, read-nil}

  -- A request that fits its number types and the limit, with a payload of less than 2^63 bytes, is read
  -- back whole, and what follows it in
  -- the stream is left unread.
  pub read_request-write_request :
      (max : ℕ) (req : WireMessage) (rest : List ℕ)
      → req.context.session_id < 2 ^ 64
      → req.context.protocol_id < 2 ^ 64
      → length req.payload < 2 ^ 63
      → length req.payload ≤ max
      → read_request varint max (write_request varint req ++ rest) ≡ ok (req, rest)
  unfolding read_request write_request
  read_request-write_request max req rest hs hp hl hm =
      let ctx = req.context in
      let body = req.payload ++ rest in
      let s4 = encode (length req.payload) ++ body in
      let s3 = encode ctx.protocol_id ++ s4 in
      let s2 = encode ctx.session_id ++ s3 in
      let s1 = encode (bool_code req.is_broadcast) ++ s2 in
      simp (
        append_assoc,
        read-encode u8 (type_code ctx.message_type) s1 (type_code-lt ctx.message_type),
        read_type-type_code,
        read-encode u8 (bool_code req.is_broadcast) s2 (bool_code-lt req.is_broadcast),
        bool_code-ne-zero,
        read-encode u64 ctx.session_id s3 hs,
        read-encode u64 ctx.protocol_id s4 hp,
        read-encode usize (length req.payload) body (omega arith),
        read_body-append max req.payload rest hl hm,
      )

  -- Every response that fits the limit and has less than 2^63 bytes is read back, a refusal too, which is an empty stream.
  pub read_response-write_response :
      (max : ℕ) (res : Response)
      → FitsResponse max res
      → read_response varint max (write_response varint res) ≡ ok (res, [])
  unfolding read_response write_response
  read_response-write_response max (answer body) (hl, hm) =
      rw (read-encode usize (length body) body (omega arith), read_response)
        (rw (body_alone max body hl hm))
  read_response-write_response max refused h = rw (read-nil usize, read_response)
