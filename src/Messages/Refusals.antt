-- ===== src/Messages/Refusals.antt =====
-- What the codec refuses, and where it panics.
use tss_libp2p.Prelude.{
  ◌∙◌, ℕ, ◌≤◌, ◌<◌, ◌^◌, ◌≡◌, refl, List, ◌++◌, length, append_assoc, arith, ◌≢◌, length-take,
  take-append-drop,
}
use tss_libp2p.Io.{ok, err, panic, invalid_input, >>=-eq-ok, >>=-ne-panic}
use tss_libp2p.Varint.{VarintApi, u8, u64, usize, ReadResult, ReadError, Width, bits}
use tss_libp2p.Varint
use tss_libp2p.Messages.{
  WireMessage, read_body, read_request, write_request, read_type, or_invalid, bool_code, type_code,
}
use tss_libp2p.Messages.Codes.{type_code-lt, bool_code-lt, read_type-type_code}

read_body_fits :
    (max len : ℕ) (src : List ℕ) (body rest : List ℕ)
    → read_body max len src ≡ ok (body, rest)
    → (length body ≡ len) × (len ≤ max) × (body ++ rest ≡ src)
unfolding read_body
read_body_fits max len src body rest h =
    ground (arith, length-take len src, take-append-drop len src)

read_body-ne-panic : (max len : ℕ) (src : List ℕ) → max < 2 ^ 63 → read_body max len src ≢ panic
unfolding read_body
read_body-ne-panic max len src small h = ground arith

read_body_over :
    (max len : ℕ) (src : List ℕ) → max < len → read_body max len src ≡ err invalid_input
unfolding read_body
read_body_over max len src h = ground arith

module _ (varint : VarintApi) where
  open varint use {encode, read, read-encode, read-lt}

  or_invalid-lt :
      (w : Width) (src : List ℕ) (n : ℕ) (rest : List ℕ)
      → or_invalid (read w src) ≡ ok (n, rest)
      → n < 2 ^ bits w
  or_invalid-lt w src n rest h = go (read w src) refl h
    where
      go :
          (r : ReadResult (ℕ × List ℕ))
          → read w src ≡ r
          → or_invalid r ≡ ok (n, rest)
          → n < 2 ^ bits w
      go (Varint.ok (m, more)) e k = read-lt w src n rest (e ∙ cc k)
      go (Varint.err x) e k = cc

  -- A request whose payload is over the limit is refused with `InvalidInput`, whatever follows.
  pub read_request-over_limit :
      (max : ℕ) (req : WireMessage) (rest : List ℕ)
      → req.context.session_id < 2 ^ 64
      → req.context.protocol_id < 2 ^ 64
      → length req.payload < 2 ^ 64
      → max < length req.payload
      → read_request varint max (write_request varint req ++ rest) ≡ err invalid_input
  unfolding read_request write_request
  read_request-over_limit max req rest hs hp hl hm =
      let ctx = req.context in
      let body = req.payload ++ rest in
      let s4 = encode (length req.payload) ++ body in
      let s3 = encode ctx.protocol_id ++ s4 in
      let s2 = encode ctx.session_id ++ s3 in
      let s1 = encode (bool_code req.is_broadcast) ++ s2 in
      simp (
        append_assoc,
        read-encode u8 (type_code ctx.message_type) s1 (type_code-lt ctx.message_type),
        read_type-type_code,
        read-encode u8 (bool_code req.is_broadcast) s2 (bool_code-lt req.is_broadcast),
        read-encode u64 ctx.session_id s3 hs,
        read-encode u64 ctx.protocol_id s4 hp,
        read-encode usize (length req.payload) body hl,
        read_body_over max (length req.payload) body hm,
      )

  -- Whatever a peer sends: a request that is read has a payload within the limit and ids of 64
  -- bits, and its type is the first number.
  pub read_request_bounds :
      (max : ℕ) (src rest : List ℕ) (req : WireMessage)
      → read_request varint max src ≡ ok (req, rest)
      → (length req.payload ≤ max)
        × (req.context.session_id < 2 ^ 64)
        × (req.context.protocol_id < 2 ^ 64)
  unfolding read_request
  read_request_bounds max src rest req h =
      let (r1, e1, h1) = >>=-eq-ok (or_invalid (read u8 src)) _ h in
      let (r2, e2, h2) = >>=-eq-ok (read_type r1.0) _ h1 in
      let (r3, e3, h3) = >>=-eq-ok (or_invalid (read u8 r1.1)) _ h2 in
      let (r4, e4, h4) = >>=-eq-ok (or_invalid (read u64 r3.1)) _ h3 in
      let (r5, e5, h5) = >>=-eq-ok (or_invalid (read u64 r4.1)) _ h4 in
      let (r6, e6, h6) = >>=-eq-ok (or_invalid (read usize r5.1)) _ h5 in
      let (r7, e7, h7) = >>=-eq-ok (read_body max r6.0 r6.1) _ h6 in
      ground (
        arith,
        read_body_fits max r6.0 r6.1 r7.0 r7.1 e7,
        or_invalid-lt u64 r3.1 r4.0 r4.1 e4,
        or_invalid-lt u64 r4.1 r5.0 r5.1 e5,
      )

  or_invalid-ne-panic : (w : Width) (src : List ℕ) → or_invalid (read w src) ≢ panic
  or_invalid-ne-panic w src = go (read w src)
    where
      go : (r : ReadResult (ℕ × List ℕ)) → or_invalid r ≢ panic
      go (Varint.ok a) = λ p. cc
      go (Varint.err x) = λ p. cc

  -- What the first number decides, under a limit below 2^63. A request of an unknown type is a panic of
  -- the reader, and it is the only panic: no input with a known type panics, and none whose first
  -- number does not read.
  pub read_request_panics :
      (max : ℕ) (src : List ℕ)
      → max < 2 ^ 63
      → ((t : ℕ) (rest : List ℕ)
          → read u8 src ≡ Varint.ok (t, rest)
          → (2 ≤ t → read_request varint max src ≡ panic)
            × (t ≤ 1 → read_request varint max src ≢ panic))
        × ((e : ReadError)
            → read u8 src ≡ Varint.err e
            → read_request varint max src ≡ err invalid_input)
  unfolding read_request
  read_request_panics max src small = (
    λ t rest e. (
      λ h. rw (e, read_request) (ground arith),
      λ h.
          rw (e, read_request)
            (>>=-ne-panic (read_type t) _ (ground arith) λ ty.
              >>=-ne-panic (or_invalid (read u8 rest)) _ (or_invalid-ne-panic u8 rest) λ b.
                >>=-ne-panic (or_invalid (read u64 b.1)) _ (or_invalid-ne-panic u64 b.1) λ s.
                  >>=-ne-panic (or_invalid (read u64 s.1)) _ (or_invalid-ne-panic u64 s.1) λ p.
                    >>=-ne-panic (or_invalid (read usize p.1)) _ (or_invalid-ne-panic usize p.1)
                      λ l.
                        >>=-ne-panic (read_body max l.0 l.1) _
                          (read_body-ne-panic max l.0 l.1 small) λ r k. cc),
    ),
    λ x e. rw (e, read_request) refl,
  )
