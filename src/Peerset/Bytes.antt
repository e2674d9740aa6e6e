-- ===== src/Peerset/Bytes.antt =====
-- `to_bytes` and `from_bytes`: 39 bytes a peer, the id and its index. `from_bytes` reads through a
-- buffer of 8192 bytes, which holds 210 peers and two bytes of the next.
use tss_libp2p.Prelude.{
  ℕ, zero, suc, ◌+◌, ◌*◌, ◌<◌, ◌≤◌, ◌≡◌, refl, ◌∙◌, List, [], ◌∷◌, ◌++◌, map, arith, ◌⊎◌, some,
  length, drop, All, length-append, append-nil, append_assoc, drop-get_elem?, get_elem?_past,
}
use native.Mathlib.Decide.{dec_lt}
use tss_libp2p.Peer.{PeerApi}
use tss_libp2p.Io.{ok, panic, BufReader, read}
use tss_libp2p.Io.Reader.{read_front, length-read-lt}
use tss_libp2p.Peerset.{write_peers, read_peers, index_at, as_u8}

module _ {PeerId : Type 0} ⦃api : PeerApi PeerId⦄ where
  -- The record of each peer, side by side.
  abbrev pub wire : List PeerId → List ℕ → List ℕ
  wire [] ks = []
  wire (p ∷ ps) [] = []
  wire (p ∷ ps) (k ∷ ks) = api.to_bytes p ++ (as_u8 k ∷ wire ps ks)

  abbrev pub Has38 : PeerId → Type 0
  Has38 p = length (api.to_bytes p) ≡ 38

  pub write_peers-wire :
      (indexes : List ℕ) (i : ℕ) (ps : List PeerId)
      → i + length ps ≤ length indexes
      → write_peers indexes i ps ≡ ok (wire ps (drop i indexes))
  unfolding write_peers index_at
  write_peers-wire indexes i [] h = refl
  write_peers-wire indexes i (p ∷ ps) h =
      let (k, e, d) = drop-get_elem? i indexes (omega arith) in
      ground (arith, e, d, write_peers-wire indexes (suc i) ps (omega arith))

  pub write_peers_short :
      (indexes : List ℕ) (i : ℕ) (ps : List PeerId)
      → i ≤ length indexes
      → length indexes < i + length ps
      → write_peers indexes i ps ≡ panic
  unfolding write_peers index_at
  write_peers_short indexes i [] h k = absurd (omega arith)
  write_peers_short indexes i (p ∷ ps) h k = elim (dec_lt i (length indexes)) [
    | yes some_left ↦
        let (m, e, _) = drop-get_elem? i indexes some_left in
        ground (arith, e, write_peers_short indexes (suc i) ps some_left)
    | no none_left ↦ ground (arith, get_elem?_past i indexes (omega arith))
  ]

  pub length-wire :
      (ps : List PeerId) (ks : List ℕ)
      → All Has38 ps
      → length ks ≡ length ps
      → length (wire ps ks) ≡ 39 * length ps
  length-wire [] ks h e = omega arith
  length-wire (p ∷ ps) [] h e = absurd (omega arith)
  length-wire (p ∷ ps) (k ∷ ks) h e = omega (
    arith,
    h.0,
    length-append (api.to_bytes p) (as_u8 k ∷ wire ps ks),
    length-wire ps ks h.1 (omega arith),
  )

  -- One round of the loop, and its end.
  read_peers_round :
      (fuel : ℕ) (r r1 r2 : BufReader) (buf : List ℕ) (p : PeerId) (k : ℕ) (accp : List PeerId)
      (acck : List ℕ)
      → read 38 r ≡ (buf, r1)
      → read 1 r1 ≡ (k ∷ [], r2)
      → length buf ≡ 38
      → api.from_bytes buf ≡ some p
      → read_peers (suc fuel) r accp acck ≡ read_peers fuel r2 (accp ++ (p ∷ [])) (acck ++ (k ∷ []))
  unfolding read_peers
  read_peers_round fuel r r1 r2 buf p k accp acck e1 e2 l e3 = ground arith

  read_peers_end :
      (fuel : ℕ) (r : BufReader) (accp : List PeerId) (acck : List ℕ)
      → length (read 38 r).0 < 38
      → read_peers (suc fuel) r accp acck ≡ ok (accp, acck)
  unfolding read_peers
  read_peers_end fuel r accp acck l = ground arith

  -- From a buffer that holds whole records and a remainder too short for an id, the loop returns
  -- exactly those records.
  pub read_peers-wire :
      (fuel : ℕ) (ps : List PeerId) (ks tail src : List ℕ) (accp : List PeerId) (acck : List ℕ)
      → All Has38 ps
      → length ks ≡ length ps
      → length ps < fuel
      → length tail < 38
      → (0 < length tail) ⊎ (src ≡ [])
      → read_peers fuel (record { buffered = wire ps ks ++ tail; source = src }) accp acck
        ≡ ok (accp ++ ps, acck ++ map as_u8 ks)
  unfolding read_peers
  read_peers-wire zero ps ks tail src accp acck ids e f t r = absurd (omega arith)
  read_peers-wire (suc fuel) [] [] tail src accp acck ids e f t r =
      rw (append-nil accp, append-nil acck)
        (read_peers_end fuel (record { buffered = tail; source = src }) accp acck
          (length-read-lt 38 tail src t r))
  read_peers-wire (suc fuel) [] (k ∷ ks) tail src accp acck ids e f t r = absurd (omega arith)
  read_peers-wire (suc fuel) (p ∷ ps) [] tail src accp acck ids e f t r = absurd (omega arith)
  read_peers-wire (suc fuel) (p ∷ ps) (k ∷ ks) tail src accp acck ids e f t r =
      let more = wire ps ks ++ tail in
      let r0 : BufReader = record { buffered = wire (p ∷ ps) (k ∷ ks) ++ tail; source = src } in
      let r1 : BufReader = record { buffered = as_u8 k ∷ more; source = src } in
      let r2 : BufReader = record { buffered = more; source = src } in
      read_peers_round fuel r0 r1 r2 (api.to_bytes p) p (as_u8 k) accp acck
        (rw append_assoc (read_front 38 (api.to_bytes p) (as_u8 k ∷ more) src ids.0 (omega arith)))
        (read_front 1 (as_u8 k ∷ []) more src refl (omega arith)) ids.0 (api.from_bytes-to_bytes p)
      ∙ read_peers-wire fuel ps ks tail src (accp ++ (p ∷ [])) (acck ++ (as_u8 k ∷ [])) ids.1
          (omega arith) (omega arith) t r
      ∙ rw (append_assoc accp, append_assoc acck)
