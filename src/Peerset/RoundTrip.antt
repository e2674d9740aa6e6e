-- ===== src/Peerset/RoundTrip.antt =====
-- A peer set through its bytes, as the proposer sends it and a file keeps it.
use tss_libp2p.Prelude.{
  ℕ, zero, suc, ◌+◌, ◌*◌, ◌<◌, ◌≤◌, ◌≡◌, refl, sym, ap, ◌∙◌, List, [], ◌∷◌, ◌++◌, map, arith, inl,
  inr, length, take, drop, All, length-append, take_all, drop_all, take-append-drop, append-nil,
  take_at, length-take, All-append, append_assoc, nat_beq, if◌then◌else◌, none, some, subst,
}
use tss_libp2p.Peer.{PeerApi}
use tss_libp2p.Io.{
  IoResult, ok, panic, ◌>>=◌, BufReader, new_reader, read, buf_capacity, buf_capacity_lem,
}
use tss_libp2p.Io.Reader.{read-new_reader}
use tss_libp2p.Peerset.{
  Peerset, to_bytes, from_bytes, read_peers, first_or_zero, as_u8, sorted_by_id,
}
use tss_libp2p.Peerset.Bytes.{
  wire, Has38, write_peers-wire, write_peers_short, length-wire, read_peers-wire,
}

abbrev pub IsByte : ℕ → Type 0
IsByte b = b < 256

map-as_u8 : (ks : List ℕ) → All IsByte ks → map as_u8 ks ≡ ks
map-as_u8 [] h = refl
map-as_u8 (k ∷ ks) h = ground (arith, map-as_u8 ks h.1)

take-as_u8 : (n : ℕ) (ks : List ℕ) → All IsByte (take n ks) → map as_u8 (take n ks) ≡ take n ks
take-as_u8 zero ks h = refl
take-as_u8 (suc n) [] h = refl
take-as_u8 (suc n) (k ∷ ks) h = ground (arith, take-as_u8 n ks h.1)

module _ {PeerId : Type 0} ⦃api : PeerApi PeerId⦄ where
  -- What `new` and the cache give: ids of 38 bytes in order, and one index of a byte for each.
  pub record IsWire (ps : Peerset PeerId) : Type 0 where
    pub ids : All (Has38 {PeerId = PeerId}) ps.session_peers
    pub aligned : length ps.parties_indexes ≡ length ps.session_peers
    pub sorted : sorted_by_id ps.session_peers ≡ ps.session_peers
    pub small : All IsByte ps.parties_indexes

  -- `to_bytes` writes a record for each peer if there is an index for each, and otherwise panics.
  pub to_bytes_outcome :
      (ps : Peerset PeerId)
      → (length ps.session_peers ≤ length ps.parties_indexes
          → to_bytes ps ≡ ok (wire ps.session_peers ps.parties_indexes))
        × (length ps.parties_indexes < length ps.session_peers → to_bytes ps ≡ panic)
  unfolding to_bytes
  to_bytes_outcome ps = (
    λ h. write_peers-wire ps.parties_indexes 0 ps.session_peers (omega arith),
    λ h. write_peers_short ps.parties_indexes 0 ps.session_peers (omega arith) (omega arith),
  )

  -- The first read of the loop sees one buffer full of the bytes.
  read_peers_first :
      (fuel : ℕ) (bs : List ℕ)
      → read_peers {PeerId = PeerId} (suc fuel) (new_reader bs) [] []
        ≡ read_peers
            (suc fuel)
            (record { buffered = take buf_capacity bs; source = drop buf_capacity bs })
            []
            []
  unfolding read_peers
  read_peers_first fuel bs =
      ap
        (λ (p : List ℕ × BufReader).
          let next : IoResult (List PeerId × List ℕ) = elim (api.from_bytes p.0) [
            | none ↦ panic
            | some q ↦ read_peers fuel (read 1 p.1).1 (q ∷ []) (first_or_zero (read 1 p.1).0 ∷ [])
          ] in
          if nat_beq (length p.0) 38 then next else ok ([], []))
        (read-new_reader 38 bs)

  read_whole :
      (ps : List PeerId) (ks : List ℕ)
      → All Has38 ps
      → length ks ≡ length ps
      → length ps ≤ 210
      → read_peers (suc (length (wire ps ks))) (new_reader (wire ps ks)) [] []
        ≡ ok (ps, map as_u8 ks)
  read_whole ps ks ids e h =
      let bs = wire ps ks in
      let len : length bs ≡ 39 * length ps = length-wire ps ks ids e in
      read_peers_first (length bs) bs
      ∙ rw
          (
            take_all buf_capacity bs (omega (arith, buf_capacity_lem)),
            drop_all buf_capacity bs (omega (arith, buf_capacity_lem)),
          )
          (rw append-nil at (
            read_peers-wire (suc (length bs)) ps ks [] [] [] [] ids e (omega arith) (omega arith)
              (inr refl)))

  -- A peer set comes back whole, for the node that decodes it, if it has at most 210 peers, ids of 38
  -- bytes, its peers in the order of their ids, and for each of them one index, below 256.
  pub from_bytes-to_bytes :
      (ps : Peerset PeerId) (local : PeerId) (chan : ℕ)
      → IsWire ps
      → length ps.session_peers ≤ 210
      → (to_bytes ps >>= λ bytes. from_bytes bytes local chan)
        ≡ ok (record ps { local_peer_id = local; to_runtime = chan }, chan)
  unfolding from_bytes
  from_bytes-to_bytes ps local chan w h = rw (
    (to_bytes_outcome ps).0 (omega (arith, w.aligned)),
    read_whole ps.session_peers ps.parties_indexes w.ids w.aligned h,
    w.sorted,
    map-as_u8 ps.parties_indexes w.small,
  )

  wire_split :
      (n : ℕ) (ps : List PeerId) (ks : List ℕ)
      → length ks ≡ length ps
      → wire ps ks ≡ wire (take n ps) (take n ks) ++ wire (drop n ps) (drop n ks)
  wire_split zero ps ks e = refl
  wire_split (suc n) [] [] e = refl
  wire_split (suc n) [] (k ∷ ks) e = absurd (omega arith)
  wire_split (suc n) (p ∷ ps) [] e = absurd (omega arith)
  wire_split (suc n) (p ∷ ps) (k ∷ ks) e = rw (append_assoc, ← wire_split n ps ks (omega arith))

  All-take :
      (n : ℕ) (ps : List PeerId)
      → All (Has38 {PeerId = PeerId}) ps
      → All (Has38 {PeerId = PeerId}) (take n ps)
  All-take n ps h =
      (All-append Has38 (take n ps) (drop n ps)
        (subst (All Has38) (sym (take-append-drop n ps)) h)).0

  read_cut :
      (ps : List PeerId) (ks : List ℕ)
      → All Has38 ps
      → length ks ≡ length ps
      → 210 < length ps
      → read_peers (suc (length (wire ps ks))) (new_reader (wire ps ks)) [] []
        ≡ ok (take 210 ps, map as_u8 (take 210 ks))
  read_cut ps ks ids e h =
      let bs = wire ps ks in
      let front = wire (take 210 ps) (take 210 ks) in
      let back = wire (drop 210 ps) (drop 210 ks) in
      let few : length (take 210 ps) ≡ 210 = omega (arith, length-take 210 ps) in
      let even : length (take 210 ks) ≡ length (take 210 ps) =
        omega (arith, length-take 210 ps, length-take 210 ks) in
      let len : length front ≡ 8190 =
        omega (arith, length-wire (take 210 ps) (take 210 ks) (All-take 210 ps ids) even) in
      let all : length bs ≡ 39 * length ps = length-wire ps ks ids e in
      let split : bs ≡ front ++ back = wire_split 210 ps ks e in
      let rest : length bs ≡ length front + length back =
        omega (arith, ap length split, length-append front back) in
      let full : take buf_capacity bs ≡ front ++ take 2 back =
        take_at buf_capacity 2 bs front back split (omega (arith, buf_capacity_lem)) in
      read_peers_first (length bs) bs
      ∙ rw full (
          read_peers-wire (suc (length bs)) (take 210 ps) (take 210 ks) (take 2 back)
            (drop buf_capacity bs) [] [] (All-take 210 ps ids) even (omega arith)
            (omega (arith, length-take 2 back)) (inl (omega (arith, length-take 2 back))))

  -- Of a set of more than 210 peers only the first 210 are read, if all ids have 38 bytes, there is one
  -- index for each peer, and the first 210 indexes are below 256: the read at the end of the buffer
  -- is short, and the loop takes a short read for the end of the input.
  pub from_bytes_cut :
      (ps : Peerset PeerId) (local : PeerId) (chan : ℕ)
      → All (Has38 {PeerId = PeerId}) ps.session_peers
      → length ps.parties_indexes ≡ length ps.session_peers
      → All IsByte (take 210 ps.parties_indexes)
      → 210 < length ps.session_peers
      → (to_bytes ps >>= λ bytes. from_bytes bytes local chan)
        ≡ ok (
          record {
            local_peer_id = local;
            session_peers = sorted_by_id (take 210 ps.session_peers);
            parties_indexes = take 210 ps.parties_indexes;
            to_runtime = chan;
          },
          chan,
        )
  unfolding from_bytes
  from_bytes_cut ps local chan ids aligned small h = rw (
    (to_bytes_outcome ps).0 (omega (arith, aligned)),
    read_cut ps.session_peers ps.parties_indexes ids aligned h,
    take-as_u8 210 ps.parties_indexes small,
  )
