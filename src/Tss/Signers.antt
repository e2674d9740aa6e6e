-- ===== src/Tss/Signers.antt =====
-- The numbers of the signers, from the peer set that made the key.
use mathlib.Core.Path.{fun_ext}
use mathlib.Core.Option
use mathlib.Core.List.{filter_map}
use tss_libp2p.Prelude.{
  ℕ, suc, ◌+◌, ◌%◌, ◌≤◌, ◌≡◌, refl, ap, ◌∙◌, List, [], ◌∷◌, some, length, map, arith, All, ◌==◌,
  Bool-cases, Option-cases, inl, inr,
}
use tss_libp2p.Peer.{PeerApi, peer_eq}
use tss_libp2p.Io.{ok, ◌>>=◌, >>=-eq-ok}
use tss_libp2p.HashMap
use tss_libp2p.Broadcast.{Name, name_eq}
use tss_libp2p.Config.Files.{Files}
use tss_libp2p.Service.{RoomId}
use tss_libp2p.Peerset.{Peerset, range, position, index_of, as_u16, sorted_by_id, new}
use tss_libp2p.Peerset.Bytes.{Has38}
use tss_libp2p.Peerset.Fresh.{new-IsWire, length-range, length-sorted}
use tss_libp2p.Peerset.Cache.{index_beside, cached, recover_from_cache_lem}
use tss_libp2p.Cacher.{PersistentCacher, read_persistent, write_persistent}
use tss_libp2p.Cacher.Kept.{read_persistent-write_persistent}
use tss_libp2p.Execution.{party_number}
use tss_libp2p.Tss.Agents.{ShareApi, read_local_key, keysign_start}

module _ {PeerId : Type 0} ⦃api : PeerApi PeerId⦄ where
  -- Beside each peer of a new set stands its position.
  index_beside-range :
      (p : PeerId) (l : List PeerId) (s : ℕ)
      → s + length l ≤ 65536
      → index_beside p l (range s (length l)) ≡ Option.map (λ i. (s + i) % 65536) (position p l)
  unfolding index_beside position
  index_beside-range p [] s h = refl
  index_beside-range p (q ∷ qs) s h = elim (Bool-cases (q == p)) [
    | inl hit ↦ ground (arith, hit)
    | inr miss ↦
        let ih = index_beside-range p qs (suc s) (omega arith) in
        elim (Option-cases (position p qs)) [
          | inl absent ↦ ground (arith, miss, absent, ih)
          | inr (j, found) ↦ ground (arith, miss, found, ih)
        ]
  ]

  cached-new :
      (peers : List PeerId) (local : PeerId) (chan : ℕ) (p : PeerId)
      → length peers ≤ 65536
      → cached (new peers local chan).0 p ≡ index_of (new peers local chan).0 p
  unfolding new index_of
  cached-new peers local chan p h =
      let sorted = sorted_by_id peers in
      index_beside-range p sorted 0 (omega (arith, length-sorted peers))
      ∙ ap (λ f. Option.map f (position p sorted))
          (fun_ext {f = λ (j : ℕ). (0 + j) % 65536} {g = as_u16} (λ j. omega arith))

  module _ {LocalKey Point : Type 0} (share : ShareApi LocalKey Point) where
    -- The peer set that made a key, of at most 210 peers with ids of 38 bytes, is cached in the
    -- file of the room. When a session that holds this node signs, and its share can be read from
    -- its file, its state machine gets the place of this node in the session, that share, and for
    -- each peer of the session, in the order of the ids, the very number that the peer had when
    -- the key was made; peers that did not make the key have none.
    pub keysign_start_numbers :
        (c : PersistentCacher PeerId) (room : RoomId) (peers : List PeerId) (me : PeerId)
        (made_chan chan i : ℕ) (parties : Peerset PeerId) (path : Name) (files : Files)
        (share_bytes : List ℕ) (key : LocalKey)
        → All (Has38 {PeerId = PeerId}) peers
        → length peers ≤ 210
        → index_of parties parties.local_peer_id ≡ some i
        → HashMap.get path files ≡ some share_bytes
        → share.key_from_slice share_bytes ≡ some key
        → let group = (new peers me made_chan).0 in
          (write_persistent room group c >>= λ c1.
          keysign_start share path (read_persistent room chan c1) parties files)
          ≡ ok (
            party_number i,
            map party_number (filter_map (index_of group) (sorted_by_id parties.session_peers)),
            key,
          )
    unfolding keysign_start read_local_key new
    keysign_start_numbers c room peers me made_chan chan i parties path files share_bytes key ids
          few at_i there reads =
        let group = (new peers me made_chan).0 in
        let cache = record group { local_peer_id = c.local_peer_id; to_runtime = chan } in
        let small = length-sorted peers in
        let kept =
          (read_persistent-write_persistent c room group chan
            (new-IsWire peers me made_chan ids (omega arith)) (omega (arith, small))).0 in
        let (c1, written, found) = >>=-eq-ok (write_persistent room group c) _ kept in
        let numbers =
          (recover_from_cache_lem (ok cache) parties).0 cache refl
            (length-range 0 (length (sorted_by_id peers))) (omega (arith, small)) in
        let same = fun_ext (λ p. cached-new peers me made_chan p (omega arith)) in
        let signers = sorted_by_id parties.session_peers in
        let recovered = record parties { parties_indexes = filter_map (cached cache) signers } in
        let place : index_of recovered parties.local_peer_id ≡ some i = unfold index_of in at_i in
        let has_share : read_local_key share path files ≡ ok key =
          rw (there, reads, read_local_key) refl in
        rw (written, found, keysign_start, numbers)
          (rw (place, has_share)
            (ap (λ f. ok (party_number i, map party_number (filter_map f signers), key)) same))
