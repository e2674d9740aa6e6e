-- ===== src/Peerset/Total.antt =====
-- `from_bytes` on every input.
use tss_libp2p.Prelude.{
  ℕ, zero, suc, ◌+◌, ◌<◌, ◌≡◌, refl, List, [], ◌∷◌, ◌++◌, arith, inl, inr, ◌⊎◌, Option-cases,
  Bool-cases, length, length-append, none, nat_beq, ◌∙◌, length-perm, sort-perm,
}
use tss_libp2p.Peer.{PeerApi}
use tss_libp2p.Io.{ok, panic, BufReader, read, new_reader}
use tss_libp2p.Io.Reader.{read_conserves}
use tss_libp2p.Peerset.{Peerset, from_bytes, read_peers, first_or_zero, sorted_by_id, id_le}
use tss_libp2p.Peerset.Order.{sorted_sorted}
use mathlib.Core.List.Perm

-- Some 38 bytes are the id of no peer.
abbrev pub SomeBadId : (PeerId : Type 0) → ⦃api : PeerApi PeerId⦄ → Type 0
SomeBadId PeerId ⦃api = api⦄ = (id : List ℕ) × (length id ≡ 38) × (api.from_bytes id ≡ none)

module _ {PeerId : Type 0} ⦃api : PeerApi PeerId⦄ where
  read_peers_total :
      (fuel : ℕ) (r : BufReader) (accp : List PeerId) (acck : List ℕ)
      → length r.buffered + length r.source < fuel
      → length acck ≡ length accp
      → ((peers : List PeerId) × (indexes : List ℕ) × (read_peers fuel r accp acck
            ≡ ok (peers, indexes))
          × (length indexes ≡ length peers))
        ⊎ ((read_peers fuel r accp acck ≡ panic) × SomeBadId PeerId)
  unfolding read_peers
  read_peers_total zero r accp acck h e = absurd (omega arith)
  read_peers_total (suc fuel) r accp acck h e =
      let r1 = (read 38 r).1 in
      let one = first_or_zero (read 1 r1).0 in
      elim (Bool-cases (nat_beq (length (read 38 r).0) 38)) [
        | inr short ↦ inl (accp, acck, rw (short, read_peers) refl, e)
        | inl full ↦ elim (Option-cases (api.from_bytes (read 38 r).0)) [
          | inl bad ↦ inr (rw (full, bad, read_peers) refl, ((read 38 r).0, ground arith, bad))
          | inr (p, good) ↦
              rw (full, good, read_peers)
                (read_peers_total fuel (read 1 r1).1 (accp ++ (p ∷ [])) (acck ++ (one ∷ []))
                  (ground (arith, read_conserves 38 r, read_conserves 1 r1))
                  (omega (arith, length-append accp (p ∷ []), length-append acck (one ∷ []), e)))
        ]
      ]

  -- Decoding a peer set ends on every input, well formed or not: with a peer set for the given node and
  -- channel, in the order of the ids and with one index for each peer, or with a panic, and then there
  -- are 38 bytes that are the id of no peer.
  pub from_bytes_total :
      (bytes : List ℕ) (local : PeerId) (chan : ℕ)
      → ((ps : Peerset PeerId) × (from_bytes bytes local chan ≡ ok (ps, chan))
          × (ps.local_peer_id ≡ local)
          × (ps.to_runtime ≡ chan)
          × (sorted_by_id ps.session_peers ≡ ps.session_peers)
          × (length ps.parties_indexes ≡ length ps.session_peers))
        ⊎ ((from_bytes bytes local chan ≡ panic) × SomeBadId PeerId)
  unfolding from_bytes
  from_bytes_total bytes local chan =
      elim (read_peers_total (suc (length bytes)) (new_reader bytes) [] [] (omega arith) refl) [
        | inl (peers, indexes, e, aligned) ↦
            let ps : Peerset PeerId = record {
              local_peer_id = local;
              session_peers = sorted_by_id peers;
              parties_indexes = indexes;
              to_runtime = chan;
            } in
            let even : length indexes ≡ length (sorted_by_id peers) =
              aligned ∙ length-perm (Perm.symm (sort-perm id_le peers)) in
            inl (ps, rw (e, from_bytes) refl, refl, refl, sorted_sorted peers, even)
        | inr (e, bad) ↦ inr (rw (e, from_bytes) refl, bad)
      ]
