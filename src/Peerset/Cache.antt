-- ===== src/Peerset/Cache.antt =====
-- `recover_from_cache`: the indexes that the cached group gave to the peers of this session.

use mathlib.Core.List.{
  filter_map, filter_map-cons-none, filter_map-cons-some, mem-cons, not-mem-nil,
}
use mathlib.Core.List.Perm
use mathlib.Core.Logic.Or
use native.Mathlib.Bridge.{le_prop}
use tss_libp2p.Prelude.{
  ℕ, ◌<◌, ◌≤◌, ◌≡◌, refl, sym, ap, ◌∙◌, ◌⊎◌, Bool-cases, Option-cases, Mem, subst, sort-perm,
  length-perm, List, [], ◌∷◌, ◌++◌, arith, inl, inr, Option, some, none, length, get_elem?,
  if◌then◌else◌, ◌==◌, append-nil, append_assoc,
}
use tss_libp2p.Peer.{PeerApi, peer_eq}
use tss_libp2p.Io.{IoResult, ok, err, panic, IoError}
use tss_libp2p.Peerset.{
  Peerset, id_le, position, index_of, index_at, recover_indexes, recover_from_cache, sorted_by_id,
  to_bytes,
}
use tss_libp2p.Peerset.RoundTrip.{to_bytes_outcome}

module _ {PeerId : Type 0} ⦃api : PeerApi PeerId⦄ where
  -- The index that stands beside the first entry of a peer.
  unfoldable pub index_beside : PeerId → List PeerId → List ℕ → Option ℕ
  index_beside p [] ks = none
  index_beside p (q ∷ qs) [] = none
  index_beside p (q ∷ qs) (k ∷ ks) = if q == p then some k else index_beside p qs ks

  abbrev pub cached : Peerset PeerId → PeerId → Option ℕ
  cached cache p = index_beside p cache.session_peers cache.parties_indexes

  -- What the position finds in the indexes is what stands beside the peer.
  index_beside_absent :
      (p : PeerId) (qs : List PeerId) (ks : List ℕ)
      → position p qs ≡ none
      → index_beside p qs ks ≡ none
  unfolding index_beside position
  index_beside_absent p [] ks e = refl
  index_beside_absent p (q ∷ qs) [] e = refl
  index_beside_absent p (q ∷ qs) (k ∷ ks) e = ground (arith, index_beside_absent p qs ks)

  index_beside-position :
      (p : PeerId) (qs : List PeerId) (ks : List ℕ) (i : ℕ)
      → length ks ≡ length qs
      → position p qs ≡ some i
      → (k : ℕ) × (i < length qs) × (get_elem? ks i ≡ some k) × (index_beside p qs ks ≡ some k)
  unfolding index_beside position
  index_beside-position p [] ks i e h = cc
  index_beside-position p (q ∷ qs) [] i e h = absurd (omega arith)
  index_beside-position p (q ∷ qs) (k ∷ ks) i e h = elim (Bool-cases (q == p)) [
    | inl hit ↦ (k, ground (arith, hit), ground (arith, hit), ground (arith, hit))
    | inr miss ↦ elim (Option-cases (position p qs)) [
      | inl absent ↦ ground (arith, miss, absent)
      | inr (j, found) ↦
          let (m, a, b, c) = index_beside-position p qs ks j (omega arith) found in
          (m, ground (arith, miss, found), ground (arith, miss, found), ground (arith, miss, found))
    ]
  ]

  -- One peer of the loop.
  recover_step :
      (cache : Peerset PeerId) (p : PeerId)
      → length cache.parties_indexes ≡ length cache.session_peers
      → length cache.session_peers ≤ 65536
      → ((index_of cache p ≡ none) × (cached cache p ≡ none))
        ⊎ ((i : ℕ) × (k : ℕ) × (index_of cache p ≡ some i)
            × (index_at cache.parties_indexes i ≡ ok k)
            × (cached cache p ≡ some k))
  unfolding index_of index_at
  recover_step cache p e h = elim (Option-cases (position p cache.session_peers)) [
    | inl absent ↦ inl (
      ground (arith, absent),
      index_beside_absent p cache.session_peers cache.parties_indexes absent,
    )
    | inr (i, found) ↦
        let (k, a, b, c) =
          index_beside-position p cache.session_peers cache.parties_indexes i e found in
        inr (i, k, ground (arith, found), ground (arith, b), c)
  ]

  recover_indexes_lem :
      (cache : Peerset PeerId) (ps : List PeerId) (acc : List ℕ)
      → length cache.parties_indexes ≡ length cache.session_peers
      → length cache.session_peers ≤ 65536
      → recover_indexes cache ps acc ≡ ok (acc ++ filter_map (cached cache) ps)
  unfolding recover_indexes filter_map
  recover_indexes_lem cache [] acc e h = ap ok (sym (append-nil acc))
  recover_indexes_lem cache (p ∷ ps) acc e h = elim (recover_step cache p e h) [
    | inl (absent, none_cached) ↦
        rw (absent, filter_map-cons-none (cached cache) p ps none_cached, recover_indexes)
          (recover_indexes_lem cache ps acc e h)
    | inr (i, k, found, at, is_cached) ↦
        rw (found, recover_indexes)
          (rw (at, filter_map-cons-some (cached cache) p ps is_cached)
            (recover_indexes_lem cache ps (acc ++ (k ∷ [])) e h
              ∙ ap ok (append_assoc acc (k ∷ []) _)))
  ]

  pub recover_from_cache_lem :
      (reply : IoResult (Peerset PeerId)) (ps : Peerset PeerId)
      → ((cache : Peerset PeerId)
          → reply ≡ ok cache
          → length cache.parties_indexes ≡ length cache.session_peers
          → length cache.session_peers ≤ 65536
          → recover_from_cache reply ps
            ≡ ok (record ps {
              parties_indexes = filter_map (cached cache) (sorted_by_id ps.session_peers);
            }))
        × ((e : IoError) → reply ≡ err e → recover_from_cache reply ps ≡ err e)
  unfolding recover_from_cache
  recover_from_cache_lem reply ps = (
    λ cache r e h. rw r (rw (recover_indexes_lem cache (sorted_by_id ps.session_peers) [] e h)),
    λ x r. rw r,
  )

  length-filter_map-le :
      (f : PeerId → Option ℕ) (ps : List PeerId) → length (filter_map f ps) ≤ length ps
  length-filter_map-le f [] = unfold filter_map in omega arith
  length-filter_map-le f (q ∷ qs) = elim (Option-cases (f q)) [
    | inl absent ↦
        rw (filter_map-cons-none f q qs absent) (omega (arith, length-filter_map-le f qs))
    | inr (k, here) ↦
        rw (filter_map-cons-some f q qs here) (omega (arith, length-filter_map-le f qs))
  ]

  length-filter_map-lt :
      (f : PeerId → Option ℕ) (ps : List PeerId) (p : PeerId)
      → Mem p ps
      → f p ≡ none
      → length (filter_map f ps) < length ps
  length-filter_map-lt f [] p m e = absurd (not-mem-nil m)
  length-filter_map-lt f (q ∷ qs) p m e = elim (Option-cases (f q)) [
    | inl absent ↦
        rw (filter_map-cons-none f q qs absent) (omega (arith, length-filter_map-le f qs))
    | inr (k, here) ↦ rw (filter_map-cons-some f q qs here) (
        Or.elim le_prop (mem-cons.0 m) (λ same. cc (e, here, ap f same))
          (λ later. omega (arith, length-filter_map-lt f qs p later e)))
  ]

  -- A session with one peer that the cache does not hold cannot be written down after the recovery:
  -- it has fewer indexes than peers, and `to_bytes` panics.
  pub to_bytes-recover_panics :
      (cache ps recovered : Peerset PeerId) (p : PeerId)
      → length cache.parties_indexes ≡ length cache.session_peers
      → length cache.session_peers ≤ 65536
      → Mem p ps.session_peers
      → cached cache p ≡ none
      → recover_from_cache (ok cache) ps ≡ ok recovered
      → to_bytes recovered ≡ panic
  to_bytes-recover_panics cache ps recovered p e h m absent r =
      let known : Peerset PeerId = record ps {
        parties_indexes = filter_map (cached cache) (sorted_by_id ps.session_peers);
      } in
      let same : known ≡ recovered =
        cc (r, (recover_from_cache_lem (ok cache) ps).0 cache refl e h) in
      let sorted = sort-perm id_le ps.session_peers in
      let lost =
        length-filter_map-lt (cached cache) (sorted_by_id ps.session_peers) p
          ((Perm.mem_iff sorted).1 m) absent in
      subst (λ q. to_bytes q ≡ panic) same
        ((to_bytes_outcome known).1 (omega (arith, lost, length-perm sorted)))
