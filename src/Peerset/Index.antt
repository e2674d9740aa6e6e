-- ===== src/Peerset/Index.antt =====
-- `index_of`, `Index<u16>` and `remotes_iter`.
use mathlib.Core.List.Perm
use mathlib.Core.Logic.Or
use mathlib.Core.List.{mem-cons, mem-cons_self, mem-cons_of_mem, not-mem-nil, Mem-prop, Nodup-cons}
use tss_libp2p.Prelude.{
  ℕ, zero, suc, ◌<◌, ◌≤◌, ◌≡◌, refl, sym, ap, subst, List, [], ◌∷◌, false, arith, inl, inr,
  Bool-cases, some, Option-cases, length-get_elem?, Perm, length, get_elem?, Mem, Nodup, ◌↔◌, ◌==◌,
}
use tss_libp2p.Peer.{PeerApi, peer_eq}
use tss_libp2p.Io.{ok}
use tss_libp2p.Peerset.{Peerset, position, index_of, peer_at, without, remotes_iter}

module _ {PeerId : Type 0} ⦃api : PeerApi PeerId⦄ where
  get_elem?-position :
      (p : PeerId) (l : List PeerId) (i : ℕ)
      → position p l ≡ some i
      → (get_elem? l i ≡ some p) × (i < length l)
  unfolding position
  get_elem?-position p [] i h = cc
  get_elem?-position p (q ∷ qs) zero h = ground (arith, api.beq_iff q p)
  get_elem?-position p (q ∷ qs) (suc i) h =
      ground (arith, api.beq_iff q p, get_elem?-position p qs i)

  mem_of_get_elem? : (p : PeerId) (l : List PeerId) (i : ℕ) → get_elem? l i ≡ some p → Mem p l
  mem_of_get_elem? p [] i h = cc
  mem_of_get_elem? p (q ∷ qs) zero h = let same : p ≡ q = cc in rw same mem-cons_self
  mem_of_get_elem? p (q ∷ qs) (suc i) h = mem-cons_of_mem q (mem_of_get_elem? p qs i h)

  position-get_elem? :
      (p : PeerId) (l : List PeerId) (i : ℕ)
      → Nodup l
      → get_elem? l i ≡ some p
      → position p l ≡ some i
  unfolding position
  position-get_elem? p [] i n h = cc
  position-get_elem? p (q ∷ qs) zero n h = ground (arith, api.beq_iff q p)
  position-get_elem? p (q ∷ qs) (suc i) n h =
      let (new, rest) = Nodup-cons.0 n in
      elim (Bool-cases (q == p)) [
        | inl e ↦
            absurd (
              new (subst (λ r. Mem r qs) (sym ((api.beq_iff q p).0 e)) (mem_of_get_elem? p qs i h)))
        | inr e ↦ rw (e, position-get_elem? p qs i rest h)
      ]

  without_absent : (p : PeerId) (l : List PeerId) → ¬ Mem p l → without p l ≡ l
  unfolding without
  without_absent p [] h = refl
  without_absent p (q ∷ qs) h = elim (Bool-cases (q == p)) [
    | inl e ↦ absurd (h (subst (λ r. Mem p (r ∷ qs)) (sym ((api.beq_iff q p).0 e)) mem-cons_self))
    | inr e ↦ rw e (ap (◌∷◌ q) (without_absent p qs (λ m. h (mem-cons_of_mem q m))))
  ]

  without-perm : (p : PeerId) (l : List PeerId) → Nodup l → Mem p l → Perm l (p ∷ without p l)
  unfolding without
  without-perm p [] n m = absurd (not-mem-nil m)
  without-perm p (q ∷ qs) n m =
      let (new, rest) = Nodup-cons.0 n in
      elim (Bool-cases (q == p)) [
        | inl e ↦
            let same = (api.beq_iff q p).0 e in
            rw (e, same, without_absent p qs (subst (λ r. ¬ Mem r qs) same new))
              (Perm.refl (p ∷ qs))
        | inr e ↦ rw e (
            Perm.trans (Perm.cons q (without-perm p qs rest (later e)))
              (Perm.swap p q (without p qs)))
      ]
    where
      later : (q == p) ≡ false → Mem p qs
      later e = Or.elim Mem-prop (mem-cons.0 m) (λ h. cc (e, (api.beq_iff q p).1 (sym h))) (λ h. h)

  -- For a session of distinct peers that fits `u16`: `index_of` gives exactly the position at which
  -- `Index` returns the peer.
  pub index_of-iff-peer_at :
      (ps : Peerset PeerId) (p : PeerId) (i : ℕ)
      → Nodup ps.session_peers
      → length ps.session_peers ≤ 65536
      → (index_of ps p ≡ some i) ↔ (peer_at ps i ≡ ok p)
  unfolding index_of peer_at
  index_of-iff-peer_at ps p i n h = (
    λ e. elim (Option-cases (position p ps.session_peers)) [
      | inl missing ↦ cc (rw missing at e)
      | inr (k, found) ↦ ground (arith, get_elem?-position p ps.session_peers k found)
    ],
    λ e. elim (Option-cases (get_elem? ps.session_peers i)) [
      | inl missing ↦ ground (arith, missing)
      | inr (q, found) ↦ ground (
        arith,
        found,
        length-get_elem? ps.session_peers i q found,
        position-get_elem? q ps.session_peers i n found,
      )
    ],
  )

  -- The remotes are the other peers: with the local peer they make up the session.
  pub remotes_iter-perm :
      (ps : Peerset PeerId)
      → Nodup ps.session_peers
      → Mem ps.local_peer_id ps.session_peers
      → Perm ps.session_peers (ps.local_peer_id ∷ remotes_iter ps)
  unfolding remotes_iter
  remotes_iter-perm ps = without-perm ps.local_peer_id ps.session_peers
