-- ===== src/Peerset/Order.antt =====
-- The order of peer ids, and what `new` does with it.
use tss_libp2p.Prelude.{
  ℕ, length, ◌≡◌, refl, sym, ap, List, [], ◌∷◌, true, arith, inl, inr, ◌⊎◌, Bool-cases,
  IsTotalOrder, sort_of_perm, sort-sort, Perm, ◌↔◌, subst, sort-perm,
}
use mathlib.Core.List.Perm
use tss_libp2p.Peer.{PeerApi}
use tss_libp2p.Peerset.{bytes_le, id_le, sorted_by_id, new, index_of, position, range, as_u16}
use mathlib.Core.Option

bytes_le_total : (xs ys : List ℕ) → (bytes_le xs ys ≡ true) ⊎ (bytes_le ys xs ≡ true)
unfolding bytes_le
bytes_le_total [] ys = inl refl
bytes_le_total (x ∷ xs) [] = inr refl
bytes_le_total (x ∷ xs) (y ∷ ys) = ground (arith, bytes_le_total xs ys)

bytes_le_antisym : (xs ys : List ℕ) → bytes_le xs ys ≡ true → bytes_le ys xs ≡ true → xs ≡ ys
unfolding bytes_le
bytes_le_antisym [] [] h k = refl
bytes_le_antisym [] (y ∷ ys) h k = cc
bytes_le_antisym (x ∷ xs) [] h k = cc
bytes_le_antisym (x ∷ xs) (y ∷ ys) h k = ground (arith, bytes_le_antisym xs ys)

bytes_le_trans :
    (xs ys zs : List ℕ) → bytes_le xs ys ≡ true → bytes_le ys zs ≡ true → bytes_le xs zs ≡ true
unfolding bytes_le
bytes_le_trans [] ys zs h k = refl
bytes_le_trans (x ∷ xs) [] zs h k = cc
bytes_le_trans (x ∷ xs) (y ∷ ys) [] h k = cc
bytes_le_trans (x ∷ xs) (y ∷ ys) (z ∷ zs) h k = ground (arith, bytes_le_trans xs ys zs)

module _ {PeerId : Type 0} ⦃api : PeerApi PeerId⦄ where
  to_bytes_injective : (p q : PeerId) → api.to_bytes p ≡ api.to_bytes q → p ≡ q
  to_bytes_injective p q e = cc (api.from_bytes-to_bytes p, api.from_bytes-to_bytes q)

  pub id_le-IsTotalOrder : IsTotalOrder {A = PeerId} id_le
  id_le-IsTotalOrder = record {
    total = λ p q. bytes_le_total (api.to_bytes p) (api.to_bytes q);
    antisym =
        λ p q h k. to_bytes_injective p q (bytes_le_antisym (api.to_bytes p) (api.to_bytes q) h k);
    trans = λ p q r h k. bytes_le_trans (api.to_bytes p) (api.to_bytes q) (api.to_bytes r) h k;
  }

  pub peer_discrete : Discrete PeerId
  peer_discrete p q = elim (Bool-cases (api.beq p q)) [
    | inl e ↦ yes ((api.beq_iff p q).0 e)
    | inr e ↦ no (λ h. cc (e, (api.beq_iff p q).1 h))
  ]

  pub sorted_sorted : (peers : List PeerId) → sorted_by_id (sorted_by_id peers) ≡ sorted_by_id peers
  sorted_sorted = sort-sort id_le-IsTotalOrder peer_discrete

  sorted_of_perm :
      {peers others : List PeerId} → Perm peers others → sorted_by_id peers ≡ sorted_by_id others
  sorted_of_perm = sort_of_perm id_le-IsTotalOrder peer_discrete

  -- Two nodes that assemble a session, each with its own id and its own channel, have the same peers in
  -- the same order, the same indexes beside them and the same answer to the index of each peer exactly
  -- if they have met the same peers, in any two orders.
  pub new-eq-iff-perm :
      (peers others : List PeerId) (p q : PeerId) (c d : ℕ)
      → Perm peers others ↔ (
          ((new peers p c).0.session_peers ≡ (new others q d).0.session_peers)
          × ((new peers p c).0.parties_indexes ≡ (new others q d).0.parties_indexes)
          × ((x : PeerId) → index_of (new peers p c).0 x ≡ index_of (new others q d).0 x))
  unfolding new index_of
  new-eq-iff-perm peers others p q c d = (
    λ same.
        let e : sorted_by_id peers ≡ sorted_by_id others = sorted_of_perm same in
        (e, ap (λ l. range 0 (length l)) e, λ x. ap (λ l. Option.map as_u16 (position x l)) e),
    λ e.
        Perm.trans (Perm.symm (sort-perm id_le peers))
          (subst (λ l. Perm l others) (sym e.0) (sort-perm id_le others)),
  )
