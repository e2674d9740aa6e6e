-- ===== src/HashSet.antt =====
-- `std::collections::HashSet` as the program uses it: the elements in any order, each once.
use mathlib.Core.List.{mem-cons, mem-cons_self, mem-cons_of_mem, not-mem-nil, Nodup-cons, Mem-prop}
use mathlib.Core.Logic.Or
use tss_libp2p.Prelude.{
  ◌≡◌, ◌≢◌, Nodup, Mem, inl, inr, Bool-cases, subst, List, [], ◌∷◌, Bool, false, ◌||◌, arith, ◌==◌,
  if◌then◌else◌,
}
use tss_libp2p.Peer.{PeerApi, peer_eq}

module _ {P : Type 0} ⦃api : PeerApi P⦄ where
  unfoldable pub set_insert : P → List P → List P
  set_insert p [] = p ∷ []
  set_insert p (q ∷ qs) = let rest = set_insert p qs in if q == p then q ∷ qs else q ∷ rest

  unfoldable pub contains : P → List P → Bool
  contains p [] = false
  contains p (q ∷ qs) = q == p || contains p qs

  pub contains-set_insert :
      (p q : P) (qs : List P) → contains p (set_insert q qs) ≡ (q == p || contains p qs)
  unfolding set_insert contains
  contains-set_insert p q [] = ground arith
  contains-set_insert p q (r ∷ qs) =
      ground (arith, api.beq_iff r q, api.beq_iff q p, api.beq_iff r p, contains-set_insert p q qs)

  mem-set_insert : (r p : P) (l : List P) → r ≢ p → Mem r (set_insert p l) → Mem r l
  unfolding set_insert
  mem-set_insert r p [] apart m =
      Or.elim Mem-prop (mem-cons.0 m) (λ same. absurd (apart same)) (λ none_left. none_left)
  mem-set_insert r p (q ∷ qs) apart m = elim (Bool-cases (q == p)) [
    | inl e ↦ rw e at m
    | inr e ↦
        let m1 : Mem r (q ∷ set_insert p qs) = rw e at m in
        Or.elim Mem-prop (mem-cons.0 m1) (λ same. subst (λ x. Mem r (x ∷ qs)) same mem-cons_self)
          (λ later. mem-cons_of_mem q (mem-set_insert r p qs apart later))
  ]

  pub Nodup-set_insert : (p : P) (l : List P) → Nodup l → Nodup (set_insert p l)
  unfolding set_insert
  Nodup-set_insert p [] n = Nodup-cons.1 (not-mem-nil, n)
  Nodup-set_insert p (q ∷ qs) n = elim (Bool-cases (q == p)) [
    | inl e ↦ rw e n
    | inr e ↦
        let (new, rest) = Nodup-cons.0 n in
        rw e (
          Nodup-cons.1 (
            λ m. new (mem-set_insert q p qs (λ same. let again = (api.beq_iff q p).1 same in cc) m),
            Nodup-set_insert p qs rest,
          ))
  ]
