-- ===== src/Peerset/Fresh.antt =====
-- A peer set that `new` has made: one index for each peer, in the form that goes over the wire.
use tss_libp2p.Prelude.{
  Bool, ℕ, zero, suc, ◌+◌, ◌≤◌, ◌≡◌, refl, ap, List, [], ◌∷◌, arith, length, All, Bool-cases, inl,
  inr, insert, sort, sort-perm, length-perm,
}
use tss_libp2p.Peer.{PeerApi}
use tss_libp2p.Peerset.{range, sorted_by_id, id_le, new}
use tss_libp2p.Peerset.Bytes.{Has38}
use tss_libp2p.Peerset.Order.{sorted_sorted}
use tss_libp2p.Peerset.RoundTrip.{IsByte, IsWire}

pub length-range : (i n : ℕ) → length (range i n) ≡ n
length-range i zero = refl
length-range i (suc n) = ap suc (length-range (suc i) n)

pub range-IsByte : (i n : ℕ) → i + n ≤ 256 → All IsByte (range i n)
range-IsByte i zero h = tt
range-IsByte i (suc n) h = (omega arith, range-IsByte (suc i) n (omega arith))

module _ {A : Type 0} (le : A → A → Bool) (P : A → Type 0) where
  All-insert : (x : A) (xs : List A) → P x → All P xs → All P (insert le x xs)
  unfolding insert
  All-insert x [] p ps = (p, tt)
  All-insert x (y ∷ ys) p (q, qs) = elim (Bool-cases (le x y)) [
    | inl e ↦ rw e (p, (q, qs))
    | inr e ↦ rw e (q, All-insert x ys p qs)
  ]

  All-sort : (xs : List A) → All P xs → All P (sort le xs)
  unfolding sort
  All-sort [] ps = tt
  All-sort (x ∷ xs) (p, ps) = All-insert x (sort le xs) p (All-sort xs ps)

module _ {P : Type 0} ⦃api : PeerApi P⦄ where
  pub length-sorted : (peers : List P) → length (sorted_by_id peers) ≡ length peers
  length-sorted peers = length-perm (sort-perm id_le peers)

  pub sorted_by_id-Has38 :
      (peers : List P) → All (Has38 {PeerId = P}) peers → All Has38 (sorted_by_id peers)
  sorted_by_id-Has38 peers ids = All-sort id_le Has38 peers ids

  pub new-IsWire :
      (peers : List P) (local : P) (chan : ℕ)
      → All (Has38 {PeerId = P}) peers
      → length peers ≤ 256
      → IsWire (new peers local chan).0
  unfolding new
  new-IsWire peers local chan ids few = record {
    ids = sorted_by_id-Has38 peers ids;
    aligned = length-range 0 (length (sorted_by_id peers));
    sorted = sorted_sorted peers;
    small = range-IsByte 0 (length (sorted_by_id peers)) (omega (arith, length-sorted peers));
  }
