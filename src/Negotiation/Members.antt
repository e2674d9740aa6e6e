-- ===== src/Negotiation/Members.antt =====
-- The set of the peers that have joined a negotiation.

use tss_libp2p.Prelude.{
  suc, ◌≤◌, ◌≡◌, arith, List, [], ◌∷◌, length, Option, some, none, false, Nodup,
}
use tss_libp2p.Peer.{PeerApi, peer_eq}
use tss_libp2p.Broadcast.{Net, Reply, replied, failed}
use tss_libp2p.HashSet.{set_insert, Nodup-set_insert}
use tss_libp2p.Negotiation.{NegotiationInput}

module _ {P : Type 0} ⦃api : PeerApi P⦄ where
  length-set_insert :
      (p : P) (l : List P)
      → (length l ≤ length (set_insert p l)) × (length (set_insert p l) ≤ suc (length l))
  unfolding set_insert
  length-set_insert p [] = ground arith
  length-set_insert p (q ∷ qs) = ground (arith, length-set_insert p qs)

module _ {X : Net} ⦃api : PeerApi X.PeerId⦄ where
  -- The peers after a reply, and after those of a list of polls.
  abbrev pub join : Option (Reply X) → List X.PeerId → List X.PeerId
  join none peers = peers
  join (some (failed e)) peers = peers
  join (some (replied p bytes)) peers = set_insert p peers

  abbrev pub joined : List (NegotiationInput X) → List X.PeerId → List X.PeerId
  joined [] peers = peers
  joined (i ∷ is) peers = joined is (join i.reply peers)

  abbrev pub InTime : List (NegotiationInput X) → Type 0
  InTime [] = Unit {0}
  InTime (i ∷ is) = (i.is_over ≡ false) × InTime is

  pub length-join :
      (r : Option (Reply X)) (l : List X.PeerId)
      → (length l ≤ length (join r l)) × (length (join r l) ≤ suc (length l))
  length-join none l = ground arith
  length-join (some (failed e)) l = ground arith
  length-join (some (replied p b)) l = length-set_insert p l

  pub Nodup-join : (r : Option (Reply X)) (l : List X.PeerId) → Nodup l → Nodup (join r l)
  Nodup-join none l n = n
  Nodup-join (some (failed e)) l n = n
  Nodup-join (some (replied p b)) l n = Nodup-set_insert p l n

  pub length-joined :
      (is : List (NegotiationInput X)) (l : List X.PeerId) → length l ≤ length (joined is l)
  length-joined [] l = ground arith
  length-joined (i ∷ is) l =
      ground (arith, length-join i.reply l, length-joined is (join i.reply l))
