-- ===== src/Peer.antt =====
-- The identity of a peer: `libp2p::PeerId`, a type of a library that is not part of the repository.
use tss_libp2p.Prelude.{◌≡◌, ◌↔◌, ℕ, Bool, true, List, Option, some, Eq}

-- What the program uses of it: equality, and the bytes of its multihash with their parser, which
-- reads back what was written.
pub record PeerApi (PeerId : Type 0) : Type 0 where
  pub beq : PeerId → PeerId → Bool
  pub beq_iff : (p q : PeerId) → (beq p q ≡ true) ↔ (p ≡ q)
  pub to_bytes : PeerId → List ℕ
  pub from_bytes : List ℕ → Option PeerId
  pub from_bytes-to_bytes : (p : PeerId) → from_bytes (to_bytes p) ≡ some p

instance abbrev pub peer_eq : {PeerId : Type 0} ⦃api : PeerApi PeerId⦄ → Eq PeerId
peer_eq ⦃api⦄ = record { beq = api.beq; beq_iff = api.beq_iff }
