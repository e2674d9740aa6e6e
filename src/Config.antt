-- ===== src/Config.antt =====
-- node/network/src/config.rs: the parameters of a node, addresses with a peer id, and (in
-- Config.Keys) the secret key of a node and its file. Texts are byte strings.
pub mod Address
pub mod Files
pub mod Keys
use tss_libp2p.Prelude.{ℕ, List, Option, some, none, Bool, ◌≡◌}
use tss_libp2p.Service.{RoomId}

-- `multiaddr::Protocol`, the last part of an address, as far as the program looks into it.
pub data Protocol (Multihash : Type 0) : Type 0 where
  p2p : Multihash → Protocol Multihash
  other_protocol : Protocol Multihash

-- `libp2p::Multiaddr` and the multihash of a peer id, which are not part of the repository: an address
-- is a list of protocols of which `pop` takes the last; a peer id is a multihash of certain kinds; an
-- address is read back from its text.
pub record AddressApi (PeerId Multiaddr Multihash : Type 0) : Type 0 where
  pub pop : Multiaddr → Option (Protocol Multihash) × Multiaddr
  pub with_p2p : Multihash → Multiaddr → Multiaddr
  pub from_multihash : Multihash → Option PeerId
  pub to_multihash : PeerId → Multihash
  pub parse : List ℕ → Option Multiaddr
  pub display : Multiaddr → List ℕ
  pub pop-with_p2p : (h : Multihash) (a : Multiaddr) → pop (with_p2p h a) ≡ (some (p2p h), a)
  pub with_p2p-pop :
      (h : Multihash) (a b : Multiaddr) → pop a ≡ (some (p2p h), b) → a ≡ with_p2p h b
  pub from_multihash-to_multihash : (p : PeerId) → from_multihash (to_multihash p) ≡ some p
  pub to_multihash-from_multihash :
      (h : Multihash) (p : PeerId) → from_multihash h ≡ some p → h ≡ to_multihash p
  pub parse-display : (a : Multiaddr) → parse (display a) ≡ some a

pub record MultiaddrWithPeerId (PeerId Multiaddr : Type 0) : Type 0 where
  pub multiaddr : Multiaddr
  pub peer_id : PeerId

-- `inbound_queue` is the channel of the messages of the room.
pub record RoomArgs (PeerId Multiaddr : Type 0) : Type 0 where
  pub id : RoomId
  pub max_size : ℕ
  pub boot_peers : List (MultiaddrWithPeerId PeerId Multiaddr)
  pub inbound_queue : Option ℕ

pub record Params (PeerId Multiaddr : Type 0) : Type 0 where
  pub listen_address : Multiaddr
  pub mdns : Bool
  pub kademlia : Bool
  pub rooms : List (RoomArgs PeerId Multiaddr)

-- `RoomArgs::new_full`: `hash` makes the id of a room of its name, `chan` is the new channel.
unfoldable pub new_full :
    {PeerId Multiaddr : Type 0}
    → (List ℕ → RoomId)
    → List ℕ
    → List (MultiaddrWithPeerId PeerId Multiaddr)
    → ℕ
    → ℕ
    → RoomId × RoomArgs PeerId Multiaddr × ℕ
new_full hash name boot_peers max_size chan =
    let id = hash name in
    (
      id,
      record { id = id; max_size = max_size; boot_peers = boot_peers; inbound_queue = some chan },
      chan,
    )

-- What is wrong with an address.
pub data AddressError : Type 0 where
  no_address invalid_peer_id peer_id_missing : AddressError

pub data Parsed {ℓ} (A : Type ℓ) : Type ℓ where
  parsed : A → Parsed A
  refused_address : AddressError → Parsed A

module _ {PeerId Multiaddr Multihash : Type 0} (addr : AddressApi PeerId Multiaddr Multihash) where
  -- `MultiaddrWithPeerId::concat`.
  unfoldable pub concat : MultiaddrWithPeerId PeerId Multiaddr → Multiaddr
  concat ma = addr.with_p2p (addr.to_multihash ma.peer_id) ma.multiaddr

  -- The text of an address with a peer id.
  unfoldable pub to_text : MultiaddrWithPeerId PeerId Multiaddr → List ℕ
  unfolding concat
  to_text ma = addr.display (concat ma)

  unfoldable pub parse_addr : Multiaddr → Parsed (PeerId × Multiaddr)
  parse_addr a =
      let (last, rest) = addr.pop a in
      elim last [
        | none ↦ refused_address peer_id_missing
        | some other_protocol ↦ refused_address peer_id_missing
        | some (p2p key) ↦ elim (addr.from_multihash key) [
          | none ↦ refused_address invalid_peer_id
          | some who ↦ parsed (who, rest)
        ]
      ]

  unfoldable pub parse_str_addr : List ℕ → Parsed (PeerId × Multiaddr)
  unfolding parse_addr
  parse_str_addr text = elim (addr.parse text) [
    | none ↦ refused_address no_address
    | some a ↦ parse_addr a
  ]

  -- `FromStr for MultiaddrWithPeerId`.
  unfoldable pub from_text : List ℕ → Parsed (MultiaddrWithPeerId PeerId Multiaddr)
  unfolding parse_str_addr
  from_text text = elim (parse_str_addr text) [
    | refused_address e ↦ refused_address e
    | parsed (who, rest) ↦ parsed (record { multiaddr = rest; peer_id = who })
  ]
