-- ===== src/Cacher.antt =====
-- node/runtime/src/peerset_cacher.rs: the peer set of each room, in memory or in a file for each room.
-- A file is there or not; other errors of the file system are left out.
pub mod Kept
use tss_libp2p.Prelude.{List, ℕ, Option, some, none}
use tss_libp2p.Peer.{PeerApi}
use tss_libp2p.Io.{IoResult, ok, err, not_found, ◌>>=◌}
use tss_libp2p.HashMap
use tss_libp2p.Broadcast.{name_eq}
use tss_libp2p.Service.{RoomId}
use tss_libp2p.Peerset.{Peerset, from_bytes, to_bytes}

-- `EphemeralCacher`.
pub record EphemeralCacher (PeerId : Type 0) : Type 0 where
  pub store : List (RoomId × Peerset PeerId)

-- `PersistentCacher` with the files under its path, by the room.
pub record PersistentCacher (PeerId : Type 0) : Type 0 where
  pub local_peer_id : PeerId
  pub files : List (RoomId × List ℕ)

-- An entry that is not there is an error.
abbrev pub or_not_found : {A : Type 0} → Option A → IoResult A
or_not_found none = err not_found
or_not_found (some a) = ok a

module _ {PeerId : Type 0} where
  unfoldable pub read_ephemeral : RoomId → EphemeralCacher PeerId → IoResult (Peerset PeerId)
  read_ephemeral room_id c = or_not_found (HashMap.get room_id c.store)

  unfoldable pub write_ephemeral :
      RoomId → Peerset PeerId → EphemeralCacher PeerId → EphemeralCacher PeerId
  write_ephemeral room_id peerset c = record { store = HashMap.insert room_id peerset c.store }

module _ {PeerId : Type 0} ⦃api : PeerApi PeerId⦄ where
  -- `chan` is the channel that `from_bytes` makes.
  unfoldable pub read_persistent : RoomId → ℕ → PersistentCacher PeerId → IoResult (Peerset PeerId)
  read_persistent room_id chan c = do
    buf ← or_not_found (HashMap.get room_id c.files)
    r ← from_bytes buf c.local_peer_id chan
    ok r.0

  unfoldable pub write_persistent :
      RoomId → Peerset PeerId → PersistentCacher PeerId → IoResult (PersistentCacher PeerId)
  write_persistent room_id peerset c = do
    bytes ← to_bytes peerset
    ok (record c { files = HashMap.insert room_id bytes c.files })
