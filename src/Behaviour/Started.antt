-- ===== src/Behaviour/Started.antt =====
-- What a node starts with: its rooms and its identity.
use tss_libp2p.Prelude.{
  Option, List, [], ◌∷◌, Bool, true, false, ◌||◌, ◌&&◌, not, ◌≡◌, refl, ap, ap₂, All, bytes_beq,
  ◌==◌, some, ◌∙◌,
}
use tss_libp2p.Peer.{PeerApi}
use tss_libp2p.Io.{ok}
use tss_libp2p.HashMap
use tss_libp2p.Config.{Params, RoomArgs}
use tss_libp2p.Config.Keys.{KeyApi, Secret, Keypair, into_keypair}
use tss_libp2p.Config.Files.{Files}
use tss_libp2p.Broadcast.{Net, Name, name_eq, RequestResponse, new_config}
use tss_libp2p.Broadcast.Send.{registered, duplicate_protocol}
use tss_libp2p.Broadcast.Registry.{has, are_distinct, entry_of, new_outcome}
use tss_libp2p.Service.{RoomId, as_protocol_id}
use tss_libp2p.Discovery.{Swarm, SwarmApi, DiscoveryBehaviour}
use tss_libp2p.Discovery
use tss_libp2p.Behaviour.{Behaviour, over, new, protocols_of, new_worker}

module _ {PeerId Multiaddr : Type 0} where
  abbrev pub is_room : RoomId → List (RoomArgs PeerId Multiaddr) → Bool
  is_room id [] = false
  is_room id (rc ∷ rooms) = rc.id == id || is_room id rooms

  -- No room comes up twice.
  abbrev pub rooms_distinct : List (RoomArgs PeerId Multiaddr) → Bool
  rooms_distinct [] = true
  rooms_distinct (rc ∷ rooms) = not (is_room rc.id rooms) && rooms_distinct rooms

  has-protocols_of :
      (id : RoomId) (rooms : List (RoomArgs PeerId Multiaddr))
      → has (as_protocol_id id) (protocols_of rooms) ≡ is_room id rooms
  unfolding protocols_of new_config as_protocol_id bytes_beq
  has-protocols_of id [] = refl
  has-protocols_of id (rc ∷ rooms) = ap (λ b. bytes_beq rc.id id || b) (has-protocols_of id rooms)

  distinct-protocols_of :
      (rooms : List (RoomArgs PeerId Multiaddr))
      → are_distinct (protocols_of rooms) ≡ rooms_distinct rooms
  unfolding protocols_of new_config
  distinct-protocols_of [] = refl
  distinct-protocols_of (rc ∷ rooms) =
      ap₂ (λ a b. not a && b) (has-protocols_of rc.id rooms) (distinct-protocols_of rooms)

module _ {X : Net} ⦃peer : PeerApi X.PeerId⦄ (rr : RequestResponse X) {S : Swarm}
    (api : SwarmApi (over X S)) where
  -- The room can be used: its protocol is there, with the queue of the room.
  abbrev pub IsOpen : Behaviour X S → RoomArgs X.PeerId S.Multiaddr → Type 0
  IsOpen b rc =
      HashMap.get (as_protocol_id rc.id) b.broadcast.protocols
      ≡ some (entry_of rr (new_config (as_protocol_id rc.id) rc.inbound_queue))

  rooms-IsOpen :
      (b : Behaviour X S) (rooms : List (RoomArgs X.PeerId S.Multiaddr))
      → All
          (λ cfg. HashMap.get cfg.name b.broadcast.protocols ≡ some (entry_of rr cfg))
          (protocols_of rooms)
      → All (IsOpen b) rooms
  unfolding protocols_of new_config
  rooms-IsOpen b [] all = tt
  rooms-IsOpen b (rc ∷ rooms) all = (all.0, rooms-IsOpen b rooms all.1)

  -- A node whose key can be had and whose discovery can be made starts, if its rooms are different from one another: every room is
  -- open, the service has the identity of the key, and discovery is new. If a room comes up twice
  -- it does not start, although a new key has been written.
  pub new_worker_outcome :
      {Key : Type 0} (keys : KeyApi Key) (peer_of : Keypair Key → X.PeerId) (node_key : Secret Key)
      (generated : Key) (params : Params X.PeerId S.Multiaddr) (mdns : Option S.Mdns)
      (files after : Files) (pair : Keypair Key) (d0 : DiscoveryBehaviour (over X S))
      → into_keypair keys node_key generated files ≡ ok (pair, after)
      → Discovery.new api (peer_of pair) params mdns ≡ ok d0
      → (rooms_distinct params.rooms ≡ true
          → (b : Behaviour X S) × (new_worker rr {S = S} api keys peer_of node_key generated params
                mdns files
              ≡ ok (registered (b, record { local_peer_id = peer_of pair }), after))
            × All (IsOpen b) params.rooms
            × (b.discovery ≡ d0)
            × (b.broadcast.pending_requests ≡ []))
        × (rooms_distinct params.rooms ≡ false
            → (name : Name) × (new_worker rr {S = S} api keys peer_of node_key generated params mdns
                  files
                ≡ ok (duplicate_protocol name, after)))
  unfolding new_worker new
  new_worker_outcome keys peer_of node_key generated params mdns files after pair d0 key made_so =
      let same = distinct-protocols_of params.rooms in
      let (fine, twice) = new_outcome rr (protocols_of params.rooms) in
      (
        λ d.
            let (bc, made, all, idle, answered) = fine (same ∙ d) in
            let b : Behaviour X S = record { discovery = d0; broadcast = bc; events = [] } in
            (
              b,
              rw (key, made, new_worker, new) (rw made_so refl),
              rooms-IsOpen b params.rooms all,
              refl,
              idle,
            ),
        λ d.
            let (name, refused) = twice (same ∙ d) in
            (name, rw (key, refused, new_worker, new) refl),
      )
