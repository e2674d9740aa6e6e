-- ===== src/Deploy/Started.antt =====
-- What a node is after its start.
use mathlib.Core.List.{not-mem-nil, Nodup-cons, Nodup-nil}
use tss_libp2p.Prelude.{ℕ, ◌≡◌, refl, List, [], ◌∷◌, Bool, length, some}
use tss_libp2p.Peer.{PeerApi}
use tss_libp2p.Io.{IoError, ok, err}
use tss_libp2p.Broadcast.{Net, Name, RequestResponse}
use tss_libp2p.Broadcast.Send.{registered}
use tss_libp2p.Service.{RoomId, NetworkService}
use tss_libp2p.Config.{RoomArgs, new_full}
use tss_libp2p.Config.Keys.{KeyApi, file, Keypair, into_keypair}
use tss_libp2p.Discovery.{Swarm, SwarmApi}
use tss_libp2p.Config.Files.{Files}
use tss_libp2p.Discovery.Known.{new_starts}
use tss_libp2p.Behaviour.{over, new_worker}
use tss_libp2p.Behaviour.Started.{IsOpen, new_worker_outcome}
use tss_libp2p.Rooms.{new_phase1}
use tss_libp2p.Runtime.{open_rooms}
use tss_libp2p.Runtime.Asking.{CanAsk}
use tss_libp2p.Runtime.Start.{open_rooms-CanAsk}
use tss_libp2p.Tss.{CborApi}
use tss_libp2p.Deploy.{
  Config, load_config, node_params, key_file, Node, new_daemon, deploy, room_name, share_path,
}

-- The room of a node in its configuration.
abbrev pub room_of :
    {PeerId Multiaddr : Type 0}
    → (Name → RoomId)
    → Config PeerId Multiaddr
    → ℕ
    → RoomArgs PeerId Multiaddr
room_of hash config chan = record {
  id = hash room_name;
  max_size = length config.boot_peers;
  boot_peers = config.boot_peers;
  inbound_queue = some chan;
}

module _ {X : Net} ⦃peer : PeerApi X.PeerId⦄ (rr : RequestResponse X) {S : Swarm}
    (api : SwarmApi (over X S)) {Key : Type 0} (keys : KeyApi Key)
    (peer_of : Keypair Key → X.PeerId) (base58 : X.PeerId → List ℕ)
    (json : CborApi (Config X.PeerId S.Multiaddr)) (hash : Name → RoomId) where
  -- A node whose configuration can be read, whose key can be had and for which mDNS starts, starts: it has
  -- the identity of the key, its room is open in the network, the room waits in the runtime, where a
  -- local request reaches it, and its share lies under its identity.
  pub deploy_outcome :
      (config_path : Name) (path : List ℕ) (kademlia use_mdns : Bool) (chan rpc : ℕ)
      (generated : Key) (mdns : S.Mdns) (files after : Files) (config : Config X.PeerId S.Multiaddr)
      (pair : Keypair Key)
      → load_config json config_path files ≡ ok config
      → into_keypair keys (file (key_file base58 config path)) generated files ≡ ok (pair, after)
      → (node : Node X S) × (deploy rr {S = S} api keys peer_of base58 json hash config_path path
            kademlia use_mdns chan rpc generated
            (some mdns)
            files
          ≡ ok (registered node, after))
        × (node.service.local_peer_id ≡ peer_of pair)
        × IsOpen rr api node.behaviour (room_of hash config chan)
        × (node.daemon.rooms_coordination
            ≡ (new_phase1 (hash room_name) chan node.service rpc).0 ∷ [])
        × CanAsk node.daemon
        × (node.key_path ≡ share_path (base58 (peer_of pair)))
  unfolding deploy node_params new_full open_rooms
  deploy_outcome config_path path kademlia use_mdns chan rpc generated mdns files after config pair
        loads key =
      let params = node_params hash config kademlia use_mdns chan in
      let (d0, made) = new_starts api (peer_of pair) params mdns in
      let (b, started, opened, _, _) =
        (new_worker_outcome rr {S = S} api keys peer_of (file (key_file base58 config path))
            generated params (some mdns) files after pair d0 key made).0
          refl in
      let service : NetworkService X.PeerId = record { local_peer_id = peer_of pair } in
      let rooms : List (RoomId × (ℕ × ℕ)) = (hash room_name, (chan, rpc)) ∷ [] in
      (
        record {
          behaviour = b;
          service = service;
          daemon = open_rooms rooms (new_daemon service);
          key_path = share_path (base58 (peer_of pair));
        },
        rw (loads, started, deploy) refl,
        refl,
        opened.0,
        refl,
        open_rooms-CanAsk rooms (new_daemon service) (Nodup-cons.1 (not-mem-nil, Nodup-nil)) refl,
        refl,
      )

  -- Where the key cannot be had, no node starts.
  pub deploy_blocked :
      (config_path : Name) (path : List ℕ) (kademlia use_mdns : Bool) (chan rpc : ℕ)
      (generated : Key) (mdns : S.Mdns) (files : Files) (config : Config X.PeerId S.Multiaddr)
      (e : IoError)
      → load_config json config_path files ≡ ok config
      → into_keypair keys (file (key_file base58 config path)) generated files ≡ err e
      → deploy rr {S = S} api keys peer_of base58 json hash config_path path kademlia use_mdns chan
          rpc generated
          (some mdns)
          files
        ≡ err e
  unfolding deploy new_worker
  deploy_blocked config_path path kademlia use_mdns chan rpc generated mdns files config e loads
        failed =
      rw (loads, failed, deploy, new_worker) refl
