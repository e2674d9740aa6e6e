-- ===== src/Deploy.antt =====
-- tss/src/config.rs and cmd/src/main.rs: how a node is set up, and how it is started from what the setup has
-- written. The tasks and the RPC server are left out.
pub mod Started
pub mod Setup
pub mod Identity
use tss_libp2p.Prelude.{
  not, ℕ, zero, suc, List, [], ◌∷◌, ◌++◌, Option, some, none, Bool, true, false, ◌&&◌,
  if◌then◌else◌, nat_beq, length,
}
use tss_libp2p.Peer.{PeerApi}
use tss_libp2p.Io.{
  IoResult, ok, err, panic, stuck, not_found, invalid_data, invalid_input, already_exists, ◌>>=◌,
}
use tss_libp2p.HashMap
use tss_libp2p.Broadcast.{Net, Name, name_eq, RequestResponse}
use tss_libp2p.Broadcast.Send.{Registered, registered, duplicate_protocol}
use tss_libp2p.Service.{RoomId, NetworkService}
use tss_libp2p.Config.{AddressApi, MultiaddrWithPeerId, RoomArgs, Params, new_full}
use tss_libp2p.Config.Files.{Files, has_name, past_file, read_file, write_file}
use tss_libp2p.Config.Keys.{KeyApi, Secret, fresh, file, Keypair, into_keypair, persist}
use tss_libp2p.Discovery.{Swarm, SwarmApi}
use tss_libp2p.Behaviour.{Behaviour, over, new_worker}
use tss_libp2p.Runtime.{Daemon, open_rooms}
use tss_libp2p.Tss.{CborApi}

-- `PartyConfig` and `Config`.
pub record PartyConfig (PeerId Multiaddr : Type 0) : Type 0 where
  pub network_peer : MultiaddrWithPeerId PeerId Multiaddr
  pub rpc_addr : List ℕ

pub record Config (PeerId Multiaddr : Type 0) : Type 0 where
  pub local : PartyConfig PeerId Multiaddr
  pub boot_peers : List (MultiaddrWithPeerId PeerId Multiaddr)

-- The text begins with `:id`.
starts_with_id : List ℕ → Bool
starts_with_id [] = false
starts_with_id (a ∷ []) = false
starts_with_id (a ∷ b ∷ []) = false
starts_with_id (a ∷ b ∷ c ∷ rest) = nat_beq a 58 && (nat_beq b 105 && nat_beq c 100)

-- The text without its first `skip` bytes, each `:id` in it replaced by `by`.
replace_from : ℕ → List ℕ → List ℕ → List ℕ
replace_from skip by [] = []
replace_from (suc skip) by (c ∷ cs) = replace_from skip by cs
replace_from zero by (c ∷ cs) =
    let matched = replace_from 2 by cs in
    let rest = replace_from zero by cs in
    if starts_with_id (c ∷ cs) then by ++ matched else c ∷ rest

-- `str::replace(":id", by)`.
unfoldable pub replace_id : List ℕ → List ℕ → List ℕ
unfolding starts_with_id replace_from
replace_id by text = replace_from zero by text

-- `Path::join` with a relative path: a `/` between them, unless the first ends in one or is empty.
unfoldable pub join_path : Name → Name → Name
join_path [] name = name
join_path (c ∷ []) name = if nat_beq c 47 then c ∷ name else c ∷ 47 ∷ name
join_path (c ∷ d ∷ cs) name = c ∷ join_path (d ∷ cs) name

-- `secret.key`, and the one room, `tss/0`.
abbrev pub secret_key : Name
secret_key = 115 ∷ 101 ∷ 99 ∷ 114 ∷ 101 ∷ 116 ∷ 46 ∷ 107 ∷ 101 ∷ 121 ∷ []

abbrev pub room_name : Name
room_name = 116 ∷ 115 ∷ 115 ∷ 47 ∷ 48 ∷ []

-- `data/<id>/key.share`.
unfoldable pub share_path : List ℕ → Name
share_path id =
    (100 ∷ 97 ∷ 116 ∷ 97 ∷ 47 ∷ [])
    ++ (id ++ (47 ∷ 107 ∷ 101 ∷ 121 ∷ 46 ∷ 115 ∷ 104 ∷ 97 ∷ 114 ∷ 101 ∷ []))

module _ {PeerId Multiaddr Multihash Key : Type 0} (addr : AddressApi PeerId Multiaddr Multihash)
    (keys : KeyApi Key) (peer_of : Keypair Key → PeerId) (base58 : PeerId → List ℕ)
    (json : CborApi (Config PeerId Multiaddr)) where
  -- The rest of `generate_config`, once the key is written.
  unfoldable pub write_config :
      Name → List ℕ → List ℕ → PeerId → Files → IoResult (Config PeerId Multiaddr) × Files
  write_config cfg_path libp2p_addr rpc_addr peer_id files = elim (addr.parse libp2p_addr) [
    | none ↦ (err invalid_input, files)
    | some multiaddr ↦
        let config : Config PeerId Multiaddr = record {
          local = record {
            network_peer = record { multiaddr = multiaddr; peer_id = peer_id };
            rpc_addr = rpc_addr;
          };
          boot_peers = [];
        } in
        elim (json.to_vec config) [
          | none ↦ (err invalid_data, files)
          | some json_bytes ↦ elim (write_file cfg_path json_bytes files) [
            | err e ↦ (err e, files)
            | panic ↦ (panic, files)
            | stuck ↦ (stuck, files)
            | ok written ↦ (ok config, written)
          ]
        ]
  ]

  -- `generate_config`: the new key `generated` is written to the path of the setup. A path without a parent
  -- is a panic, and so is a parent that cannot be made a directory.
  unfoldable pub generate_config :
      Name → List ℕ → List ℕ → List ℕ → Key → Files → IoResult (Config PeerId Multiaddr) × Files
  unfolding write_config
  generate_config cfg_path setup_path libp2p_addr rpc_addr generated files =
      elim (into_keypair keys fresh generated files) [
        | err e ↦ (err e, files)
        | panic ↦ (panic, files)
        | stuck ↦ (stuck, files)
        | ok made ↦
            let peer_id = peer_of made.0 in
            let path = replace_id (base58 peer_id) setup_path in
            if has_name path && not (past_file has_name path made.1)
            then elim (persist keys made.0 path made.1) [
              | err e ↦ (err e, made.1)
              | panic ↦ (panic, made.1)
              | stuck ↦ (stuck, made.1)
              | ok written ↦ write_config cfg_path libp2p_addr rpc_addr peer_id written
            ]
            else (panic, made.1)
      ]

module _ {PeerId Multiaddr : Type 0} where
  -- `Config::load_config`.
  unfoldable pub load_config :
      CborApi (Config PeerId Multiaddr) → Name → Files → IoResult (Config PeerId Multiaddr)
  load_config json path files = read_file path files >>= λ text. elim (json.from_slice text) [
    | none ↦ err invalid_data
    | some c ↦ ok c
  ]

  -- The parameters and the secret of the node, from its configuration.
  unfoldable pub node_params :
      (Name → RoomId) → Config PeerId Multiaddr → Bool → Bool → ℕ → Params PeerId Multiaddr
  unfolding new_full
  node_params hash config kademlia mdns chan =
      let (room_id, room_cfg, room_rx) =
        new_full hash room_name config.boot_peers (length config.boot_peers) chan in
      record {
        listen_address = config.local.network_peer.multiaddr;
        mdns = mdns;
        kademlia = kademlia;
        rooms = room_cfg ∷ [];
      }

  unfoldable pub key_file : (PeerId → List ℕ) → Config PeerId Multiaddr → List ℕ → Name
  unfolding replace_id join_path
  key_file base58 config path =
      join_path (replace_id (base58 config.local.network_peer.peer_id) path) secret_key

-- What `deploy` starts: the worker of the network, its service, the runtime, and the path of the share.
pub record Node (X : Net) (S : Swarm) : Type 0 where
  pub behaviour : Behaviour X S
  pub service : NetworkService X.PeerId
  pub daemon : Daemon X.PeerId
  pub key_path : Name

-- `RuntimeDaemon::new`, before `run`.
abbrev pub new_daemon : {PeerId : Type 0} → NetworkService PeerId → Daemon PeerId
new_daemon service = record {
  network_service = service;
  rooms_rpc = [];
  rooms_coordination = [];
  network_proxies = [];
  protocol_executions = [];
}

module _ {X : Net} ⦃peer : PeerApi X.PeerId⦄ (rr : RequestResponse X) {S : Swarm}
    (api : SwarmApi (over X S)) {Key : Type 0} (keys : KeyApi Key)
    (peer_of : Keypair Key → X.PeerId) (base58 : X.PeerId → List ℕ)
    (json : CborApi (Config X.PeerId S.Multiaddr)) (hash : Name → RoomId) where
  -- `deploy`, up to the tasks that it starts; `chan` is the channel of the room, `rpc` that of its
  -- local requests.
  unfoldable pub deploy :
      Name
      → List ℕ
      → Bool
      → Bool
      → ℕ
      → ℕ
      → Key
      → Option S.Mdns
      → Files
      → IoResult (Registered (Node X S) × Files)
  unfolding load_config node_params key_file share_path
  deploy config_path path kademlia use_mdns chan rpc generated mdns files = do
    config ← load_config json config_path files
    (started, files1) ←
        new_worker rr {S = S} api keys peer_of (file (key_file base58 config path)) generated
          (node_params hash config kademlia use_mdns chan) mdns files
    ok (
      elim started [
        | duplicate_protocol name ↦ duplicate_protocol name
        | registered (b, service) ↦ registered (record {
          behaviour = b;
          service = service;
          daemon = open_rooms ((hash room_name, (chan, rpc)) ∷ []) (new_daemon service);
          key_path = share_path (base58 service.local_peer_id);
        })
      ],
      files1,
    )
