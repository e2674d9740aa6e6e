-- ===== src/Deploy/Identity.antt =====
-- Whether a node that is started has the identity that its configuration names.
use tss_libp2p.Prelude.{
  ℕ, ◌≡◌, ◌≢◌, refl, sym, ap, ◌∙◌, List, [], ◌∷◌, ◌++◌, some, Bool, true, false, arith,
}
use tss_libp2p.Peer.{PeerApi}
use tss_libp2p.Io.{ok, err, not_found, not_a_directory}
use tss_libp2p.HashMap
use tss_libp2p.Broadcast.{Net, Name, name_eq, RequestResponse}
use tss_libp2p.Broadcast.Send.{registered}
use tss_libp2p.Service.{RoomId}
use tss_libp2p.Config.{AddressApi}
use tss_libp2p.Config.Files.{Files, has_name, ends_in_slash, read_file}
use tss_libp2p.Config.Files.Reads.{IsWritable, read_file-insert}
use tss_libp2p.Config.Files.Below.{read_file-insert_later, read_below_both, create_new_missing}
use tss_libp2p.Config.Keys.{
  KeyApi, file, Keypair, ed25519, into_keypair, get_secret, or_generated, write_secret_file,
}
use tss_libp2p.Config.Keys.Kept.{into_keypair_present}
use tss_libp2p.Discovery.{Swarm, SwarmApi}
use tss_libp2p.Behaviour.{over}
use tss_libp2p.Tss.{CborApi}
use tss_libp2p.Deploy.{
  Config, generate_config, load_config, replace_id, join_path, secret_key, key_file, Node, deploy,
}
use tss_libp2p.Deploy.Setup.{generate_config-SetUp}
use tss_libp2p.Deploy.Started.{deploy_outcome, deploy_blocked}

loads_written :
    {PeerId Multiaddr : Type 0} (json : CborApi (Config PeerId Multiaddr)) (cfg_path : Name)
    (text : List ℕ) (kept : Files) (config : Config PeerId Multiaddr)
    → IsWritable cfg_path kept
    → json.to_vec config ≡ some text
    → load_config json cfg_path (HashMap.insert cfg_path text kept) ≡ ok config
unfolding load_config
loads_written json cfg_path text kept config writable encoded =
    rw
      (
        read_file-insert cfg_path text kept writable,
        json.from_slice-to_vec config text encoded,
        load_config,
      )
      refl

-- A path that is joined ends in a name.
join_path_key : (p : Name) → ends_in_slash (join_path p secret_key) ≡ false
unfolding join_path
join_path_key [] = refl
join_path_key (c ∷ []) = ground arith
join_path_key (c ∷ d ∷ []) = ground (arith, join_path_key (d ∷ []))
join_path_key (c ∷ d ∷ e ∷ cs) = join_path_key (d ∷ e ∷ cs)

join_path_below :
    (p name : Name)
    → has_name p ≡ true
    → ends_in_slash p ≡ false
    → join_path p name ≡ p ++ (47 ∷ name)
unfolding join_path
join_path_below [] name h slash = cc
join_path_below (c ∷ []) name h slash = ground arith
join_path_below (c ∷ d ∷ cs) name h slash = ap (◌∷◌ c) (join_rest d cs name slash)
  where
    join_rest :
        (d : ℕ) (cs name : Name)
        → ends_in_slash (d ∷ cs) ≡ false
        → join_path (d ∷ cs) name ≡ (d ∷ cs) ++ (47 ∷ name)
    join_rest d [] name slash = ground arith
    join_rest d (e ∷ cs) name slash = ap (◌∷◌ d) (join_rest e cs name slash)

into_keypair_missing :
    {Key : Type 0} (keys : KeyApi Key) (path : Name) (generated : Key) (files : Files)
    → ends_in_slash path ≡ false
    → read_file path files ≡ err not_found
    → into_keypair keys (file path) generated files
      ≡ ok (ed25519 generated, HashMap.insert path (keys.to_bytes generated) files)
unfolding into_keypair get_secret or_generated write_secret_file
into_keypair_missing keys path generated files slash missing =
    let made = create_new_missing path (keys.to_bytes generated) files slash missing in
    rw (missing, into_keypair, get_secret) (rw (made, or_generated) refl)

into_keypair_blocked :
    {Key : Type 0} (keys : KeyApi Key) (path : Name) (generated : Key) (files : Files)
    → read_file path files ≡ err not_a_directory
    → into_keypair keys (file path) generated files ≡ err not_a_directory
unfolding into_keypair get_secret or_generated
into_keypair_blocked keys path generated files blocked = rw (blocked, into_keypair, get_secret) refl

module _ {X : Net} ⦃peer : PeerApi X.PeerId⦄ (rr : RequestResponse X) {S : Swarm}
    (api : SwarmApi (over X S)) {Key Multihash : Type 0}
    (addr : AddressApi X.PeerId S.Multiaddr Multihash) (keys : KeyApi Key)
    (peer_of : Keypair Key → X.PeerId) (base58 : X.PeerId → List ℕ)
    (json : CborApi (Config X.PeerId S.Multiaddr)) (hash : Name → RoomId) where
  -- After a setup that has succeeded, a node is started, with an mDNS that starts, from the configuration
  -- that the setup has written. If the key file of the start is the very path to which the setup has
  -- written the key, and not that of the configuration, the node has the identity that its
  -- configuration names. If the read of the key file finds no file there, the node starts with the
  -- identity of another key, which it has generated. If the start is given the path that the setup has
  -- been given, the key file would lie below the file of the setup's key: the start fails, and no node
  -- starts.
  pub generate_config-deploy :
      (cfg_path : Name) (setup_path libp2p_addr rpc_addr path : List ℕ) (kademlia use_mdns : Bool)
      (chan rpc : ℕ) (generated later : Key) (mdns : S.Mdns) (files after : Files)
      (config : Config X.PeerId S.Multiaddr)
      → generate_config addr keys peer_of base58 json cfg_path setup_path libp2p_addr rpc_addr
          generated files
        ≡ (ok config, after)
      → let key_path = key_file base58 config path in
        let starts = λ (who : X.PeerId).
          (node : Node X S) × (last : Files) × (deploy rr {S = S} api keys peer_of base58 json hash
              cfg_path path kademlia use_mdns chan rpc later
              (some mdns)
              after
            ≡ ok (registered node, last))
          × (node.service.local_peer_id ≡ who) in
        (key_path ≡ replace_id (base58 config.local.network_peer.peer_id) setup_path
          → cfg_path ≢ key_path
          → starts config.local.network_peer.peer_id)
        × (read_file key_path after ≡ err not_found → starts (peer_of (ed25519 later)))
        × (path ≡ setup_path
            → deploy rr {S = S} api keys peer_of base58 json hash cfg_path path kademlia use_mdns
                chan rpc later
                (some mdns)
                after
              ≡ err not_a_directory)
  generate_config-deploy cfg_path setup_path libp2p_addr rpc_addr path kademlia use_mdns chan rpc
        generated later mdns files after config set_up =
      let u =
        generate_config-SetUp addr keys peer_of base58 json cfg_path setup_path libp2p_addr rpc_addr
          generated files after config set_up in
      let setup_file = replace_id (base58 (peer_of (ed25519 generated))) setup_path in
      let key_path = key_file base58 config path in
      let kept = HashMap.insert setup_file (keys.to_bytes generated) files in
      let loads : load_config json cfg_path after ≡ ok config =
        rw u.all (loads_written json cfg_path u.text kept config u.config_writable u.encoded) in
      (
        λ same apart.
            let same_file : key_path ≡ setup_file =
              same ∙ ap (λ p. replace_id (base58 p) setup_path) u.named in
            let other : cfg_path ≢ setup_file = λ e. apart (e ∙ sym same_file) in
            let there : read_file key_path after ≡ ok (keys.to_bytes generated) =
              rw (same_file, u.all)
                (read_file-insert_later setup_file cfg_path (keys.to_bytes generated) u.text files
                  other u.key_writable u.config_writable) in
            let (node, started, is_who, _, _, _, _) =
              deploy_outcome rr {S = S} api keys peer_of base58 json hash cfg_path path kademlia
                use_mdns chan rpc later mdns after after config (ed25519 generated) loads
                (into_keypair_present keys key_path generated later after there) in
            (node, after, started, is_who ∙ sym u.named),
        λ missing.
            let last = HashMap.insert key_path (keys.to_bytes later) after in
            let slash : ends_in_slash key_path ≡ false =
              unfold key_file in
              join_path_key (replace_id (base58 config.local.network_peer.peer_id) path) in
            let (node, started, is_who, _, _, _, _) =
              deploy_outcome rr {S = S} api keys peer_of base58 json hash cfg_path path kademlia
                use_mdns chan rpc later mdns after last config (ed25519 later) loads
                (into_keypair_missing keys key_path later after slash missing) in
            (node, last, started, is_who),
        λ same.
            let below : key_path ≡ setup_file ++ (47 ∷ secret_key) =
              unfold key_file in
              ap
                (λ p.
                  join_path (replace_id (base58 config.local.network_peer.peer_id) p) secret_key)
                same
              ∙ ap (λ p. join_path (replace_id (base58 p) setup_path) secret_key) u.named
              ∙ join_path_below setup_file secret_key u.has_parent u.key_writable.1 in
            let blocked : read_file key_path after ≡ err not_a_directory =
              rw (below, u.all)
                (read_below_both setup_file cfg_path (keys.to_bytes generated) u.text files
                  secret_key) in
            deploy_blocked rr {S = S} api keys peer_of base58 json hash cfg_path path kademlia
              use_mdns chan rpc later mdns after config not_a_directory loads
              (into_keypair_blocked keys key_path later after blocked),
      )
