-- ===== src/Examples/Setups.antt =====
-- A node that is set up and started.
use tss_libp2p.Prelude.{
  ℕ, ◌≡◌, refl, List, [], ◌∷◌, ◌++◌, Option, some, none, false, replicate, bytes_beq,
}
use tss_libp2p.Io.{ok}
use tss_libp2p.HashMap
use tss_libp2p.Broadcast.{Name, name_eq}
use tss_libp2p.Broadcast.Send.{registered}
use tss_libp2p.Service.{RoomId}
use tss_libp2p.Config.{AddressApi, MultiaddrWithPeerId, Protocol, p2p}
use tss_libp2p.Config.Keys.{
  file, ed25519, into_keypair, get_secret, or_generated, write_secret_file, persist, parse_secret,
}
use tss_libp2p.Config.Files.{Files, past_file, is_directory, read_file, create_new, write_file}
use tss_libp2p.Behaviour.Started.{IsOpen}
use tss_libp2p.Rooms.{new_phase1}
use tss_libp2p.Runtime.Asking.{CanAsk}
use tss_libp2p.Tss.{CborApi}
use tss_libp2p.Deploy.{
  Config, generate_config, write_config, load_config, replace_id, join_path, key_file, secret_key,
  Node, deploy, room_name, share_path,
}
use tss_libp2p.Deploy.Started.{room_of, deploy_outcome}
use tss_libp2p.Deploy.Identity.{generate_config-deploy}
use tss_libp2p.Examples.{numbered_peers, plain_net, counting}
use tss_libp2p.Examples.Nodes.{plain_swarm, noting, plain_keys, who_of}

-- An address is a list with the peer in front; a multihash is a peer id.
abbrev popped : List ℕ → Option (Protocol ℕ) × List ℕ
popped [] = (none, [])
popped (h ∷ a) = (some (p2p h), a)

popped_back : (h : ℕ) (a b : List ℕ) → popped a ≡ (some (p2p h), b) → a ≡ h ∷ b
popped_back h [] b e = cc e
popped_back h (k ∷ a) b e = cc e

same_hash : (h p : ℕ) → some h ≡ some p → h ≡ p
same_hash h p e = cc e

abbrev plain_addresses : AddressApi ℕ (List ℕ) ℕ
unfolding popped_back same_hash
plain_addresses = record {
  pop = popped;
  with_p2p = λ h a. h ∷ a;
  from_multihash = λ h. some h;
  to_multihash = λ p. p;
  parse = λ text. some text;
  display = λ a. a;
  pop-with_p2p = λ h a. refl;
  with_p2p-pop = popped_back;
  from_multihash-to_multihash = λ p. refl;
  to_multihash-from_multihash = same_hash;
  parse-display = λ a. refl;
}

abbrev config_with : ℕ → List ℕ → List ℕ → List (MultiaddrWithPeerId ℕ (List ℕ)) → Config ℕ (List ℕ)
config_with p a rpc boot = record {
  local = record { network_peer = record { multiaddr = a; peer_id = p }; rpc_addr = rpc };
  boot_peers = boot;
}

-- Only a configuration without an address for the RPC and without boot peers is written.
abbrev text_of : ℕ → List ℕ → List ℕ → List (MultiaddrWithPeerId ℕ (List ℕ)) → Option (List ℕ)
text_of p a [] [] = some (p ∷ a)
text_of p a [] (b ∷ bs) = none
text_of p a (c ∷ cs) boot = none

abbrev read_text : List ℕ → Option (Config ℕ (List ℕ))
read_text [] = none
read_text (p ∷ a) = some (config_with p a [] [])

read_written :
    (p : ℕ) (a rpc : List ℕ) (boot : List (MultiaddrWithPeerId ℕ (List ℕ))) (text : List ℕ)
    → text_of p a rpc boot ≡ some text
    → read_text text ≡ some (config_with p a rpc boot)
read_written p a [] [] [] e = cc e
read_written p a [] [] (t ∷ ts) e =
    let p_same : p ≡ t = cc e in let a_same : a ≡ ts = cc e in cc (p_same, a_same)
read_written p a [] (b ∷ bs) text e = cc e
read_written p a (c ∷ cs) boot text e = cc e

abbrev plain_json : CborApi (Config ℕ (List ℕ))
unfolding read_written
plain_json = record {
  from_slice = read_text;
  to_vec = λ c.
      text_of c.local.network_peer.peer_id c.local.network_peer.multiaddr c.local.rpc_addr
        c.boot_peers;
  from_slice-to_vec = λ c text e.
      read_written c.local.network_peer.peer_id c.local.network_peer.multiaddr c.local.rpc_addr
        c.boot_peers text e;
}

abbrev one_letter : ℕ → List ℕ
one_letter p = p ∷ []

abbrev by_name : Name → RoomId
by_name n = n

-- `d/:id`, and the file of the key in it.
abbrev base_path : List ℕ
base_path = 100 ∷ 47 ∷ 58 ∷ 105 ∷ 100 ∷ []

abbrev setup_path : List ℕ
setup_path = base_path ++ (47 ∷ secret_key)

abbrev config_path : Name
config_path = 99 ∷ []

abbrev written_config : Config ℕ (List ℕ)
written_config = config_with 33 (127 ∷ []) [] []

abbrev written_key : Name
written_key = 100 ∷ 47 ∷ 33 ∷ 47 ∷ secret_key

abbrev files_after : Files
files_after = (written_key, 33 ∷ replicate 31 0) ∷ (config_path, 33 ∷ 127 ∷ []) ∷ []

set_up :
    generate_config plain_addresses plain_keys who_of one_letter plain_json config_path setup_path
      (127 ∷ [])
      []
      33
      []
    ≡ (ok written_config, files_after)
unfolding generate_config write_config into_keypair persist write_secret_file replace_id past_file
    is_directory create_new write_file HashMap.get HashMap.insert bytes_beq plain_addresses
    plain_json
set_up = refl

generate_config-deploy_example :
    (node : Node plain_net plain_swarm) × (last : Files) × (deploy counting {S = plain_swarm} noting
        plain_keys who_of one_letter plain_json by_name config_path base_path false false 70 71 44
        (some 0)
        files_after
      ≡ ok (registered node, last))
    × (node.service.local_peer_id ≡ 33)
unfolding replace_id join_path key_file
generate_config-deploy_example =
    (generate_config-deploy counting {S = plain_swarm} noting plain_addresses plain_keys who_of
        one_letter plain_json by_name config_path setup_path (127 ∷ []) [] base_path false false 70
        71 33 44 0 [] files_after written_config set_up).0
      refl (λ e. cc e)

loads : load_config plain_json config_path files_after ≡ ok written_config
unfolding load_config read_file past_file HashMap.get bytes_beq plain_json
loads = refl

key_found :
    into_keypair plain_keys (file (key_file one_letter written_config base_path)) 44 files_after
    ≡ ok (ed25519 33, files_after)
unfolding into_keypair get_secret or_generated parse_secret key_file replace_id join_path read_file
    past_file HashMap.get bytes_beq
key_found = refl

deploy_outcome_example :
    (node : Node plain_net plain_swarm) × (deploy counting {S = plain_swarm} noting plain_keys
        who_of one_letter plain_json by_name config_path base_path false false 70 71 44
        (some 0)
        files_after
      ≡ ok (registered node, files_after))
    × (node.service.local_peer_id ≡ 33)
    × IsOpen counting noting node.behaviour (room_of by_name written_config 70)
    × (node.daemon.rooms_coordination ≡ (new_phase1 room_name 70 node.service 71).0 ∷ [])
    × CanAsk node.daemon
    × (node.key_path ≡ share_path (33 ∷ []))
deploy_outcome_example =
    deploy_outcome counting {S = plain_swarm} noting plain_keys who_of one_letter plain_json by_name
      config_path base_path false false 70 71 44 0 files_after files_after written_config
      (ed25519 33) loads key_found
