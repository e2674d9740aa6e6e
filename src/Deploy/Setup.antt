-- ===== src/Deploy/Setup.antt =====
-- What a setup that has succeeded has written.
use tss_libp2p.Prelude.{
  ℕ, ◌≡◌, sym, ap, ◌∙◌, List, [], some, true, Option-cases, Bool-cases, inl, inr, subst,
}
use tss_libp2p.Io.{ok, IoResult-cases}
use tss_libp2p.HashMap
use tss_libp2p.Broadcast.{Name, name_eq}
use tss_libp2p.Config.{AddressApi}
use tss_libp2p.Config.Files.{Files, has_name, past_file, write_file}
use tss_libp2p.Config.Files.Reads.{IsWritable, create_new_ok, write_file_ok}
use tss_libp2p.Config.Keys.{KeyApi, Keypair, ed25519, into_keypair, persist, write_secret_file}
use tss_libp2p.Tss.{CborApi}
use tss_libp2p.Deploy.{Config, write_config, generate_config, replace_id}

module _ {PeerId Multiaddr Multihash Key : Type 0} (addr : AddressApi PeerId Multiaddr Multihash)
    (keys : KeyApi Key) (peer_of : Keypair Key → PeerId) (base58 : PeerId → List ℕ)
    (json : CborApi (Config PeerId Multiaddr)) where
  write_config_lem :
      (cfg_path : Name) (libp2p_addr rpc_addr : List ℕ) (who : PeerId) (files after : Files)
      (config : Config PeerId Multiaddr)
      → write_config addr keys peer_of base58 json cfg_path libp2p_addr rpc_addr who files
        ≡ (ok config, after)
      → (config.local.network_peer.peer_id ≡ who)
        × ((text : List ℕ) × (json.to_vec config ≡ some text)
            × (write_file cfg_path text files ≡ ok after))
  unfolding write_config
  write_config_lem cfg_path libp2p_addr rpc_addr who files after config e =
      elim (Option-cases (addr.parse libp2p_addr)) [
        | inl bad ↦ cc (rw (bad, write_config) at e)
        | inr (a, good) ↦
            let made : Config PeerId Multiaddr = record {
              local = record {
                network_peer = record { multiaddr = a; peer_id = who };
                rpc_addr = rpc_addr;
              };
              boot_peers = [];
            } in
            elim (Option-cases (json.to_vec made)) [
              | inl bad ↦ cc (rw (good, bad, write_config) at e)
              | inr (text, written) ↦
                  let e1 = rw (good, written, write_config) at e in
                  elim (IoResult-cases (write_file cfg_path text files)) [
                    | inl (put, wrote) ↦
                        let e2 : (ok made, put) ≡ (ok config, after) = rw wrote at e1 in
                        let same : made ≡ config = cc e2 in
                        let its : put ≡ after = cc e2 in
                        (
                          sym (ap (λ c. c.local.network_peer.peer_id) same),
                          (text, rw (sym same) written, rw (sym its) wrote),
                        )
                    | inr (inl (x, failed)) ↦ cc (rw failed at e1)
                    | inr (inr (inl gone)) ↦ cc (rw gone at e1)
                    | inr (inr (inr gone)) ↦ cc (rw gone at e1)
                  ]
            ]
      ]

  -- A setup that has succeeded has made the file of its path, with the new key in it, and then has
  -- written the configuration.
  pub record SetUp (cfg_path : Name) (setup_path : List ℕ) (generated : Key) (files after : Files)
      (config : Config PeerId Multiaddr) : Type 0 where
    pub text : List ℕ
    pub named : config.local.network_peer.peer_id ≡ peer_of (ed25519 generated)
    pub encoded : json.to_vec config ≡ some text
    pub has_parent : has_name (replace_id (base58 (peer_of (ed25519 generated))) setup_path) ≡ true
    pub key_writable :
        IsWritable (replace_id (base58 (peer_of (ed25519 generated))) setup_path) files
    pub config_writable : IsWritable cfg_path (
        HashMap.insert
          (replace_id (base58 (peer_of (ed25519 generated))) setup_path)
          (keys.to_bytes generated)
          files)
    pub all :
        after
        ≡ HashMap.insert cfg_path text (
            HashMap.insert
              (replace_id (base58 (peer_of (ed25519 generated))) setup_path)
              (keys.to_bytes generated)
              files)

  persisted :
      (cfg_path : Name) (setup_path libp2p_addr rpc_addr : List ℕ) (generated : Key)
      (files after kept : Files) (config : Config PeerId Multiaddr)
      → has_name (replace_id (base58 (peer_of (ed25519 generated))) setup_path) ≡ true
      → write_secret_file
          (replace_id (base58 (peer_of (ed25519 generated))) setup_path)
          (keys.to_bytes generated)
          files
        ≡ ok kept
      → write_config addr keys peer_of base58 json cfg_path libp2p_addr rpc_addr
          (peer_of (ed25519 generated))
          kept
        ≡ (ok config, after)
      → SetUp cfg_path setup_path generated files after config
  unfolding write_secret_file
  persisted cfg_path setup_path libp2p_addr rpc_addr generated files after kept config parent wrote
        rest =
      let path = replace_id (base58 (peer_of (ed25519 generated))) setup_path in
      let (named, (text, encoded, put)) =
        write_config_lem cfg_path libp2p_addr rpc_addr (peer_of (ed25519 generated)) kept after
          config rest in
      let (key_writable, _, made) = create_new_ok path (keys.to_bytes generated) files kept wrote in
      let (config_writable, all) = write_file_ok cfg_path text kept after put in
      record {
        text = text;
        named = named;
        encoded = encoded;
        has_parent = parent;
        key_writable = key_writable;
        config_writable = subst (IsWritable cfg_path) made config_writable;
        all = all ∙ ap (HashMap.insert cfg_path text) made;
      }

  pub generate_config-SetUp :
      (cfg_path : Name) (setup_path libp2p_addr rpc_addr : List ℕ) (generated : Key)
      (files after : Files) (config : Config PeerId Multiaddr)
      → generate_config addr keys peer_of base58 json cfg_path setup_path libp2p_addr rpc_addr
          generated files
        ≡ (ok config, after)
      → SetUp cfg_path setup_path generated files after config
  unfolding generate_config into_keypair persist
  generate_config-SetUp cfg_path setup_path libp2p_addr rpc_addr generated files after config e =
      let path = replace_id (base58 (peer_of (ed25519 generated))) setup_path in
      elim (Bool-cases (has_name path)) [
        | inr nameless ↦ cc (rw (nameless, generate_config) at e)
        | inl named ↦ elim (Bool-cases (past_file has_name path files)) [
          | inl blocked ↦ cc (rw (named, blocked, generate_config) at e)
          | inr free ↦
              let e1 = rw (named, free, generate_config, persist) at e in
              elim (IoResult-cases (write_secret_file path (keys.to_bytes generated) files)) [
                | inl (kept, wrote) ↦
                    persisted cfg_path setup_path libp2p_addr rpc_addr generated files after kept
                      config named wrote (rw wrote at e1)
                | inr (inl (x, failed)) ↦ cc (rw failed at e1)
                | inr (inr (inl gone)) ↦ cc (rw gone at e1)
                | inr (inr (inr gone)) ↦ cc (rw gone at e1)
              ]
        ]
      ]
