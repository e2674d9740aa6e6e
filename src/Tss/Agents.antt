-- ===== src/Tss/Agents.antt =====
-- tss/src/keygen.rs and keysign.rs: what `KeyGen` and `KeySign` do around the state machines of the
-- library multi-party-ecdsa, which are not part of the repository. The share of the key is a file.
use tss_libp2p.Prelude.{ℕ, ◌-◌, ◌≡◌, List, [], take, map, Option, some, none}
use tss_libp2p.Peer.{PeerApi}
use tss_libp2p.Io.{IoResult, ok, err, panic, stuck, not_found, invalid_data, ◌>>=◌}
use tss_libp2p.HashMap
use tss_libp2p.Varint.{VarintApi, ReadResult, u16}
use tss_libp2p.Varint
use tss_libp2p.Broadcast.{Name, name_eq}
use tss_libp2p.Config.Files.{Files}
use tss_libp2p.Peerset.{Peerset, index_of, size, as_u16, recover_from_cache}
use tss_libp2p.Rooms.{unwrap}
use tss_libp2p.Execution.{Computed, computed, broken, party_number, PeersetMsg, write_to_cache}
use tss_libp2p.Tss.{Msg, CborApi}

-- `LocalKey` with its serialisation, and the point that is the public key: a share is read back as it
-- was written.
pub record ShareApi (LocalKey Point : Type 0) : Type 0 where
  pub public_key : LocalKey → Point
  pub key_to_vec : LocalKey → Option (List ℕ)
  pub key_from_slice : List ℕ → Option LocalKey
  pub key_from_slice-key_to_vec :
      (k : LocalKey) (bs : List ℕ) → key_to_vec k ≡ some bs → key_from_slice bs ≡ some k

-- `unwrap` on what is read from the arguments.
abbrev pub unwrap_read {ℓ} : {A : Type ℓ} → ReadResult A → IoResult A
unwrap_read (Varint.ReadResult.ok a) = ok a
unwrap_read (Varint.ReadResult.err e) = panic

-- `KeyGen::compute` up to the state machine: the number of this party, the threshold and the number of
-- parties that `Keygen::new` gets.
unfoldable pub keygen_start :
    {PeerId : Type 0}
    → ⦃api : PeerApi PeerId⦄ → VarintApi
    → Peerset PeerId
    → List ℕ
    → IoResult (ℕ × ℕ × ℕ)
keygen_start varint parties args = do
  i ← unwrap (index_of parties parties.local_peer_id)
  t ← unwrap_read (varint.read u16 args)
  ok (party_number i, t.0, as_u16 (size parties))

-- `Peerset::save_to_cache`: the set is sent to the runtime with the channel `tx` of the answer, which
-- is the result.
unfoldable pub save_to_cache :
    {PeerId : Type 0}
    → ℕ
    → IoResult (Unit {0})
    → Peerset PeerId
    → PeersetMsg PeerId × IoResult (Unit {0})
save_to_cache tx reply parties = (write_to_cache parties tx, reply)

module _ {LocalKey Point : Type 0} (share : ShareApi LocalKey Point) where
  -- `KeyGen::save_local_key`: the file is made anew before the share is written out. The directory of
  -- the file is there, and one write takes the whole share.
  unfoldable pub save_local_key : Name → LocalKey → Files → Option Point × Files
  save_local_key path local_key files =
      let made = HashMap.insert path [] files in
      elim (share.key_to_vec local_key) [
        | none ↦ (none, made)
        | some share_bytes ↦
            (some (share.public_key local_key), HashMap.insert path share_bytes made)
      ]

  -- The rest of `KeyGen::compute`, once the share is saved or not. An answer that never comes is a panic.
  unfoldable pub after_saved :
      {PeerId : Type 0}
      → CborApi Point
      → ℕ
      → IoResult (Unit {0})
      → Peerset PeerId
      → Option Point
      → IoResult (Computed × Option (PeersetMsg PeerId))
  unfolding save_to_cache
  after_saved cbor tx reply parties none = ok (broken, none)
  after_saved cbor tx reply parties (some pk) =
      let (msg, answer) = save_to_cache tx reply parties in
      elim answer [
        | ok done ↦
            ok (
              elim (cbor.to_vec pk) [ none ↦ broken | some pk_bytes ↦ computed pk_bytes ],
              some msg,
            )
        | err e ↦ ok (broken, some msg)
        | panic ↦ panic
        | stuck ↦ stuck
      ]

  -- `KeyGen::compute` from the result of the state machine on; none is an error of it.
  unfoldable pub keygen_end :
      {PeerId : Type 0}
      → CborApi Point
      → Name
      → Option LocalKey
      → ℕ
      → IoResult (Unit {0})
      → Peerset PeerId
      → Files
      → IoResult (Computed × Option (PeersetMsg PeerId)) × Files
  unfolding save_local_key after_saved
  keygen_end cbor path none tx reply parties files = (ok (broken, none), files)
  keygen_end cbor path (some res) tx reply parties files =
      let (saved, files1) = save_local_key path res files in
      (after_saved cbor tx reply parties saved, files1)

  -- `KeySign::read_local_key`.
  unfoldable pub read_local_key : Name → Files → IoResult LocalKey
  read_local_key path files = elim (HashMap.get path files) [
    | none ↦ err not_found
    | some share_bytes ↦ elim (share.key_from_slice share_bytes) [
      | none ↦ err invalid_data
      | some k ↦ ok k
    ]
  ]

  -- `KeySign::compute` up to the state machine: the number of this party, the numbers of all signers,
  -- and the share that `OfflineStage::new` gets. `reply` is the cached peer set.
  unfoldable pub keysign_start :
      {PeerId : Type 0}
      → ⦃api : PeerApi PeerId⦄ → Name
      → IoResult (Peerset PeerId)
      → Peerset PeerId
      → Files
      → IoResult (ℕ × List ℕ × LocalKey)
  unfolding read_local_key
  keysign_start path reply parties files = do
    recovered ← recover_from_cache reply parties
    i ← unwrap (index_of recovered recovered.local_peer_id)
    local_key ← read_local_key path files
    ok (party_number i, map party_number recovered.parties_indexes, local_key)

-- The partial signatures of the other signers: the first `n - 1` messages.
unfoldable pub collect_partials : {M : Type 0} → ℕ → List (Msg M) → List M
collect_partials n incoming = map (λ m. m.body) (take (n - 1) incoming)
