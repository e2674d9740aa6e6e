-- ===== src/Peerset.antt =====
-- node/runtime/src/peerset.rs: the peers of a session in the order of their ids, and the index of
-- each in the group that made the key. `sorted_by_key` is a stable sort. The channel to the runtime
-- is a number that its two ends share; the one that `new` and `from_bytes` make is an argument.
pub mod Order
pub mod Index
pub mod Bytes
pub mod RoundTrip
pub mod Total
pub mod Cache
pub mod Fresh
use tss_libp2p.Prelude.{
  ℕ, zero, suc, ◌+◌, ◌%◌, ◌≡◌, List, [], ◌∷◌, ◌++◌, length, get_elem?, Option, none, some, ltb,
  nat_beq, if◌then◌else◌, ◌==◌, not, Bool, true, false, sort,
}
use mathlib.Core.Option
use tss_libp2p.Peer.{PeerApi, peer_eq}
use tss_libp2p.Io.{IoResult, ok, err, panic, stuck, ◌>>=◌, BufReader, new_reader, read}

pub record Peerset (PeerId : Type 0) : Type 0 where
  pub local_peer_id : PeerId
  pub session_peers : List PeerId
  pub parties_indexes : List ℕ
  pub to_runtime : ℕ

-- `0..n` from a start.
abbrev pub range : ℕ → ℕ → List ℕ
range start zero = []
range start (suc n) = start ∷ range (suc start) n

-- The order of `Vec<u8>`.
unfoldable pub bytes_le : List ℕ → List ℕ → Bool
bytes_le [] ys = true
bytes_le (x ∷ xs) [] = false
bytes_le (x ∷ xs) (y ∷ ys) =
    let rest = bytes_le xs ys in if ltb x y then true else if ltb y x then false else rest

-- `usize as u16`.
abbrev pub as_u16 : ℕ → ℕ
as_u16 i = i % 65536

-- `usize as u8`.
abbrev pub as_u8 : ℕ → ℕ
as_u8 i = i % 256

-- `buf` holds a zero where the reader has no byte left.
abbrev pub first_or_zero : List ℕ → ℕ
first_or_zero [] = 0
first_or_zero (b ∷ _) = b

-- `parties_indexes[i]` is a panic past the end.
pub index_at : List ℕ → ℕ → IoResult ℕ
index_at indexes i = elim (get_elem? indexes i) [ none ↦ panic | some k ↦ ok k ]

module _ {PeerId : Type 0} ⦃api : PeerApi PeerId⦄ where
  abbrev pub id_le : PeerId → PeerId → Bool
  id_le p q = bytes_le (api.to_bytes p) (api.to_bytes q)

  abbrev pub sorted_by_id : List PeerId → List PeerId
  sorted_by_id = sort id_le

  unfoldable pub new : List PeerId → PeerId → ℕ → Peerset PeerId × ℕ
  new peers local_peer_id chan =
      let sorted = sorted_by_id peers in
      (
        record {
          local_peer_id = local_peer_id;
          session_peers = sorted;
          parties_indexes = range 0 (length sorted);
          to_runtime = chan;
        },
        chan,
      )

  -- The loop of `from_bytes`: the peers and the indexes read so far, in order.
  unfoldable pub read_peers : ℕ → BufReader → List PeerId → List ℕ → IoResult (List PeerId × List ℕ)
  read_peers zero reader peers active_indexes = stuck
  read_peers (suc fuel) reader peers active_indexes =
      let (buf, reader1) = read 38 reader in
      let (one, reader2) = read 1 reader1 in
      let next : IoResult (List PeerId × List ℕ) = elim (api.from_bytes buf) [
        | none ↦ panic
        | some p ↦
            read_peers fuel reader2 (peers ++ (p ∷ [])) (active_indexes ++ (first_or_zero one ∷ []))
      ] in
      if nat_beq (length buf) 38 then next else ok (peers, active_indexes)

  -- Each round takes 38 bytes, so the input's length is fuel enough.
  unfoldable pub from_bytes : List ℕ → PeerId → ℕ → IoResult (Peerset PeerId × ℕ)
  unfolding read_peers
  from_bytes bytes local_peer_id chan = do
    (peers, active_indexes) ← read_peers (suc (length bytes)) (new_reader bytes) [] []
    ok (
      record {
        local_peer_id = local_peer_id;
        session_peers = sorted_by_id peers;
        parties_indexes = active_indexes;
        to_runtime = chan;
      },
      chan,
    )

  unfoldable pub position : PeerId → List PeerId → Option ℕ
  position p [] = none
  position p (q ∷ qs) = if q == p then some 0 else Option.map suc (position p qs)

  unfoldable pub index_of : Peerset PeerId → PeerId → Option ℕ
  unfolding position
  index_of ps peer_id = Option.map as_u16 (position peer_id ps.session_peers)

  -- `Index<u16>`: the peer at a position, a panic past the end.
  unfoldable pub peer_at : Peerset PeerId → ℕ → IoResult PeerId
  peer_at ps index = elim (get_elem? ps.session_peers index) [ none ↦ panic | some p ↦ ok p ]

  unfoldable pub size : Peerset PeerId → ℕ
  size ps = length ps.session_peers

  -- The loop of `to_bytes` from position `i` on.
  pub write_peers : List ℕ → ℕ → List PeerId → IoResult (List ℕ)
  unfolding index_at
  write_peers indexes i [] = ok []
  write_peers indexes i (p ∷ ps) = do
    k ← index_at indexes i
    rest ← write_peers indexes (suc i) ps
    ok (api.to_bytes p ++ (as_u8 k ∷ rest))

  unfoldable pub to_bytes : Peerset PeerId → IoResult (List ℕ)
  unfolding write_peers
  to_bytes ps = write_peers ps.parties_indexes 0 ps.session_peers

  pub without : PeerId → List PeerId → List PeerId
  without p [] = []
  without p (q ∷ qs) = if q == p then without p qs else q ∷ without p qs

  unfoldable pub remotes_iter : Peerset PeerId → List PeerId
  unfolding without
  remotes_iter ps = without ps.local_peer_id ps.session_peers

  -- The loop of `recover_from_cache` over the sorted peers; `acc` is what has been pushed.
  pub recover_indexes : Peerset PeerId → List PeerId → List ℕ → IoResult (List ℕ)
  recover_indexes cache [] acc = ok acc
  recover_indexes cache (p ∷ ps) acc = elim (index_of cache p) [
    | some i ↦ index_at cache.parties_indexes i >>= λ k. recover_indexes cache ps (acc ++ (k ∷ []))
    | none ↦ recover_indexes cache ps acc
  ]

  -- `reply` is what the runtime sends back for the request `ReadFromCache`.
  unfoldable pub recover_from_cache :
      IoResult (Peerset PeerId) → Peerset PeerId → IoResult (Peerset PeerId)
  unfolding recover_indexes index_at
  recover_from_cache reply ps = do
    cache ← reply
    indexes ← recover_indexes cache (sorted_by_id ps.session_peers) []
    ok (record ps { parties_indexes = indexes })
