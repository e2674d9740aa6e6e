-- ===== src/Examples/Peers.antt =====
-- Peer sets of numbered peers.
use mathlib.Core.List.{
  filter_map, mem-cons, mem-cons_self, mem-cons_of_mem, not-mem-nil, Nodup-cons, Nodup-nil,
}
use mathlib.Core.Logic.Or
use tss_libp2p.Prelude.{
  ℕ, All, ◌⊎◌, ◌≤◌, ◌<◌, ◌≡◌, ◌≢◌, ◌↔◌, refl, ap, ◌∙◌, arith, List, [], ◌∷◌, none, length, take,
  Perm, Nodup, Mem, sort, insert,
}
use tss_libp2p.Io.{ok, panic, ◌>>=◌}
use tss_libp2p.Peerset.{
  Peerset, range, sorted_by_id, new, index_of, from_bytes, to_bytes, recover_from_cache, bytes_le,
}
use tss_libp2p.Peerset.Bytes.{wire, Has38}
use tss_libp2p.Peerset.Order.{new-eq-iff-perm}
use tss_libp2p.Peerset.RoundTrip.{IsByte, to_bytes_outcome, from_bytes-to_bytes, from_bytes_cut}
use tss_libp2p.Peerset.Fresh.{sorted_by_id-Has38, range-IsByte, length-range, length-sorted}
use tss_libp2p.Peerset.Total.{from_bytes_total, SomeBadId}
use tss_libp2p.Peerset.Cache.{recover_from_cache_lem, to_bytes-recover_panics, cached, index_beside}
use tss_libp2p.Examples.{numbered_peers, All-Has38}

abbrev trio : Peerset ℕ
trio = record {
  local_peer_id = 4;
  session_peers = 2 ∷ 4 ∷ 9 ∷ [];
  parties_indexes = 0 ∷ 1 ∷ 2 ∷ [];
  to_runtime = 5;
}

abbrev pair : Peerset ℕ
pair = record {
  local_peer_id = 4;
  session_peers = 4 ∷ 9 ∷ [];
  parties_indexes = 0 ∷ 1 ∷ [];
  to_runtime = 5;
}

-- The session of `pair` where the cache knows only three other indexes.
abbrev cache : Peerset ℕ
cache = record {
  local_peer_id = 4;
  session_peers = 2 ∷ 4 ∷ [];
  parties_indexes = 6 ∷ 7 ∷ [];
  to_runtime = 5;
}

abbrev recovered : Peerset ℕ
recovered = record {
  local_peer_id = 4;
  session_peers = 4 ∷ 9 ∷ [];
  parties_indexes = 7 ∷ [];
  to_runtime = 5;
}

not-mem-cons : {x y : ℕ} {l : List ℕ} → x ≢ y → ¬ Mem x l → ¬ Mem x (y ∷ l)
not-mem-cons apart absent m = Or.elim (λ a b. absurd a) (mem-cons.0 m) apart absent

trio-Nodup : Nodup {A = ℕ} (2 ∷ 4 ∷ 9 ∷ [])
trio-Nodup = Nodup-cons.1 (
  not-mem-cons (λ e. omega arith) (not-mem-cons (λ e. omega arith) not-mem-nil),
  Nodup-cons.1 (not-mem-cons (λ e. omega arith) not-mem-nil, Nodup-cons.1 (not-mem-nil, Nodup-nil)),
)

new-trio : (new (9 ∷ 2 ∷ 4 ∷ []) 4 5).0 ≡ trio
unfolding new sort insert bytes_le
new-trio = refl

-- More peers than a byte counts.
abbrev crowd : Peerset ℕ
unfolding new
crowd = (new (range 0 300) 3 5).0

crowd-Has38 : All (Has38 {PeerId = ℕ}) crowd.session_peers
unfolding crowd new
crowd-Has38 = sorted_by_id-Has38 (range 0 300) (All-Has38 (range 0 300))

length-crowd : length crowd.session_peers ≡ 300
unfolding crowd new
length-crowd = length-sorted (range 0 300) ∙ length-range 0 300

crowd_aligned : length crowd.parties_indexes ≡ length crowd.session_peers
unfolding crowd new
crowd_aligned = length-range 0 (length (sorted_by_id {PeerId = ℕ} (range 0 300)))

crowd_indexes : crowd.parties_indexes ≡ range 0 300
unfolding crowd new
crowd_indexes = ap (range 0) length-crowd

first-IsByte : All IsByte (take 210 crowd.parties_indexes)
first-IsByte = rw crowd_indexes (range-IsByte 0 210 (omega arith))

new-eq-iff-perm_example : Perm {A = ℕ} (9 ∷ 2 ∷ []) (2 ∷ 9 ∷ []) ↔ (
    ((new {PeerId = ℕ} (9 ∷ 2 ∷ []) 9 5).0.session_peers ≡ (new (2 ∷ 9 ∷ []) 2 7).0.session_peers)
    × ((new {PeerId = ℕ} (9 ∷ 2 ∷ []) 9 5).0.parties_indexes
        ≡ (new {PeerId = ℕ} (2 ∷ 9 ∷ []) 2 7).0.parties_indexes)
    × ((x : ℕ) → index_of (new (9 ∷ 2 ∷ []) 9 5).0 x ≡ index_of (new (2 ∷ 9 ∷ []) 2 7).0 x))
new-eq-iff-perm_example = new-eq-iff-perm (9 ∷ 2 ∷ []) (2 ∷ 9 ∷ []) 9 2 5 7

from_bytes-to_bytes_example :
    (to_bytes trio >>= λ bytes. from_bytes bytes 9 6)
    ≡ ok (record trio { local_peer_id = 9; to_runtime = 6 }, 6)
unfolding bytes_le sort insert
from_bytes-to_bytes_example =
    from_bytes-to_bytes trio 9 6
      (record {
        ids = All-Has38 (2 ∷ 4 ∷ 9 ∷ []);
        aligned = refl;
        sorted = refl;
        small = (omega arith, (omega arith, (omega arith, tt)));
      })
      (omega arith)

from_bytes_cut_example :
    (to_bytes crowd >>= λ bytes. from_bytes bytes 9 6)
    ≡ ok (
      record {
        local_peer_id = 9;
        session_peers = sorted_by_id (take 210 crowd.session_peers);
        parties_indexes = take 210 crowd.parties_indexes;
        to_runtime = 6;
      },
      6,
    )
from_bytes_cut_example =
    from_bytes_cut crowd 9 6 crowd-Has38 crowd_aligned first-IsByte (omega (arith, length-crowd))

to_bytes_outcome_example :
    (2 ≤ 1 → to_bytes recovered ≡ ok (wire {PeerId = ℕ} (4 ∷ 9 ∷ []) (7 ∷ [])))
    × (1 < 2 → to_bytes recovered ≡ panic)
to_bytes_outcome_example = to_bytes_outcome recovered

from_bytes_total_example :
    ((ps : Peerset ℕ) × (from_bytes (1 ∷ 2 ∷ 3 ∷ []) 4 5 ≡ ok (ps, 5))
      × (ps.local_peer_id ≡ 4)
      × (ps.to_runtime ≡ 5)
      × (sorted_by_id ps.session_peers ≡ ps.session_peers)
      × (length ps.parties_indexes ≡ length ps.session_peers))
    ⊎ ((from_bytes {PeerId = ℕ} (1 ∷ 2 ∷ 3 ∷ []) 4 5 ≡ panic) × SomeBadId ℕ)
from_bytes_total_example = from_bytes_total (1 ∷ 2 ∷ 3 ∷ []) 4 5

nine_absent : cached cache 9 ≡ none
unfolding index_beside
nine_absent = refl

indexes_found : filter_map (cached cache) (sorted_by_id pair.session_peers) ≡ 7 ∷ []
unfolding index_beside filter_map sort insert bytes_le
indexes_found = refl

recovers : recover_from_cache (ok cache) pair ≡ ok recovered
recovers =
    (recover_from_cache_lem (ok cache) pair).0 cache refl refl (omega arith)
    ∙ ap (λ (ks : List ℕ). ok (record pair { parties_indexes = ks })) indexes_found

to_bytes-recover_panics_example : to_bytes recovered ≡ panic
to_bytes-recover_panics_example =
    to_bytes-recover_panics cache pair recovered 9 refl (omega arith)
      (mem-cons_of_mem 4 mem-cons_self) nine_absent recovers
