-- ===== src/Cacher/Kept.antt =====
-- What is read after a write.
use tss_libp2p.Prelude.{
  ℕ, ◌≤◌, ◌≡◌, ◌≢◌, refl, ap, sym, ◌∙◌, List, ◌==◌, length, arith, Bool-cases, inl, inr,
}
use tss_libp2p.Peer.{PeerApi}
use tss_libp2p.Io.{ok, ◌>>=◌}
use tss_libp2p.HashMap
use tss_libp2p.HashMap.{get-insert, get-insert_self}
use tss_libp2p.Broadcast.{name_eq}
use tss_libp2p.Service.{RoomId}
use tss_libp2p.Peerset.{Peerset, from_bytes}
use tss_libp2p.Peerset.Bytes.{wire}
use tss_libp2p.Peerset.RoundTrip.{IsWire, to_bytes_outcome, from_bytes-to_bytes}
use tss_libp2p.Cacher.{
  or_not_found, EphemeralCacher, PersistentCacher, read_ephemeral, write_ephemeral, read_persistent,
  write_persistent,
}

get-insert_other :
    {V : Type 0} (room other : RoomId) (v : V) (m : List (RoomId × V))
    → other ≢ room
    → HashMap.get other (HashMap.insert room v m) ≡ HashMap.get other m
get-insert_other room other v m apart = elim (Bool-cases (room == other)) [
  | inl same ↦ absurd (apart (sym ((name_eq.beq_iff room other).0 same)))
  | inr no_match ↦ rw (get-insert room other v m, no_match) refl
]

module _ {PeerId : Type 0} ⦃api : PeerApi PeerId⦄ where
  -- A peer set of at most 210 peers that is written to its file is read back for the node of the cache,
  -- and what is read for any other room is what was read before.
  pub read_persistent-write_persistent :
      (c : PersistentCacher PeerId) (room : RoomId) (ps : Peerset PeerId) (chan : ℕ)
      → IsWire ps
      → length ps.session_peers ≤ 210
      → ((write_persistent room ps c >>= λ c1. read_persistent room chan c1)
          ≡ ok (record ps { local_peer_id = c.local_peer_id; to_runtime = chan }))
        × ((other : RoomId)
            → other ≢ room
            → (write_persistent room ps c >>= λ c1. read_persistent other chan c1)
              ≡ read_persistent other chan c)
  unfolding write_persistent read_persistent
  read_persistent-write_persistent c room ps chan w few =
      let bytes = wire ps.session_peers ps.parties_indexes in
      let written = (to_bytes_outcome ps).0 (omega (arith, w.aligned)) in
      let decoded : from_bytes bytes c.local_peer_id chan
          ≡ ok (record ps { local_peer_id = c.local_peer_id; to_runtime = chan }, chan) =
        rw written at (from_bytes-to_bytes ps c.local_peer_id chan w few) in
      (
        rw written (
            ap (λ o. or_not_found o >>= λ buf. from_bytes buf c.local_peer_id chan >>= λ r. ok r.0)
              (get-insert_self room bytes c.files)
            ∙ ap (λ m. m >>= λ r. ok r.0) decoded),
        λ other apart. rw written (
            ap (λ o. or_not_found o >>= λ buf. from_bytes buf c.local_peer_id chan >>= λ r. ok r.0)
              (get-insert_other room other bytes c.files apart)),
      )

module _ {PeerId : Type 0} where
  -- The cache in memory gives back what was written last for a room, and leaves the other rooms alone.
  pub read_ephemeral-write_ephemeral :
      (c : EphemeralCacher PeerId) (room : RoomId) (first last : Peerset PeerId)
      → (read_ephemeral room (write_ephemeral room last (write_ephemeral room first c)) ≡ ok last)
        × ((other : RoomId)
            → other ≢ room
            → read_ephemeral other (write_ephemeral room last (write_ephemeral room first c))
              ≡ read_ephemeral other c)
  unfolding write_ephemeral read_ephemeral
  read_ephemeral-write_ephemeral c room first last =
      let once = HashMap.insert room first c.store in
      (
        ap or_not_found (get-insert_self room last once),
        λ other apart. ap or_not_found (
            get-insert_other room other last once apart
            ∙ get-insert_other room other first c.store apart),
      )
