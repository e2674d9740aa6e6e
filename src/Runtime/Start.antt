-- ===== src/Runtime/Start.antt =====
-- The rooms at the start of the loop.
use mathlib.Core.List.{Mem, Nodup-cons, mem-cons_self, mem-cons_of_mem}
use tss_libp2p.Prelude.{ℕ, ◌≡◌, refl, sym, ◌∙◌, subst, List, [], ◌∷◌, map, All, Nodup}
use tss_libp2p.Service.{RoomId}
use tss_libp2p.Rooms.{Phase1Channel, new_phase1}
use tss_libp2p.Runtime.{Daemon, open_rooms, put_back}
use tss_libp2p.Runtime.Asking.{CanAsk, NotWaiting, put_back-CanAsk}

abbrev pub room_ids : List (RoomId × (ℕ × ℕ)) → List RoomId
room_ids rooms = map (λ r. r.0) rooms

module _ {PeerId : Type 0} where
  abbrev AllNotWaiting : List (RoomId × (ℕ × ℕ)) → Daemon PeerId → Type 0
  AllNotWaiting rooms d = All (λ (r : RoomId × (ℕ × ℕ)). NotWaiting r.0 d) rooms

  AllNotWaiting-put_back :
      (id : RoomId) (ch : Phase1Channel PeerId) (tx : ℕ) (rooms : List (RoomId × (ℕ × ℕ)))
      (d : Daemon PeerId)
      → ch.id ≡ id
      → ¬ Mem id (room_ids rooms)
      → AllNotWaiting rooms d
      → AllNotWaiting rooms (put_back id ch tx d)
  unfolding put_back
  AllNotWaiting-put_back id ch tx [] d named absent away = tt
  AllNotWaiting-put_back id ch tx (r ∷ rooms) d named absent (first, others) = (
    (
      λ same.
          absurd
            (absent (subst (λ i. Mem i (room_ids (r ∷ rooms))) (sym same ∙ named) mem-cons_self)),
      first,
    ),
    AllNotWaiting-put_back id ch tx rooms d named (λ m. absent (mem-cons_of_mem r.0 m)) others,
  )

  nowhere :
      (rooms : List (RoomId × (ℕ × ℕ))) (d : Daemon PeerId)
      → d.rooms_coordination ≡ []
      → AllNotWaiting rooms d
  nowhere [] d none_yet = tt
  nowhere (r ∷ rooms) d none_yet = (rw none_yet tt, nowhere rooms d none_yet)

  opened :
      (rooms : List (RoomId × (ℕ × ℕ))) (d : Daemon PeerId)
      → Nodup (room_ids rooms)
      → AllNotWaiting rooms d
      → CanAsk d
      → CanAsk (open_rooms rooms d)
  unfolding open_rooms put_back new_phase1
  opened [] d apart away held = held
  opened ((id, (rx, rpc)) ∷ rooms) d apart (first, others) held =
      let (absent, rest) = Nodup-cons.0 apart in
      let ch = (new_phase1 id rx d.network_service rpc).0 in
      opened rooms (put_back id ch rpc d) rest
        (AllNotWaiting-put_back id ch rpc rooms d refl absent others)
        (put_back-CanAsk d id ch rpc held first refl refl)

  -- Once the loop has been started with distinct rooms, none of which waits yet, a local request reaches
  -- each of them.
  pub open_rooms-CanAsk :
      (rooms : List (RoomId × (ℕ × ℕ))) (d : Daemon PeerId)
      → Nodup (room_ids rooms)
      → d.rooms_coordination ≡ []
      → CanAsk (open_rooms rooms d)
  open_rooms-CanAsk rooms d apart none_yet =
      opened rooms d apart (nowhere rooms d none_yet) (rw none_yet tt)
