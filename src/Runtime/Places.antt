-- ===== src/Runtime/Places.antt =====
-- Where the rooms are while the loop runs: each waits in phase 1 or is the room of a proxy.
use mathlib.Core.List.{Mem, Nodup-cons, perm_middle, mem-cons_self, mem-cons_of_mem}
use mathlib.Core.List.Perm
use tss_libp2p.Prelude.{
  ℕ, ◌≡◌, ◌≢◌, refl, sym, subst, List, [], ◌∷◌, ◌++◌, map, All, some, none, Option-cases,
  Bool-cases, ◌==◌, ◌⊎◌, inl, inr, Perm, Nodup,
}
use tss_libp2p.HashMap
use tss_libp2p.HashMap.{get-insert, get-insert_self, get-remove}
use tss_libp2p.Broadcast.{name_eq}
use tss_libp2p.Service.{RoomId}
use tss_libp2p.Rooms.{Phase1Channel, ReceiverProxy}
use tss_libp2p.Runtime.{Daemon, put_back, modify}
use tss_libp2p.Runtime.Asking.{modify_absent, modify_present}

map-middle :
    {A B : Type 0} (f : A → B) (before after : List A) (a : A)
    → Perm (map f (before ++ (a ∷ after))) (f a ∷ map f (before ++ after))
map-middle f [] after a = Perm.refl _
map-middle f (b ∷ before) after a =
    Perm.trans (Perm.cons (f b) (map-middle f before after a)) (Perm.swap (f a) (f b) _)

All-take :
    {A : Type 0} (Q : A → Type 0) (before after : List A) (a : A)
    → All Q (before ++ (a ∷ after))
    → All Q (before ++ after)
All-take Q [] after a (_, rest) = rest
All-take Q (b ∷ before) after a (first, rest) = (first, All-take Q before after a rest)

module _ {P : Type 0} where
  abbrev pub waiting : List (Phase1Channel P) → List RoomId
  waiting chs = map (λ ch. ch.id) chs

  abbrev pub proxies : List (ReceiverProxy P) → List RoomId
  proxies ps = map (λ p. p.id) ps

  -- The rooms of the loop, in some order.
  abbrev pub rooms : Daemon P → List RoomId
  rooms d = waiting d.rooms_coordination ++ proxies d.network_proxies

  -- The loop holds no sender for the room, or that of the channel on which it waits.
  abbrev pub Fresh : List (RoomId × ℕ) → Phase1Channel P → Type 0
  Fresh rpc ch = (HashMap.get ch.id rpc ≡ none) ⊎ (HashMap.get ch.id rpc ≡ some ch.on_local_rpc)

  -- With the rooms in hand, all rooms are there, and no sender is stale.
  abbrev pub InPlace : List RoomId → List RoomId → Daemon P → Type 0
  InPlace all hand d = Perm (hand ++ rooms d) all × All (Fresh d.rooms_rpc) d.rooms_coordination

  apart :
      (id : RoomId) (others : List RoomId) (chs : List (Phase1Channel P))
      → ¬ Mem id (waiting chs ++ others)
      → All (λ (ch : Phase1Channel P). ch.id ≢ id) chs
  apart id others [] absent = tt
  apart id others (ch ∷ chs) absent = (
    λ same. absurd (absent (subst (λ i. Mem i (waiting (ch ∷ chs) ++ others)) same mem-cons_self)),
    apart id others chs (λ m. absent (mem-cons_of_mem ch.id m)),
  )

  Fresh-insert :
      (id : RoomId) (tx : ℕ) (rpc : List (RoomId × ℕ)) (chs : List (Phase1Channel P))
      → All (λ (ch : Phase1Channel P). ch.id ≢ id) chs
      → All (Fresh rpc) chs
      → All (Fresh (HashMap.insert id tx rpc)) chs
  Fresh-insert id tx rpc [] away fresh = tt
  Fresh-insert id tx rpc (ch ∷ chs) (far, away) (first, others) = (
    elim (Bool-cases (id == ch.id)) [
      | inl same ↦ absurd (far (sym ((name_eq.beq_iff id ch.id).0 same)))
      | inr other ↦ rw (get-insert id ch.id tx rpc, other) first
    ],
    Fresh-insert id tx rpc chs away others,
  )

  pub Fresh-remove :
      (id : RoomId) (rpc : List (RoomId × ℕ)) (chs : List (Phase1Channel P))
      → All (Fresh rpc) chs
      → All (Fresh (HashMap.remove id rpc)) chs
  Fresh-remove id rpc [] fresh = tt
  Fresh-remove id rpc (ch ∷ chs) (first, others) = (
    elim (Bool-cases (id == ch.id)) [
      | inl same ↦ inl (rw (get-remove id ch.id rpc, same) refl)
      | inr other ↦ rw (get-remove id ch.id rpc, other) first
    ],
    Fresh-remove id rpc chs others,
  )

  -- A room in hand is none of the others.
  pub hand-apart :
      (all : List RoomId) (id : RoomId) (d : Daemon P)
      → Nodup all
      → Perm (id ∷ rooms d) all
      → All (λ (ch : Phase1Channel P). ch.id ≢ id) d.rooms_coordination
  hand-apart all id d distinct places =
      apart id (proxies d.network_proxies) d.rooms_coordination
        (Nodup-cons.0 (Perm.nodup (Perm.symm places) distinct)).0

  pub put_back-InPlace :
      (all : List RoomId) (id : RoomId) (ch : Phase1Channel P) (tx : ℕ) (d : Daemon P)
      → Nodup all
      → InPlace all (id ∷ []) d
      → ch.id ≡ id
      → ch.on_local_rpc ≡ tx
      → InPlace all [] (put_back id ch tx d)
  unfolding put_back
  put_back-InPlace all id ch tx d distinct (places, fresh) named its = (
    rw named places,
    (
      inr (rw (named, its) (get-insert_self id tx d.rooms_rpc)),
      Fresh-insert id tx d.rooms_rpc d.rooms_coordination (hand-apart all id d distinct places)
          fresh,
    ),
  )

  -- The abort of phase 2 puts a sender only where the loop still holds one.
  pub modify-InPlace :
      (all : List RoomId) (id : RoomId) (ch : Phase1Channel P) (tx : ℕ) (d : Daemon P)
      → Nodup all
      → InPlace all (id ∷ []) d
      → ch.id ≡ id
      → ch.on_local_rpc ≡ tx
      → InPlace all [] (record d {
        rooms_rpc = modify id tx d.rooms_rpc;
        rooms_coordination = ch ∷ d.rooms_coordination;
      })
  unfolding put_back
  modify-InPlace all id ch tx d distinct (places, fresh) named its =
      let back = λ (rpc : List (RoomId × ℕ)).
        InPlace all []
          (record d { rooms_rpc = rpc; rooms_coordination = ch ∷ d.rooms_coordination }) in
      elim (Option-cases (HashMap.get id d.rooms_rpc)) [
        | inl gone ↦
            subst back (sym (modify_absent id tx d.rooms_rpc gone))
              (rw named places, (inl (rw named gone), fresh))
        | inr (old, there) ↦
            subst back (sym (modify_present id tx old d.rooms_rpc there))
              (put_back-InPlace all id ch tx d distinct (places, fresh) named its)
      ]

  pub take_waiting :
      (all : List RoomId) (before after : List (Phase1Channel P)) (ch : Phase1Channel P)
      (d : Daemon P)
      → d.rooms_coordination ≡ before ++ (ch ∷ after)
      → InPlace all [] d
      → InPlace all (ch.id ∷ []) (record d { rooms_coordination = before ++ after })
  take_waiting all before after ch d split (places, fresh) = (
    Perm.trans
        (Perm.append_right (proxies d.network_proxies)
          (Perm.symm (map-middle (λ c. c.id) before after ch)))
        (subst (λ chs. Perm (waiting chs ++ proxies d.network_proxies) all) split places),
    All-take (Fresh d.rooms_rpc) before after ch (subst (All (Fresh d.rooms_rpc)) split fresh),
  )

  pub take_proxy :
      (all : List RoomId) (before after : List (ReceiverProxy P)) (proxy : ReceiverProxy P)
      (d : Daemon P)
      → d.network_proxies ≡ before ++ (proxy ∷ after)
      → InPlace all [] d
      → InPlace all (proxy.id ∷ []) (record d { network_proxies = before ++ after })
  take_proxy all before after proxy d split (places, fresh) = (
    Perm.trans (Perm.symm (perm_middle (waiting d.rooms_coordination) (proxies (before ++ after))))
        (Perm.trans
          (Perm.append_left (waiting d.rooms_coordination)
            (Perm.symm (map-middle (λ q. q.id) before after proxy)))
          (subst (λ ps. Perm (waiting d.rooms_coordination ++ proxies ps) all) split places)),
    fresh,
  )

  -- A computation has the room of its proxy.
  pub start-InPlace :
      (all : List RoomId) (proxy : ReceiverProxy P) (d : Daemon P)
      → InPlace all (proxy.id ∷ []) d
      → InPlace all [] (record d { network_proxies = proxy ∷ d.network_proxies })
  start-InPlace all proxy d (places, fresh) = (
    Perm.trans (perm_middle (waiting d.rooms_coordination) (proxies d.network_proxies)) places,
    fresh,
  )
