-- ===== src/Runtime/Kept.antt =====
-- The rooms are kept by every turn of the loop.
use mathlib.Core.List.{perm_middle}
use mathlib.Core.List.Perm
use tss_libp2p.Prelude.{
  ℕ, refl, sym, ◌∙◌, subst, List, [], ◌∷◌, ◌++◌, All, Option, inr, append-nil, Perm, Nodup,
}
use tss_libp2p.Peer.{PeerApi}
use tss_libp2p.Varint.{VarintApi}
use tss_libp2p.HashMap
use tss_libp2p.HashMap.{get-insert, get-insert_self, get-remove}
use tss_libp2p.Broadcast.{Net, name_eq}
use tss_libp2p.Service.{RoomId, NetworkService}
use tss_libp2p.Rooms.{ComputeAgent, Phase1Channel, new_phase1}
use tss_libp2p.Runtime.{Daemon, open_rooms, on_proxy}
use tss_libp2p.Runtime.Asking.{Holds}
use tss_libp2p.Runtime.Phases.{poll_phase1-FromRoom, poll_phase2-OfRoom2, poll_proxy-IsBack}
use tss_libp2p.Runtime.Negotiated.{run_negotiation-Post, Post}
use tss_libp2p.Runtime.Handled.{on_computation-InPlace, on_remote-InPlace, on_local-InPlace}
use tss_libp2p.Runtime.Places.{
  rooms, waiting, proxies, Fresh, InPlace, put_back-InPlace, take_waiting, take_proxy,
}
use tss_libp2p.Runtime.Start.{room_ids, open_rooms-CanAsk}
use tss_libp2p.Runtime.Turns.{Turn, request, remote, local, executed, proxied, Reach, here, next}

module _ (X : Net) ⦃api : PeerApi X.PeerId⦄ (varint : VarintApi)
    (make : ℕ → Option ComputeAgent) where
  Turn-InPlace :
      (all : List RoomId) {d e : Daemon X.PeerId}
      → Nodup all
      → InPlace all [] d
      → Turn X varint make d e
      → InPlace all [] e
  unfolding on_proxy
  Turn-InPlace all {d} distinct held (request is_canceled req) =
      on_computation-InPlace all make is_canceled req d held
  Turn-InPlace all {d} {e} distinct held
        (remote before after ch ch1 inp1 p protocol_id session_id payload response_tx channel
          channel1 inp2 outcome rpc effects split asked joined went) =
      let named = poll_phase1-FromRoom inp1 ch ch1 _ asked in
      let d1 : Daemon X.PeerId = record d { rooms_coordination = before ++ after } in
      on_remote-InPlace all make protocol_id response_tx rpc channel outcome d1 e effects distinct
        (λ agent known.
          poll_phase2-OfRoom2 varint inp2 channel channel1 outcome (joined agent known))
        (rw named (take_waiting all before after ch d split held)) went
  Turn-InPlace all {d} {e} distinct held
        (local before after ch ch1 inp1 id n negotiation negotiation1 inputs sent outcome split
          asked ran went) =
      let (named, (st, there, of_room)) = poll_phase1-FromRoom inp1 ch ch1 _ asked in
      let d1 : Daemon X.PeerId = record d { rooms_coordination = before ++ after } in
      let negotiated =
        subst (Post id) ran
          (run_negotiation-Post varint id inputs negotiation (st, there, of_room ∙ sym named)) in
      on_local-InPlace all id n outcome d1 e distinct negotiated
        (rw named (take_waiting all before after ch d split held)) went
  Turn-InPlace all distinct held (executed before after done split) = held
  Turn-InPlace all {d} distinct held
        (proxied before after proxy proxy1 inp m room_id phase1 rpc_tx split polled) =
      let (same_room, named, its) =
        poll_proxy-IsBack inp proxy proxy1 m room_id phase1 rpc_tx polled in
      let d1 : Daemon X.PeerId = record d { network_proxies = before ++ after } in
      put_back-InPlace all room_id phase1 rpc_tx d1 distinct
        (rw same_room (take_proxy all before after proxy d split held)) (named ∙ sym same_room) its

  Reach-InPlace :
      (all : List RoomId) {d e : Daemon X.PeerId}
      → Nodup all
      → InPlace all [] d
      → Reach X varint make d e
      → InPlace all [] e
  Reach-InPlace all distinct held here = held
  Reach-InPlace all distinct held (next r t) =
      Turn-InPlace all distinct (Reach-InPlace all distinct held r) t

module _ {P : Type 0} where
  opened-rooms :
      (given : List (RoomId × (ℕ × ℕ))) (d : Daemon P)
      → Perm (rooms (open_rooms given d)) (room_ids given ++ rooms d)
  unfolding open_rooms new_phase1
  opened-rooms [] d = Perm.refl (rooms d)
  opened-rooms ((id, (rx, rpc)) ∷ given) d =
      let ch = (new_phase1 id rx d.network_service rpc).0 in
      let d1 : Daemon P = record d {
        rooms_coordination = ch ∷ d.rooms_coordination;
        rooms_rpc = HashMap.insert id rpc d.rooms_rpc;
      } in
      Perm.trans (opened-rooms given d1) (perm_middle (room_ids given) (rooms d))

  Fresh-of_held :
      (rpc : List (RoomId × ℕ)) (chs : List (Phase1Channel P))
      → All (Holds rpc) chs
      → All (Fresh rpc) chs
  Fresh-of_held rpc [] held = tt
  Fresh-of_held rpc (ch ∷ chs) (first, others) = (inr first, Fresh-of_held rpc chs others)

  -- The loop as it is made: it has no room yet.
  abbrev pub idle : NetworkService P → Daemon P
  idle service = record {
    network_service = service;
    rooms_rpc = [];
    rooms_coordination = [];
    network_proxies = [];
    protocol_executions = [];
  }

module _ (X : Net) ⦃api : PeerApi X.PeerId⦄ (varint : VarintApi)
    (make : ℕ → Option ComputeAgent) where
  -- The loop, started with distinct rooms, loses and doubles none of them: whatever turns it takes, each
  -- room either waits once in phase 1 or is the room of one proxy, in some order. And for a room that
  -- waits, the loop holds no sender or that of the channel on which the room waits.
  pub Reach-rooms :
      (given : List (RoomId × (ℕ × ℕ))) (service : NetworkService X.PeerId) (e : Daemon X.PeerId)
      → Nodup (room_ids given)
      → Reach X varint make (open_rooms given (idle service)) e
      → Perm (waiting e.rooms_coordination ++ proxies e.network_proxies) (room_ids given)
        × All (Fresh e.rooms_rpc) e.rooms_coordination
  Reach-rooms given service e distinct reached =
      let started = open_rooms given (idle service) in
      Reach-InPlace X varint make (room_ids given) distinct
        (
          subst (Perm (rooms started)) (append-nil (room_ids given))
              (opened-rooms given (idle service)),
          Fresh-of_held started.rooms_rpc started.rooms_coordination
              (open_rooms-CanAsk given (idle service) distinct refl),
        )
        reached
