-- ===== src/Runtime/Handled.antt =====
-- What each handler of the loop does with the rooms.

use tss_libp2p.Prelude.{
  ℕ, ◌≡◌, refl, sym, ◌∙◌, subst, List, [], ◌∷◌, Option, some, none, Option-cases, Bool, inl, inr,
  Nodup,
}
use tss_libp2p.Peer.{PeerApi}
use tss_libp2p.Io.{ok, >>=-eq-ok}
use tss_libp2p.HashMap
use tss_libp2p.HashMap.{get-insert, get-insert_self, get-remove}
use tss_libp2p.Broadcast.{name_eq}
use tss_libp2p.Service.{RoomId}
use tss_libp2p.Echo
use tss_libp2p.Peerset.{size}
use tss_libp2p.Rooms.{ComputeAgent, unwrap, new_phase1}
use tss_libp2p.Negotiation.{NegotiationMsg, start, abort}
use tss_libp2p.Coordination.{Phase2Chan, Phase2Msg, begun, aborted, abort_phase2}
use tss_libp2p.Execution.{new_execution}
use tss_libp2p.Runtime.{
  ComputationRequest, Daemon, RuntimeEffect, put_back, modify, on_computation, on_remote, on_local,
  on_phase2,
}
use tss_libp2p.Runtime.Phases.{OfRoom2, OfNegotiation}
use tss_libp2p.Runtime.Places.{
  InPlace, put_back-InPlace, modify-InPlace, start-InPlace, Fresh-remove,
}

module _ {P : Type 0} ⦃api : PeerApi P⦄ (all : List RoomId) where
  pub on_computation-InPlace :
      (make : ℕ → Option ComputeAgent) (is_canceled : ℕ → Bool) (req : ComputationRequest)
      (d : Daemon P)
      → InPlace all [] d
      → InPlace all [] (on_computation make is_canceled req d).0
  unfolding on_computation
  on_computation-InPlace make is_canceled req d (places, fresh) =
      elim (Option-cases (HashMap.get req.room_id d.rooms_rpc)) [
        | inl gone ↦ rw (gone, on_computation) (places, fresh)
        | inr (on_rpc, there) ↦ elim (Option-cases (make req.protocol_id)) [
          | inl unknown ↦ rw (there, on_computation) (rw unknown (places, fresh))
          | inr (agent, known) ↦
              rw (there, on_computation)
                (rw known (places, Fresh-remove req.room_id d.rooms_rpc d.rooms_coordination fresh))
        ]
      ]

  on_phase2-InPlace :
      (agent : ComputeAgent) (id : RoomId) (outcome : Phase2Msg P) (d e : Daemon P)
      → Nodup all
      → OfRoom2 id outcome
      → InPlace all (id ∷ []) d
      → on_phase2 agent outcome d ≡ ok e
      → InPlace all [] e
  unfolding on_phase2
  on_phase2-InPlace agent id (begun room rx proxy parties peerset_rx body) d e distinct of_room held
        eq =
      let (exec, made, rest) =
        >>=-eq-ok (new_execution room agent d.network_service parties none) _ eq in
      let after : Daemon P = record d {
        network_proxies = proxy ∷ d.network_proxies;
        protocol_executions = (Echo.new (size parties), exec) ∷ d.protocol_executions;
      } in
      let same : after ≡ e = cc rest in
      subst (InPlace all []) same (start-InPlace all proxy d (rw of_room held))
  on_phase2-InPlace agent id (aborted room ch tx) d e distinct (here_room, named, its) held eq =
      let after : Daemon P = record d {
        rooms_rpc = modify room tx d.rooms_rpc;
        rooms_coordination = ch ∷ d.rooms_coordination;
      } in
      let same : after ≡ e = cc eq in
      subst (InPlace all []) same
        (modify-InPlace all room ch tx d distinct (rw here_room held) (named ∙ sym here_room) its)

  pub on_remote-InPlace :
      (make : ℕ → Option ComputeAgent) (protocol_id response_tx rpc : ℕ) (channel : Phase2Chan P)
      (outcome : Phase2Msg P) (d e : Daemon P) (effects : List RuntimeEffect)
      → Nodup all
      → ((agent : ComputeAgent) → make protocol_id ≡ some agent → OfRoom2 channel.id outcome)
      → InPlace all (channel.id ∷ []) d
      → on_remote make protocol_id response_tx channel outcome rpc d ≡ ok (e, effects)
      → InPlace all [] e
  unfolding on_remote abort_phase2 new_phase1
  on_remote-InPlace make protocol_id response_tx rpc channel outcome d e effects distinct of_room
        held eq =
      elim (Option-cases (make protocol_id)) [
        | inl unknown ↦
            let (r, back, rest) =
              >>=-eq-ok (abort_phase2 rpc channel) _ (rw (unknown, on_remote) at eq) in
            let (rx, waits, phase1) = >>=-eq-ok (unwrap channel.rx) _ back in
            let (ch, tx) = new_phase1 channel.id rx channel.service rpc in
            let same : put_back channel.id ch tx d ≡ e = cc (phase1, rest) in
            subst (InPlace all []) same
              (put_back-InPlace all channel.id ch tx d distinct held refl refl)
        | inr (agent, known) ↦
            let (d1, went, rest) =
              >>=-eq-ok (on_phase2 agent outcome d) _ (rw (known, on_remote) at eq) in
            let same : d1 ≡ e = cc rest in
            subst (InPlace all []) same (
              on_phase2-InPlace agent channel.id outcome d d1 distinct (of_room agent known) held
                went)
      ]

  pub on_local-InPlace :
      (id : RoomId) (n : ℕ) (outcome : NegotiationMsg P) (d e : Daemon P)
      → Nodup all
      → OfNegotiation id outcome
      → InPlace all (id ∷ []) d
      → on_local id n outcome d ≡ ok e
      → InPlace all [] e
  unfolding on_local
  on_local-InPlace id n (start agent on_done rx proxy parties peerset_rx args) d e distinct of_room
        held eq =
      let (exec, made, rest) =
        >>=-eq-ok (new_execution id agent d.network_service parties (some on_done)) _ eq in
      let after : Daemon P = record d {
        network_proxies = proxy ∷ d.network_proxies;
        protocol_executions = (Echo.new n, exec) ∷ d.protocol_executions;
      } in
      let same : after ≡ e = cc rest in
      subst (InPlace all []) same (start-InPlace all proxy d (rw of_room held))
  on_local-InPlace id n (abort room ch tx) d e distinct (here_room, named, its) held eq =
      let same : put_back room ch tx d ≡ e = cc eq in
      subst (InPlace all []) same
        (put_back-InPlace all room ch tx d distinct (rw here_room held) (named ∙ sym here_room) its)
