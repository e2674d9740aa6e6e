-- ===== src/Examples/Loop.antt =====
-- Two turns of the loop of the runtime, which has two rooms.
use tss_libp2p.Prelude.{ℕ, refl, [], ◌∷◌, ◌++◌, some, none, true, bytes_beq, All, Perm}
use tss_libp2p.HashMap
use tss_libp2p.Messages.{coordination}
use tss_libp2p.Broadcast.{IncomingMessage}
use tss_libp2p.Rooms.{Phase1Channel, new_phase1}
use tss_libp2p.Varint.Leb128.{leb128}
use tss_libp2p.Coordination.{
  Phase2Chan, aborted, nothing, poll_phase1, poll_phase2, give_up, abort_phase2,
}
use tss_libp2p.Runtime.{Daemon, open_rooms, put_back, on_computation, on_remote}
use tss_libp2p.Runtime.Places.{waiting, proxies, Fresh}
use tss_libp2p.Runtime.Turns.{Reach, here, next, request, remote}
use tss_libp2p.Runtime.Start.{room_ids}
use tss_libp2p.Runtime.Kept.{idle, Reach-rooms}
use tss_libp2p.Examples.{numbered_peers, plain_net}
use tss_libp2p.Examples.Daemons.{
  at_nine, ask_one, knows_one, never_canceled, two_rooms, two_rooms-Nodup,
}

abbrev question : IncomingMessage ℕ
question = record {
  peer_id = 1;
  peer_index = 0;
  payload = [];
  is_broadcast = true;
  pending_response = 77;
  context = record { message_type = coordination; session_id = 0; protocol_id = 0 };
}

-- The rooms as the loop is started, the one that was given last in front.
abbrev lobby_waits : Phase1Channel ℕ
lobby_waits = (new_phase1 (8 ∷ []) 3 at_nine 4).0

abbrev hall_waits : Phase1Channel ℕ
hall_waits = (new_phase1 (7 ∷ []) 5 at_nine 6).0

abbrev asked_hall : Phase2Chan ℕ
asked_hall = record { id = 7 ∷ []; rx = some 5; service = at_nine }

abbrev hall_again : Phase1Channel ℕ
hall_again = (new_phase1 (7 ∷ []) 5 at_nine 9).0

abbrev hall_tried : Phase1Channel ℕ
hall_tried = (new_phase1 (7 ∷ []) 5 at_nine 10).0

abbrev waits_again : Daemon ℕ
waits_again = record {
  network_service = at_nine;
  rooms_rpc = (7 ∷ [], 9) ∷ [];
  rooms_coordination = hall_again ∷ lobby_waits ∷ [];
  network_proxies = [];
  protocol_executions = [];
}

-- A computation is asked for in the first room; in the second a peer asks for a protocol that is not
-- known.
two_turns : Reach plain_net leb128 knows_one (open_rooms two_rooms (idle at_nine)) waits_again
unfolding open_rooms on_computation on_remote put_back poll_phase1 poll_phase2 give_up abort_phase2
    new_phase1 HashMap.get HashMap.insert HashMap.remove bytes_beq
two_turns = next (next here (request never_canceled ask_one)) (
    remote [] (lobby_waits ∷ []) hall_waits (record hall_waits { rx = none })
      (record { next = some question; local = nothing }) 1 0 0 [] 77 asked_hall
      (record asked_hall { rx = none })
      (record { next = none; is_over = true; peerset_chan = 1; proxy_chan = 2; rpc = 10 })
      (aborted (7 ∷ []) hall_tried 10) 9 [] refl refl (λ agent known. cc known) refl)

Reach-rooms_example :
    Perm
      (waiting waits_again.rooms_coordination ++ proxies waits_again.network_proxies)
      (room_ids two_rooms)
    × All (Fresh waits_again.rooms_rpc) waits_again.rooms_coordination
Reach-rooms_example =
    Reach-rooms plain_net leb128 knows_one two_rooms at_nine waits_again two_rooms-Nodup two_turns
