-- ===== src/Examples/Daemons.antt =====
-- The loop of the runtime with one room, and the caches.
use mathlib.Core.List.{mem-cons, not-mem-nil, Nodup-cons, Nodup-nil}
use mathlib.Core.Logic.Or
use tss_libp2p.Prelude.{
  Nodup, List, [], ◌∷◌, ℕ, ◌≡◌, refl, arith, Option, some, none, Bool, false, bytes_beq, sort,
  insert, zero, suc,
}
use tss_libp2p.Io.{ok, panic}
use tss_libp2p.HashMap
use tss_libp2p.Broadcast.{name_eq}
use tss_libp2p.Service.{RoomId, NetworkService}
use tss_libp2p.Peerset.{Peerset, bytes_le}
use tss_libp2p.Peerset.RoundTrip.{IsWire}
use tss_libp2p.Rooms.{ComputeAgent, Phase1Channel, new_phase1}
use tss_libp2p.Negotiation.{abort}
use tss_libp2p.Coordination.{canceled, poll_phase1, aborted, Phase2Chan}
use tss_libp2p.Runtime.{
  ComputationRequest, Daemon, busy, on_computation, on_proxy, on_local, on_remote, on_phase2,
}
use tss_libp2p.Runtime.Asking.{on_computation-aborted}
use tss_libp2p.Runtime.Returns.{Returned, on_proxy-Returned}
use tss_libp2p.Runtime.Start.{room_ids}
use tss_libp2p.Cacher.{EphemeralCacher, PersistentCacher}
use tss_libp2p.Examples.{numbered_peers, All-Has38}

abbrev pub lobby : RoomId
lobby = 8 ∷ []

abbrev pub at_nine : NetworkService ℕ
at_nine = record { local_peer_id = 9 }

abbrev pub one_room : Daemon ℕ
one_room = record {
  network_service = at_nine;
  rooms_rpc = (lobby, 4) ∷ [];
  rooms_coordination = [];
  network_proxies = [];
  protocol_executions = [];
}

abbrev pub knows_one : ℕ → Option ComputeAgent
knows_one protocol_id = elim protocol_id [
  | zero ↦ none
  | suc n ↦ some (record { session_id = 11; protocol_id = suc n })
]

abbrev pub never_canceled : ℕ → Bool
never_canceled tx = false

abbrev pub ask_one : ComputationRequest
ask_one = record { room_id = lobby; n = 2; protocol_id = 1; args = []; on_done = 30 }

abbrev first_agent : ComputeAgent
first_agent = record { session_id = 11; protocol_id = 1 }

abbrev fresh_channel : Phase1Channel ℕ
fresh_channel = record { id = lobby; rx = some 3; on_local_rpc = 5; service = at_nine }

pub lobby_held : HashMap.get lobby one_room.rooms_rpc ≡ some 4
unfolding HashMap.get bytes_beq
lobby_held = refl

abbrev agreed : Phase2Chan ℕ
agreed = record { id = lobby; rx = some 3; service = at_nine }

-- The loop beside a room that has just been asked, whose sender it no longer holds.
abbrev beside_asked : Daemon ℕ
beside_asked = record one_room {
  rooms_coordination =
      record { id = 7 ∷ []; rx = some 2; on_local_rpc = 9; service = at_nine } ∷ [];
}

on_proxy-Returned_example :
    let phase1 = new_phase1 lobby 3 at_nine 6 in
    Returned knows_one never_canceled beside_asked phase1.0
      (on_proxy lobby phase1.0 phase1.1 beside_asked)
    × ((d1 : Daemon ℕ) × (on_local lobby 2 (abort lobby phase1.0 phase1.1) beside_asked ≡ ok d1)
        × Returned knows_one never_canceled beside_asked phase1.0 d1)
    × ((d1 : Daemon ℕ) × (on_remote knows_one 0 7 agreed
            (aborted lobby fresh_channel 5)
            6
            beside_asked
          ≡ ok (d1, []))
        × Returned knows_one never_canceled beside_asked phase1.0 d1)
    × (HashMap.get lobby beside_asked.rooms_rpc ≡ some 4
        → (d1 : Daemon ℕ) × (on_phase2 first_agent (aborted lobby phase1.0 phase1.1) beside_asked
            ≡ ok d1)
          × Returned knows_one never_canceled beside_asked phase1.0 d1)
on_proxy-Returned_example =
    on_proxy-Returned knows_one never_canceled beside_asked agreed first_agent
      (aborted lobby fresh_channel 5) 0 7 2 3 6 4 refl refl

-- Another request for the same room.
abbrev ask_again : ComputationRequest
ask_again = record { room_id = lobby; n = 3; protocol_id = 2; args = 5 ∷ []; on_done = 31 }

abbrev second_agent : ComputeAgent
second_agent = record { session_id = 11; protocol_id = 2 }

on_computation-aborted_example :
    let (d1, es) = on_computation knows_one never_canceled ask_one one_room in
    let (ch, tx) = new_phase1 lobby 3 at_nine 6 in
    (d2 : Daemon ℕ) × (on_phase2 first_agent (aborted lobby ch tx) d1 ≡ ok d2)
    × (d2.rooms_coordination ≡ ch ∷ [])
    × (HashMap.get lobby d2.rooms_rpc ≡ none)
    × ((later : ComputationRequest)
        → later.room_id ≡ lobby
        → on_computation knows_one never_canceled later d2 ≡ (d2, busy later.on_done ∷ []))
    × (poll_phase1 (record { next = none; local = canceled }) ch ≡ panic)
on_computation-aborted_example =
    on_computation-aborted knows_one never_canceled one_room ask_one 4 6 3 first_agent first_agent
      lobby_held refl refl

abbrev kept : Peerset ℕ
kept = record {
  local_peer_id = 4;
  session_peers = 4 ∷ 9 ∷ [];
  parties_indexes = 0 ∷ 1 ∷ [];
  to_runtime = 5;
}

kept-IsWire : IsWire kept
unfolding sort insert bytes_le
kept-IsWire = record {
  ids = All-Has38 (4 ∷ 9 ∷ []);
  aligned = refl;
  sorted = refl;
  small = (omega arith, (omega arith, tt));
}

abbrev on_disk : PersistentCacher ℕ
on_disk = record { local_peer_id = 9; files = (lobby, 1 ∷ []) ∷ [] }

abbrev in_memory : EphemeralCacher ℕ
in_memory = record { store = [] }

abbrev empty_daemon : Daemon ℕ
empty_daemon = record one_room { rooms_rpc = [] }

abbrev pub two_rooms : List (RoomId × (ℕ × ℕ))
two_rooms = (8 ∷ [], (3, 4)) ∷ (7 ∷ [], (5, 6)) ∷ []

pub two_rooms-Nodup : Nodup (room_ids two_rooms)
two_rooms-Nodup = Nodup-cons.1 (
  λ m. Or.elim (λ a b. absurd a) (mem-cons.0 m) (λ e. cc) not-mem-nil,
  Nodup-cons.1 (not-mem-nil, Nodup-nil),
)
