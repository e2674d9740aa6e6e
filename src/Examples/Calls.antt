-- ===== src/Examples/Calls.antt =====
-- A call of the RPC on a node, and the messages and shares of the computation.
use mathlib.Core.List.{filter_map}
use tss_libp2p.Prelude.{
  ℕ, ◌≡◌, refl, arith, List, [], ◌∷◌, Option, some, none, false, bytes_beq, sort, insert,
}
use tss_libp2p.Io.{ok, ◌>>=◌}
use tss_libp2p.HashMap
use tss_libp2p.Messages.{computation}
use tss_libp2p.Varint.Leb128.{leb128, length-encode}
use tss_libp2p.Broadcast.{IncomingMessage, Name, name_eq}
use tss_libp2p.Service.{RoomId}
use tss_libp2p.Config.Files.{Files}
use tss_libp2p.Peerset.{Peerset, new, index_of, position, bytes_le, size}
use tss_libp2p.Cacher.{PersistentCacher, read_persistent, write_persistent}
use tss_libp2p.Rooms.{ReceiverProxy}
use tss_libp2p.Execution.{ProtocolExecution}
use tss_libp2p.Runtime.{ask_room, on_computation}
use tss_libp2p.Tss.{CborApi, Msg}
use tss_libp2p.Tss.Agents.{ShareApi, keygen_start, keysign_start}
use tss_libp2p.Tss.Signers.{keysign_start_numbers}
use tss_libp2p.Rpc.{keygen, sign}
use tss_libp2p.Rpc.Sessions.{agents, keygen_request, sign_request}
use tss_libp2p.Examples.{numbered_peers, All-Has38}
use tss_libp2p.Examples.Sessions.{duo, at_work, room_name}
use tss_libp2p.Examples.Daemons.{one_room, never_canceled, lobby_held}

abbrev first_number : List ℕ → Option ℕ
first_number [] = none
first_number (b ∷ bs) = some b

read_back : (m : ℕ) (bs : List ℕ) → some (m ∷ []) ≡ some bs → first_number bs ≡ some m
read_back m [] e = cc e
read_back m (b ∷ bs) e = cc e

-- A message is one number.
abbrev plain_cbor : CborApi ℕ
unfolding read_back
plain_cbor = record {
  from_slice = first_number;
  to_vec = λ m. some (m ∷ []);
  from_slice-to_vec = read_back;
}

abbrev plain_shares : ShareApi ℕ ℕ
unfolding read_back
plain_shares = record {
  public_key = λ k. k;
  key_to_vec = λ k. some (k ∷ []);
  key_from_slice = first_number;
  key_from_slice-key_to_vec = read_back;
}

-- The room's id is its name.
abbrev by_name : Name → RoomId
by_name n = n

abbrev share_path : Name
share_path = 47 ∷ []

four_first : index_of duo 4 ≡ some 0
unfolding index_of position
four_first = refl

keygen_request_example :
    let req = keygen leb128 by_name 30 (8 ∷ []) 2 1 in
    ((on_computation (agents share_path) never_canceled req one_room).1
      ≡ ask_room 4 (record {
        n = 2;
        args = req.args;
        agent = record { session_id = 0; protocol_id = 0 };
        on_done = 30;
      })
        ∷ [])
    × (keygen_start leb128 duo req.args ≡ ok (1, 1, 2))
unfolding keygen size
keygen_request_example =
    keygen_request leb128 by_name one_room never_canceled share_path (8 ∷ []) 30 4 2 1 0 duo
      (omega arith) (omega (arith, length-encode 1)) lobby_held refl four_first refl (omega arith)

sign_request_example :
    (on_computation
      (agents share_path)
      never_canceled
      (sign by_name 30 (8 ∷ []) 1 (6 ∷ []))
      one_room).1
    ≡ ask_room 4 (record {
      n = 2;
      args = 6 ∷ [];
      agent = record { session_id = 0; protocol_id = 1 };
      on_done = 30;
    })
      ∷ []
sign_request_example =
    (sign_request leb128 by_name one_room never_canceled share_path (8 ∷ []) 30 4 1 (6 ∷ [])
        (omega arith) lobby_held refl).0
      (omega arith)

abbrev share_file : Files
share_file = (share_path, 33 ∷ []) ∷ []

abbrev no_cache : PersistentCacher ℕ
no_cache = record { local_peer_id = 4; files = [] }

share_there : HashMap.get share_path share_file ≡ some (33 ∷ [])
unfolding HashMap.get bytes_beq
share_there = refl

-- Peers 4, 7 and 9 made the key; 4 and 9 sign, as the parties 1 and 3.
keysign_start_numbers_example :
    let group : Peerset ℕ = (new (9 ∷ 4 ∷ 7 ∷ []) 4 20).0 in
    (write_persistent room_name group no_cache >>= λ c1.
    keysign_start plain_shares share_path (read_persistent room_name 21 c1) duo share_file)
    ≡ ok (1, 1 ∷ 3 ∷ [], 33)
unfolding sort insert bytes_le new index_of position plain_shares filter_map
keysign_start_numbers_example =
    keysign_start_numbers plain_shares no_cache room_name (9 ∷ 4 ∷ 7 ∷ []) 4 20 21 0 duo share_path
      share_file (33 ∷ []) 33 (All-Has38 (9 ∷ 4 ∷ 7 ∷ [])) (omega arith) four_first share_there refl

-- The computation of `at_work` at the other peer, and its proxy.
abbrev at_other : ProtocolExecution ℕ
at_other = record at_work { local_peer_id = 9; parties = record duo { local_peer_id = 9 }; i = 1 }

abbrev other_proxy : ReceiverProxy ℕ
other_proxy = record {
  id = room_name;
  rx = some 3;
  tx = 8;
  capacity = 1;
  service = record { local_peer_id = 9 };
  parties = record duo { local_peer_id = 9 };
}

abbrev from_four : IncomingMessage ℕ
from_four = record {
  peer_id = 4;
  peer_index = 0;
  payload = 6 ∷ [];
  is_broadcast = false;
  pending_response = 77;
  context = record { message_type = computation; session_id = 0; protocol_id = 1 };
}

abbrev to_two : Msg ℕ
to_two = record { sender = 1; receiver = some 2; body = 6 }
