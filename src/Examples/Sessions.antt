-- ===== src/Examples/Sessions.antt =====
-- Sessions of numbered peers: the proxy, the negotiation, the joiner and the execution.
use mathlib.Core.List.{mem-cons, not-mem-nil, Nodup-cons, Nodup-nil}
use mathlib.Core.Logic.Or
use tss_libp2p.Prelude.{
  Bool, ℕ, ◌≤◌, ◌≡◌, refl, arith, List, [], ◌∷◌, Option, some, none, true, false, length, Nodup,
}
use tss_libp2p.Io.{IoResult, ok}
use tss_libp2p.Messages.{computation}
use tss_libp2p.Varint.Leb128.{leb128}
use tss_libp2p.Broadcast.{IncomingMessage, Reply, replied, failed}
use tss_libp2p.Service.{NetworkService}
use tss_libp2p.Peerset.{Peerset, peer_at, index_of, position}
use tss_libp2p.Broadcast
use tss_libp2p.Rooms.{ReceiverProxy, ProxyPoll, ComputeAgent, poll_proxy}
use tss_libp2p.Rooms.Proxy.{poll_proxy_outcome}
use tss_libp2p.Negotiation.{NegotiationInput, new_negotiation, run_negotiation}
use tss_libp2p.HashSet.{set_insert}
use tss_libp2p.Negotiation.Members.{joined}
use tss_libp2p.Negotiation.Outcome.{negotiation_outcome, Begun, asked_state, question}
use tss_libp2p.Execution.{
  ExecEffect, done, computed, broken, succeeded, internal_error, output, poll_execution, finish,
  ProtocolExecution, ExecInput, OutgoingMessage, point_to_point, acknowledge, to_protocol, take_in,
}
use tss_libp2p.Execution.Reports.{poll_execution_reports, reported, to_report}
use tss_libp2p.Examples.{numbered_peers, plain_net}

abbrev pub room_name : List ℕ
room_name = 8 ∷ []

abbrev pub duo : Peerset ℕ
duo = record {
  local_peer_id = 4;
  session_peers = 4 ∷ 9 ∷ [];
  parties_indexes = 0 ∷ 1 ∷ [];
  to_runtime = 5;
}

abbrev at_four : NetworkService ℕ
at_four = record { local_peer_id = 4 }

abbrev open_proxy : ReceiverProxy ℕ
open_proxy = record {
  id = room_name;
  rx = some 3;
  tx = 6;
  capacity = 1;
  service = at_four;
  parties = duo;
}

abbrev from_nine : IncomingMessage ℕ
from_nine = record {
  peer_id = 9;
  peer_index = 0;
  payload = 1 ∷ [];
  is_broadcast = false;
  pending_response = 77;
  context = record { message_type = computation; session_id = 0; protocol_id = 1 };
}

pub duo-Nodup : Nodup {A = ℕ} (4 ∷ 9 ∷ [])
duo-Nodup = Nodup-cons.1 (
  λ m. Or.elim (λ a b. absurd a) (mem-cons.0 m) (λ e. omega arith) not-mem-nil,
  Nodup-cons.1 (not-mem-nil, Nodup-nil),
)

poll_proxy_outcome_example :
    let polled : Bool → IoResult (ProxyPoll ℕ) = λ takes.
      poll_proxy
        (record { is_closed = false; next = some from_nine; takes = takes; rpc = 2 })
        open_proxy in
    (polled true ≡ ok (open_proxy, some (record from_nine { peer_index = 1 }), none))
    × (polled false ≡ ok (open_proxy, none, none))
unfolding peer_at
poll_proxy_outcome_example =
    (poll_proxy_outcome open_proxy 3 2 from_nine refl duo-Nodup (omega arith)).0 1 refl

abbrev pub at_work : ProtocolExecution ℕ
at_work = record {
  room_id = room_name;
  local_peer_id = 4;
  protocol_id = 1;
  session_id = 0;
  parties = duo;
  on_done = none;
  i = 0;
  n = 2;
}

abbrev pub all_open_input : ExecInput ℕ
all_open_input = record {
  from_peerset = none;
  from_protocol = none;
  from_network = none;
  result = none;
  res_chan = 50;
  echo_takes_outgoing = true;
  echo_takes_incoming = true;
  protocol_takes = true;
}

abbrev to_second : OutgoingMessage
to_second = record { body = 6 ∷ []; to = point_to_point 2; sent = some 12 }

pub nine_second : index_of duo 9 ≡ some 1
unfolding index_of position
nine_second = refl

abbrev agent : ComputeAgent
agent = record { session_id = 11; protocol_id = 1 }

abbrev poll_with : Option (Reply plain_net) → NegotiationInput plain_net
poll_with r = record {
  reply = r;
  is_over = false;
  responses_chan = 20;
  peerset_chan = 21;
  proxy_chan = 22;
  rpc = 23;
}

-- A failure, the reply of peer 9, and one that comes too late.
abbrev replies_in : List (NegotiationInput plain_net)
replies_in =
    poll_with (some (failed Broadcast.not_connected))
    ∷ poll_with (some (replied 9 []))
    ∷ poll_with (some (replied 10 []))
    ∷ []

enough_joined : 2 ≤ length (joined {X = plain_net} replies_in (4 ∷ []))
unfolding set_insert
enough_joined = omega arith

negotiation_outcome_example :
    Begun {X = plain_net} leb128 3 agent
      (asked_state {X = plain_net} leb128 room_name 2 (1 ∷ []) at_four agent 30 (poll_with none))
      (question room_name agent 20 ∷ [])
      (4 ∷ [])
      replies_in
      (run_negotiation {X = plain_net} leb128
        (poll_with none ∷ replies_in)
        (new_negotiation room_name 3 2 (1 ∷ []) at_four agent 30))
negotiation_outcome_example =
    (negotiation_outcome {X = plain_net} leb128 room_name 3 2 (1 ∷ []) at_four agent 30
        (poll_with none) replies_in (omega arith) refl (refl, (refl, (refl, tt)))).1
      enough_joined

-- A poll that hands on a direct message and finds the result.
abbrev last_input : ExecInput ℕ
last_input = record all_open_input {
  from_network = some from_nine;
  result = some (computed (5 ∷ []));
}

abbrev asked_work : ProtocolExecution ℕ
asked_work = record at_work { on_done = some 12 }

abbrev last_effects : List (ExecEffect ℕ)
last_effects =
    acknowledge 77
    ∷ to_protocol (record { from = 1; to = point_to_point 1; body = 1 ∷ [] })
    ∷ done 12 (computed (5 ∷ []))
    ∷ []

last_poll : poll_execution last_input asked_work ≡ ok (last_effects, some succeeded)
unfolding poll_execution take_in finish output
last_poll = refl

poll_execution_reports_example :
    (some (computed (5 ∷ [])) ≡ none → some succeeded ≡ none)
    × ((bytes : List ℕ)
        → some (computed (5 ∷ [])) ≡ some (computed bytes)
        → some succeeded ≡ some succeeded)
    × (some (computed (5 ∷ [])) ≡ some broken → some succeeded ≡ some internal_error)
    × (reported last_effects ≡ to_report (some 12) (some (computed (5 ∷ []))))
poll_execution_reports_example =
    poll_execution_reports last_input asked_work last_effects (some succeeded) last_poll
