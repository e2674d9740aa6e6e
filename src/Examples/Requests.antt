-- ===== src/Examples/Requests.antt =====
-- Requests and responses, over behaviours that number their requests in order.
use tss_libp2p.Prelude.{
  ℕ, ◌≡◌, refl, arith, List, [], ◌∷◌, some, none, Bool, true, false, bytes_beq, bytes_beq_iff,
}
use tss_libp2p.HashMap
use tss_libp2p.Messages.{answer, Response}
use tss_libp2p.Broadcast.{
  Broadcast, Name, name_eq, id_eq, id_beq, ProtocolRequestId, reply, failed, network,
}
use tss_libp2p.Broadcast.Events.{
  id_of, Ready, request, response_sent, inbound_failure, on_response, on_outbound_failure, to_reply,
  go_on,
}
use tss_libp2p.Broadcast.Delivery.{reply_once}
use tss_libp2p.Broadcast.Arrivals.{on_ready-NeverPanics, NeverPanics}
use tss_libp2p.Broadcast.Pending.{IsNumbered}
use tss_libp2p.Examples.{plain_net, counting, hello}

abbrev room : Name
room = 5 ∷ 6 ∷ []

abbrev idle : Broadcast plain_net
idle = record {
  protocols = (room, (1, none)) ∷ [];
  pending_requests = [];
  pending_responses = [];
  pending_responses_arrival_time = [];
  send_feedback = [];
}

abbrev waiting_for_one : Broadcast plain_net
waiting_for_one = record idle { pending_requests = (id_of room 0, (10, some 4)) ∷ [] }

reply_once_example :
    let (b1, es, _) = on_response 12 true room 1 0 (answer (7 ∷ [])) waiting_for_one in
    let (b2, fs, _) = on_outbound_failure 12 room 1 0 9 waiting_for_one in
    (es ≡ reply 4 (to_reply 1 (answer (7 ∷ []))) ∷ [])
    × (fs ≡ reply 4 (failed (network 9)) ∷ [])
    × ((later : ℕ) (again : Bool) (q : ℕ) (other : Response) (f : ℕ)
        → (on_response later again room q 0 other b1 ≡ (b1, [], go_on))
          × (on_outbound_failure later room q 0 f b1 ≡ (b1, [], go_on))
          × (on_response later again room q 0 other b2 ≡ (b2, [], go_on))
          × (on_outbound_failure later room q 0 f b2 ≡ (b2, [], go_on)))
unfolding HashMap.get bytes_beq id_beq
reply_once_example = reply_once waiting_for_one room 0 10 4 1 (answer (7 ∷ [])) 9 refl 12 true

-- A peer asks twice; the first answer goes out, the second fails.
abbrev two_requests : List (Ready plain_net)
two_requests =
    record { protocol = room; event = request 1 0 hello 30; response_rx = 40; taken = true }
    ∷ record { protocol = room; event = request 1 1 hello 31; response_rx = 41; taken = true }
    ∷ record { protocol = room; event = response_sent 1 0; response_rx = 42; taken = true }
    ∷ record { protocol = room; event = inbound_failure 1 1 5; response_rx = 43; taken = true }
    ∷ []

abbrev no_request : ProtocolRequestId → Bool
no_request k = false

on_ready-NeverPanics_example : NeverPanics 50 two_requests idle
unfolding id_beq bytes_beq
on_ready-NeverPanics_example =
    on_ready-NeverPanics 50 no_request two_requests idle (λ k h. cc) (tt, (tt, (refl, (tt, tt))))

waiting-IsNumbered : IsNumbered counting waiting_for_one
unfolding HashMap.get id_beq counting
waiting-IsNumbered name id rq queue found pending = ground (arith, bytes_beq_iff room name)
