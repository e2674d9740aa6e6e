-- ===== src/Examples/Lives.antt =====
-- A request-response behaviour from its start on.
use tss_libp2p.Prelude.{ℕ, ◌≡◌, refl, List, [], ◌∷◌, some, none, bytes_beq}
use tss_libp2p.HashMap
use tss_libp2p.Broadcast.{
  Broadcast, ProtocolConfig, new_config, Name, name_eq, id_eq, id_beq, try_connect, should_connect,
}
use tss_libp2p.Broadcast.Send.{registered, new, register, send_message, send_wire_message, send_by}
use tss_libp2p.Broadcast.Events.{id_of}
use tss_libp2p.Broadcast.Pending.{IsNumbered}
use tss_libp2p.Broadcast.Inject.{Links, HandlerApi, inject_connected, change_each, on_each}
use tss_libp2p.Broadcast.Life.{Injection, Life, begun, sent, told, injected, Life-fresh}
use tss_libp2p.Examples.{plain_net, counting, hello}

abbrev plain_links : Links
plain_links = record {
  Handler = ℕ;
  MultiHandler = List (Name × ℕ);
  Multiaddr = ℕ;
  ConnectionId = ℕ;
  ConnectedPoint = ℕ;
  HandlerEvent = ℕ;
  DialError = ℕ;
  ListenerId = ℕ;
  ListenError = ℕ;
}

-- The behaviours only count their requests.
abbrev unmoved : HandlerApi counting plain_links
unmoved = record {
  new_handler = λ r. (r, r);
  inject = λ t r. r;
  try_from_iter = λ hs. some hs;
  new_handler-keeps = λ r k h. h;
  inject-keeps = λ t r k h. h;
}

abbrev one_room : List ProtocolConfig
one_room = new_config (5 ∷ 6 ∷ []) none ∷ []

abbrev started : Broadcast plain_net
started = record {
  protocols = (5 ∷ 6 ∷ [], (0, none)) ∷ [];
  pending_requests = [];
  pending_responses = [];
  pending_responses_arrival_time = [];
  send_feedback = [];
}

started_so : new counting one_room ≡ registered started
unfolding new register counting new_config HashMap.get HashMap.insert
started_so = refl

abbrev asked_one : Broadcast plain_net
asked_one = record started {
  protocols = (5 ∷ 6 ∷ [], (1, none)) ∷ [];
  pending_requests = (id_of (5 ∷ 6 ∷ []) 0, (3, some 40)) ∷ [];
}

-- A peer is connected, and asked.
one_life : Life unmoved started asked_one
unfolding counting send_message send_wire_message send_by injected inject_connected change_each
    on_each unmoved HashMap.get HashMap.insert bytes_beq id_beq should_connect
one_life =
    sent 3 1 (5 ∷ 6 ∷ []) hello.context (7 ∷ []) 40 try_connect (told (Injection.connected 1) begun)

Life-fresh_example :
    IsNumbered counting asked_one
    × (HashMap.get (id_of (5 ∷ 6 ∷ []) 1) asked_one.pending_requests ≡ none)
unfolding counting HashMap.get bytes_beq
Life-fresh_example =
    Life-fresh unmoved one_room started asked_one 1 (5 ∷ 6 ∷ []) hello 1 none started_so one_life
      refl
