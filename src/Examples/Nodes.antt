-- ===== src/Examples/Nodes.antt =====
-- A node with one boot peer: its discovery, its start, its key and its addresses.
use tss_libp2p.Prelude.{
  true, Nodup, ℕ, ◌≡◌, ◌||◌, refl, arith, List, [], ◌∷◌, Option, some, none, true, false, bytes_beq,
  replicate,
}
use tss_libp2p.Io.{ok}
use tss_libp2p.HashMap
use tss_libp2p.HashSet.{contains}
use tss_libp2p.Broadcast.{Name, name_eq}
use tss_libp2p.Broadcast.Pending.{IsNumbered}
use tss_libp2p.Service.{as_protocol_id, NetworkService}
use tss_libp2p.Config.{MultiaddrWithPeerId, RoomArgs, Params}
use tss_libp2p.Config.Keys.{
  KeyApi, or_generated, file, Keypair, ed25519, other_curve, into_keypair, write_secret_file,
  get_secret,
}
use tss_libp2p.Config.Files.{Files, read_file, create_new, past_file, is_directory}
use tss_libp2p.Config.Keys.Kept.{into_keypair_stable}
use tss_libp2p.Discovery.{Swarm, SwarmApi, DiscoveryOut, DiscoveryBehaviour, boot_peers_of}
use tss_libp2p.Discovery
use tss_libp2p.Discovery.Run.{
  Call, connect, disconnect, establish, close, ask_addresses, ask_poll, run,
}
use tss_libp2p.Discovery.Refine.{View, Shows, seen_all, run-Shows}
use tss_libp2p.Discovery.Known.{is_boot, was_connected}
use tss_libp2p.Behaviour.{Behaviour, over, peers, on_request, service_broadcast}
use tss_libp2p.Behaviour.Reach.{on_request_reach}
use tss_libp2p.Broadcast.Many.{SentToEach}
use tss_libp2p.Examples.{numbered_peers, plain_net, counting, hello}

abbrev pub plain_swarm : Swarm
plain_swarm = record {
  PeerId = ℕ;
  Multiaddr = List ℕ;
  Kad = List ℕ;
  Mdns = ℕ;
  QueryId = ℕ;
  KadHandler = ℕ;
  KadEvent = ℕ;
  KadIn = ℕ;
  MdnsHandler = ℕ;
  MdnsIn = ℕ;
  Condition = ℕ;
  ConnectionId = ℕ;
  ConnectedPoint = ℕ;
  Closing = ℕ;
  Score = ℕ;
  ListenerId = ℕ;
  DialError = ℕ;
  ListenError = ℕ;
}

abbrev pub both : Swarm
both = over plain_net plain_swarm

-- Kademlia notes the peers whose addresses it is told.
abbrev pub noting : SwarmApi both
noting = record {
  with_config = λ p. [];
  add_address = λ p a kad. p ∷ kad;
  bootstrap = λ kad. (none, kad);
  kad_addresses = λ p kad. ([], kad);
  mdns_addresses = λ p mdns. ([], mdns);
  inject = λ call kad. kad;
}

abbrev boot : MultiaddrWithPeerId ℕ (List ℕ)
boot = record { multiaddr = 127 ∷ []; peer_id = 1 }

abbrev hall : RoomArgs ℕ (List ℕ)
hall = record { id = 5 ∷ []; max_size = 4; boot_peers = boot ∷ []; inbound_queue = some 70 }

abbrev one_boot : Params ℕ (List ℕ)
one_boot = record { listen_address = []; mdns = false; kademlia = true; rooms = hall ∷ [] }

-- Peer 2 comes and goes, with a poll after each.
abbrev visit : List (Call both)
visit =
    establish 2 0 0 none
    ∷ connect 2
    ∷ ask_poll [] []
    ∷ close 2 0 0 0
    ∷ disconnect 2
    ∷ ask_addresses 2
    ∷ ask_poll [] []
    ∷ []

abbrev fresh_discovery : DiscoveryBehaviour both
fresh_discovery = Discovery.started noting 9 one_boot none

abbrev nobody_yet : DiscoveryBehaviour both
nobody_yet = record {
  user_defined = [];
  kademlia = none;
  mdns = none;
  pending_events = [];
  num_connections = 0;
  peers = [];
  peer_addresses = [];
}

abbrev nobody_view : View ℕ
nobody_view = record { known = λ p. false; queue = []; connections = 0 }

nobody-Shows : Shows {X = both} nobody_yet nobody_view
unfolding contains
nobody-Shows = record { known = λ p. refl; queue = refl; connections = refl }

-- The two polls of the visit tell of the connection, then of its end.
run-Shows_example :
    ((run noting visit nobody_yet).0
      ≡ none
        ∷ none
        ∷ some (DiscoveryOut.connected 2)
        ∷ none
        ∷ none
        ∷ none
        ∷ some (DiscoveryOut.disconnected 2)
        ∷ [])
    × Shows {X = both} (run noting visit nobody_yet).1 (seen_all visit nobody_view).1
unfolding seen_all
run-Shows_example = run-Shows noting visit nobody_yet nobody_view nobody-Shows

abbrev node : Behaviour plain_net plain_swarm
node = record {
  discovery = (run noting visit fresh_discovery).1;
  broadcast = record {
    protocols = (as_protocol_id (5 ∷ []), (1, none)) ∷ [];
    pending_requests = [];
    pending_responses = [];
    pending_responses_arrival_time = [];
    send_feedback = [];
  };
  events = [];
}

node-IsNumbered : IsNumbered counting node.broadcast
unfolding HashMap.get
node-IsNumbered name id rq queue found pending = ground arith

abbrev at_node : NetworkService ℕ
at_node = record { local_peer_id = 9 }

-- Without mDNS nothing has to start.
made_fresh : Discovery.new noting 9 one_boot none ≡ ok fresh_discovery
unfolding Discovery.new
made_fresh = refl

on_request_reach_example :
    let (b1, es) =
      on_request counting 3 (service_broadcast at_node (5 ∷ []) hello.context (6 ∷ []) none) node in
    (es ≡ [])
    × SentToEach counting 3
        (as_protocol_id (5 ∷ []))
        (record { context = hello.context; payload = 6 ∷ []; is_broadcast = true })
        none
        1
        none
        (peers (5 ∷ []) node)
        node.broadcast
        b1.broadcast
    × Nodup (peers (5 ∷ []) node)
    × ((p : ℕ)
        → contains p (peers (5 ∷ []) node)
          ≡ (is_boot p (boot_peers_of one_boot.rooms) || was_connected {X = both} p visit))
unfolding HashMap.get bytes_beq as_protocol_id
on_request_reach_example =
    on_request_reach counting noting 9 one_boot none fresh_discovery visit node at_node 3 (5 ∷ [])
      hello.context (6 ∷ []) none none 1 made_fresh refl node-IsNumbered refl

-- A key is its first byte.
abbrev pub first_of : List ℕ → Option ℕ
first_of [] = none
first_of (b ∷ bs) = some b

abbrev pub plain_keys : KeyApi ℕ
plain_keys = record {
  from_bytes = first_of;
  to_bytes = λ k. k ∷ replicate 31 0;
  is_utf8 = λ bs. false;
  hex_decode = λ bs. none;
  from_bytes-to_bytes = λ k. refl;
  length-to_bytes = λ k. refl;
}

abbrev pub who_of : Keypair ℕ → ℕ
who_of (ed25519 k) = k
who_of other_curve = 0

abbrev pub no_files : Files
no_files = []

abbrev key_path : Name
key_path = 107 ∷ []

abbrev one_file : Files
one_file = (key_path, 33 ∷ replicate 31 0) ∷ []

made_key : into_keypair plain_keys (file key_path) 33 no_files ≡ ok (ed25519 33, one_file)
unfolding into_keypair get_secret or_generated write_secret_file read_file create_new past_file
    is_directory HashMap.get HashMap.insert
made_key = refl

into_keypair_stable_example :
    into_keypair plain_keys (file key_path) 44 one_file ≡ ok (ed25519 33, one_file)
into_keypair_stable_example =
    into_keypair_stable plain_keys key_path 33 44 no_files one_file (ed25519 33) made_key
