-- ===== src/Broadcast/Events.antt =====
-- `Broadcast::poll`: what it does with an event of a request-response behaviour. The assertions of a
-- debug build are left out.
use tss_libp2p.Prelude.{ℕ, ◌-◌, List, [], ◌∷◌, Option, some, none, if◌then◌else◌, Bool}
use tss_libp2p.HashMap
use tss_libp2p.Messages.{WireMessage, Response, answer, refused}
use tss_libp2p.Broadcast.{
  Name, name_eq, ProtocolRequestId, id_eq, RequestFailure, network, obsolete, RequestResponse,
  OutgoingResponse, IncomingMessage, PendingResponse, Net, Broadcast, Reply, replied, failed,
  Effect, reply, message, feedback,
}
use tss_libp2p.Broadcast

-- `BroadcastOut`.
pub data BroadcastOut (X : Net) : Type 0 where
  inbound_answered : X.PeerId → Name → ℕ → BroadcastOut X
  inbound_failed : X.PeerId → Name → X.InboundFailure → BroadcastOut X
  finished : X.PeerId → Name → ℕ → BroadcastOut X
  unfinished : X.PeerId → Name → ℕ → RequestFailure X → BroadcastOut X

-- `RequestResponseEvent`, and the other actions of a behaviour, which are passed through.
pub data Event (X : Net) : Type 0 where
  request : X.PeerId → ℕ → WireMessage → X.Channel → Event X
  response : X.PeerId → ℕ → Response → Event X
  outbound_failure : X.PeerId → ℕ → X.OutboundFailure → Event X
  inbound_failure : X.PeerId → ℕ → X.InboundFailure → Event X
  response_sent : X.PeerId → ℕ → Event X
  other_action : X.Action → Event X

-- How an event ends: the loop goes on, `poll` returns, or it panics.
pub data Polled (X : Net) : Type 0 where
  go_on : Polled X
  generate : BroadcastOut X → Polled X
  pass : X.Action → Polled X
  panicked : Polled X

abbrev pub id_of : Name → ℕ → ProtocolRequestId
id_of protocol request_id = record { protocol = protocol; request_id = request_id }

-- An event that is ready, with the behaviour it comes from, the channel that a request gets, and
-- whether the channel of a reply takes it.
pub record Ready (X : Net) : Type 0 where
  pub protocol : Name
  pub event : Event X
  pub response_rx : ℕ
  pub taken : Bool

-- The new state, what reaches the channels, and how the event ended.
abbrev pub Step : Net → Type 0
Step X = Broadcast X × List (Effect X) × Polled X

module _ {X : Net} where
  -- A request from a peer: its time is noted, the message goes to the queue of the protocol, if it has
  -- one, with a new channel `rx`, and the response on that channel is awaited.
  unfoldable pub on_request :
      ℕ → ℕ → Name → Option ℕ → X.PeerId → ℕ → WireMessage → X.Channel → Broadcast X → Step X
  on_request now rx protocol resp_builder peer request_id req channel b = (
    record b {
      pending_responses_arrival_time =
          HashMap.insert (id_of protocol request_id) now b.pending_responses_arrival_time;
      pending_responses =
          record {
            peer = peer;
            request_id = request_id;
            protocol = protocol;
            inner_channel = channel;
            response_rx = rx;
          }
          ∷ b.pending_responses;
    },
    elim resp_builder [
      | none ↦ []
      | some queue ↦
          message queue (record {
            peer_id = peer;
            peer_index = 0;
            is_broadcast = req.is_broadcast;
            payload = req.payload;
            context = req.context;
            pending_response = rx;
          })
          ∷ []
    ],
    go_on,
  )

  abbrev pub to_reply : X.PeerId → Response → Reply X
  to_reply peer (answer r) = replied peer r
  to_reply peer refused = failed Broadcast.refused

  -- What is said to the statistics: `taken` tells whether the channel took the reply.
  abbrev pub delivered : Bool → X.PeerId → Name → ℕ → Option ℕ → BroadcastOut X
  delivered taken peer protocol duration none = finished peer protocol duration
  delivered taken peer protocol duration (some tx) =
      if taken then finished peer protocol duration else unfinished peer protocol duration obsolete

  abbrev pub offer : Option ℕ → Reply X → List (Effect X)
  offer none r = []
  offer (some tx) r = reply tx r ∷ []

  -- A response to one of our requests.
  unfoldable pub on_response : ℕ → Bool → Name → X.PeerId → ℕ → Response → Broadcast X → Step X
  on_response now taken protocol peer request_id res b =
      elim (HashMap.get (id_of protocol request_id) b.pending_requests) [
        | none ↦ (b, [], go_on)
        | some (started, pending_response) ↦ (
          record b {
            pending_requests = HashMap.remove (id_of protocol request_id) b.pending_requests;
          },
          offer pending_response (to_reply peer res),
          generate (delivered taken peer protocol (now - started) pending_response),
        )
      ]

  -- One of our requests has failed.
  unfoldable pub on_outbound_failure :
      ℕ → Name → X.PeerId → ℕ → X.OutboundFailure → Broadcast X → Step X
  on_outbound_failure now protocol peer request_id error b =
      elim (HashMap.get (id_of protocol request_id) b.pending_requests) [
        | none ↦ (b, [], go_on)
        | some (started, pending_response) ↦ (
          record b {
            pending_requests = HashMap.remove (id_of protocol request_id) b.pending_requests;
          },
          offer pending_response (failed (network error)),
          generate (unfinished peer protocol (now - started) (network error)),
        )
      ]

  -- A request from a peer has failed, while it was read or when the response was sent.
  unfoldable pub on_inbound_failure : Name → X.PeerId → ℕ → X.InboundFailure → Broadcast X → Step X
  on_inbound_failure protocol peer request_id error b = (
    record b {
      pending_responses_arrival_time =
          HashMap.remove (id_of protocol request_id) b.pending_responses_arrival_time;
      send_feedback = HashMap.remove (id_of protocol request_id) b.send_feedback;
    },
    [],
    generate (inbound_failed peer protocol error),
  )

  abbrev pub feed_back : Option ℕ → List (Effect X)
  feed_back none = []
  feed_back (some tx) = feedback tx ∷ []

  -- Our response has been sent. Its request is expected to have an arrival time.
  unfoldable pub on_response_sent : ℕ → Name → X.PeerId → ℕ → Broadcast X → Step X
  on_response_sent now protocol peer request_id b =
      elim (HashMap.get (id_of protocol request_id) b.pending_responses_arrival_time) [
        | none ↦ (b, [], panicked)
        | some arrival ↦ (
          record b {
            pending_responses_arrival_time =
                HashMap.remove (id_of protocol request_id) b.pending_responses_arrival_time;
            send_feedback = HashMap.remove (id_of protocol request_id) b.send_feedback;
          },
          feed_back (HashMap.get (id_of protocol request_id) b.send_feedback),
          generate (inbound_answered peer protocol (now - arrival)),
        )
      ]

  -- One event of the behaviour of `protocol`. `rx` is the channel that a request gets.
  unfoldable pub on_event : ℕ → ℕ → Bool → Name → Option ℕ → Event X → Broadcast X → Step X
  unfolding on_request on_response on_outbound_failure on_inbound_failure on_response_sent
  on_event now rx taken protocol queue (request peer id req channel) b =
      on_request now rx protocol queue peer id req channel b
  on_event now rx taken protocol queue (response peer id res) b =
      on_response now taken protocol peer id res b
  on_event now rx taken protocol queue (outbound_failure peer id error) b =
      on_outbound_failure now protocol peer id error b
  on_event now rx taken protocol queue (inbound_failure peer id error) b =
      on_inbound_failure protocol peer id error b
  on_event now rx taken protocol queue (response_sent peer id) b =
      on_response_sent now protocol peer id b
  on_event now rx taken protocol queue (other_action action) b = (b, [], pass action)
