-- ===== src/Broadcast/Poll.antt =====
-- `Broadcast::poll`: what it does with the responses of the application that are ready, and its loops
-- over the events of the behaviours. Which are ready is an argument.
use tss_libp2p.Prelude.{
  nat_beq, ℕ, List, [], ◌∷◌, ◌++◌, Option, some, none, if◌then◌else◌, Bool, true, false,
}
use tss_libp2p.HashMap
use tss_libp2p.Messages.{answer, refused}
use tss_libp2p.Broadcast.{
  Name, name_eq, ProtocolRequestId, id_eq, RequestResponse, OutgoingResponse, PendingResponse, Net,
  Broadcast,
}
use tss_libp2p.Broadcast.Events.{Ready, Step, generate, go_on, id_of, on_event, panicked, pass}

module _ {X : Net} (rr : RequestResponse X) where
  open rr use {send_response}

  -- The feedback channel is kept only for a response that went out.
  keep_feedback :
      Bool
      → Option ℕ
      → ProtocolRequestId
      → List (ProtocolRequestId × ℕ)
      → List (ProtocolRequestId × ℕ)
  keep_feedback false sent_feedback id m = m
  keep_feedback true none id m = m
  keep_feedback true (some tx) id m = HashMap.insert id tx m

  -- The application's answer to a request: `none` if it dropped the channel.
  unfoldable pub on_outcome :
      PendingResponse X → Option OutgoingResponse → Broadcast X → Broadcast X
  unfolding keep_feedback
  on_outcome pending none b = b
  on_outcome pending (some out) b = elim out.result [
    | refused ↦ b
    | answer payload ↦ elim (HashMap.get pending.protocol b.protocols) [
      | none ↦ b
      | some (protocol, queue) ↦
          let (sent, protocol') = send_response protocol pending.inner_channel payload in
          record b {
            protocols = HashMap.insert pending.protocol (protocol', queue) b.protocols;
            send_feedback =
                keep_feedback sent out.sent_feedback (id_of pending.protocol pending.request_id)
                  b.send_feedback;
          }
    ]
  ]

  -- A future that is ready leaves the set.
  without_pending : ℕ → List (PendingResponse X) → List (PendingResponse X)
  without_pending rx [] = []
  without_pending rx (p ∷ ps) =
      let rest = without_pending rx ps in if nat_beq p.response_rx rx then rest else p ∷ rest

  -- `while let Poll::Ready(Some(outcome))`: the answers that are ready.
  unfoldable pub drain_outcomes :
      List (PendingResponse X × Option OutgoingResponse) → Broadcast X → Broadcast X
  unfolding on_outcome without_pending
  drain_outcomes [] b = b
  drain_outcomes ((pending, outcome) ∷ more) b = drain_outcomes more (
      on_outcome pending outcome
        (record b { pending_responses = without_pending pending.response_rx b.pending_responses }))

module _ {X : Net} where
  -- The queue of a protocol, for its requests.
  abbrev pub queue_of : Name → Broadcast X → Option ℕ
  queue_of name b = elim (HashMap.get name b.protocols) [ none ↦ none | some (rq, queue) ↦ queue ]

  unfoldable pub on_ready : ℕ → Ready X → Broadcast X → Step X
  unfolding on_event
  on_ready now r b = on_event now r.response_rx r.taken r.protocol (queue_of r.protocol b) r.event b

  -- The loops over the protocols and their events, up to the first that `poll` returns.
  unfoldable pub poll_events : ℕ → List (Ready X) → Broadcast X → Step X
  unfolding on_ready
  poll_events now [] b = (b, [], go_on)
  poll_events now (r ∷ rs) b =
      let (b1, es, p) = on_ready now r b in
      let (b2, fs, q) = poll_events now rs b1 in
      elim p [
        | go_on ↦ (b2, es ++ fs, q)
        | generate out ↦ (b1, es, generate out)
        | pass a ↦ (b1, es, pass a)
        | panicked ↦ (b1, es, panicked)
      ]

module _ {X : Net} (rr : RequestResponse X) where
  unfoldable pub poll :
      ℕ → List (PendingResponse X × Option OutgoingResponse) → List (Ready X) → Broadcast X → Step X
  unfolding drain_outcomes poll_events
  poll now outcomes events b = poll_events now events (drain_outcomes rr outcomes b)
