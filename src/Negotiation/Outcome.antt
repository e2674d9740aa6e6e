-- ===== src/Negotiation/Outcome.antt =====
-- The run of a negotiation: it begins the computation with the first `n` peers, and not before.
use mathlib.Core.List.{not-mem-nil, Nodup-cons, Nodup-nil}
use tss_libp2p.Prelude.{
  ℕ, ◌+◌, ◌%◌, if◌then◌else◌, ◌≤◌, ◌<◌, ◌≡◌, refl, ap, ◌∙◌, arith, List, [], ◌∷◌, ◌++◌, length,
  some, none, Bool, true, false, Nodup, ℕ_discrete,
}
use tss_libp2p.Peer.{PeerApi}
use tss_libp2p.Io.{IoResult, ok, ◌>>=◌}
use tss_libp2p.Varint.{VarintApi}
use tss_libp2p.Broadcast.{Net}
use tss_libp2p.Service.{RoomId, NetworkService, NetworkMessage, to_all}
use tss_libp2p.Rooms.{ComputeAgent}
use tss_libp2p.Negotiation.{
  NegotiationState, NegotiationChan, NegotiationInput, NegotiationPoll, new_negotiation,
  run_negotiation, negotiate, ask, wait, context_of,
}
use tss_libp2p.Negotiation.Members.{join, joined, InTime, length-join, Nodup-join, length-joined}
use tss_libp2p.Negotiation.Quorum.{
  Begins, collecting, receive_short, negotiate-receive, receive_full,
}

if_false : {A : Type 0} (b : Bool) (x y : A) → b ≡ false → (if b then x else y) ≡ y
if_false true x y h = cc
if_false false x y h = refl

-- The message by which all peers are asked.
abbrev pub question : {P : Type 0} → RoomId → ComputeAgent → ℕ → NetworkMessage P
question room agent tx = record {
  room_id = room;
  context = context_of agent;
  message = to_all [] (some tx);
}

module _ {X : Net} ⦃api : PeerApi X.PeerId⦄ (varint : VarintApi) where
  -- The computation begins at the poll `last`, whose reply is the first to make the number: with the
  -- peers that have joined by then, each once.
  pub record Begun (rx : ℕ) (agent : ComputeAgent) (st : NegotiationState X.PeerId)
      (pending : List (NetworkMessage X.PeerId)) (peers : List X.PeerId)
      (inputs : List (NegotiationInput X)) (out : IoResult (NegotiationPoll X.PeerId))
      : Type 0 where
    pub before : List (NegotiationInput X)
    pub last : NegotiationInput X
    pub after : List (NegotiationInput X)
    pub split : inputs ≡ before ++ (last ∷ after)
    pub too_few : length (joined before peers) < st.n
    pub enough : length (join last.reply (joined before peers)) ≡ st.n
    pub apart : Nodup (join last.reply (joined before peers))
    pub begins : Begins varint rx agent st pending (join last.reply (joined before peers)) last out

  module _ (rx : ℕ) (agent : ComputeAgent) (st : NegotiationState X.PeerId) where
    -- A poll that waits, before the others.
    run_short :
        (i : NegotiationInput X) (is : List (NegotiationInput X))
        (pending : List (NetworkMessage X.PeerId)) (chan after : NegotiationChan X.PeerId)
        → negotiate varint i chan ≡ ok (after, pending, none)
        → run_negotiation varint (i ∷ is) chan
          ≡ (run_negotiation varint is after >>= λ q. ok (q.0, pending ++ q.1, q.2))
    unfolding run_negotiation
    run_short i is pending chan after h = rw h refl

    run_waits :
        (chan : ℕ × ℕ) (inputs : List (NegotiationInput X))
        (pending : List (NetworkMessage X.PeerId)) (peers : List X.PeerId)
        → st.responses ≡ some chan
        → InTime inputs
        → length (joined inputs peers) < st.n
        → (end : NegotiationChan X.PeerId) × (sent : List (NetworkMessage X.PeerId))
          × (run_negotiation varint inputs (collecting rx agent st pending peers)
              ≡ ok (end, sent, none))
    unfolding run_negotiation
    run_waits chan [] pending peers asked in_time few = (_, _, refl)
    run_waits chan (i ∷ is) pending peers asked (now, later) few =
        let peers1 = join i.reply peers in
        let (end, sent, rest) = run_waits chan is [] peers1 asked later few in
        let first =
          receive_short varint rx agent st i.reply i pending peers now
            (λ e. omega (arith, length-joined is peers1)) in
        (
          end,
          pending ++ sent,
          rw
              (
                run_short i is pending (collecting rx agent st pending peers)
                    (collecting rx agent st [] peers1)
                    (negotiate-receive varint rx agent st chan i pending peers asked ∙ first),
                rest,
              )
              refl,
        )

    run_begins :
        (chan : ℕ × ℕ) (inputs : List (NegotiationInput X))
        (pending : List (NetworkMessage X.PeerId)) (peers : List X.PeerId)
        → st.responses ≡ some chan
        → InTime inputs
        → Nodup peers
        → length peers < st.n
        → st.n ≤ length (joined inputs peers)
        → Begun rx agent st pending peers inputs
            (run_negotiation varint inputs (collecting rx agent st pending peers))
    unfolding run_negotiation
    run_begins chan [] pending peers asked in_time apart few enough = absurd (omega arith)
    run_begins chan (i ∷ is) pending peers asked (now, later) apart few enough =
        let peers1 = join i.reply peers in
        let poll = negotiate-receive varint rx agent st chan i pending peers asked in
        elim (ℕ_discrete (length peers1) st.n) [
          | yes full ↦
              let b = receive_full varint rx agent st i.reply i pending peers few full in
              record {
                before = [];
                last = i;
                after = is;
                split = refl;
                too_few = few;
                enough = full;
                apart = Nodup-join i.reply peers apart;
                begins = record {
                  payload = b.payload;
                  encoded = b.encoded;
                  result = rw (poll, b.result) refl;
                };
              }
          | no short ↦
              let first = receive_short varint rx agent st i.reply i pending peers now short in
              let rest =
                run_begins chan is [] peers1 asked later (Nodup-join i.reply peers apart)
                  (omega (arith, length-join i.reply peers)) enough in
              let step =
                run_short i is pending (collecting rx agent st pending peers)
                  (collecting rx agent st [] peers1) (poll ∙ first) in
              record {
                before = i ∷ rest.before;
                last = rest.last;
                after = rest.after;
                split = ap (◌∷◌ i) rest.split;
                too_few = rest.too_few;
                enough = rest.enough;
                apart = rest.apart;
                begins = record {
                  payload = rest.begins.payload;
                  encoded = rest.begins.encoded;
                  result = rw (step, rest.begins.result) refl;
                };
              }
        ]

  -- The state after the first poll, which asks all peers.
  abbrev pub asked_state :
      RoomId
      → ℕ
      → List ℕ
      → NetworkService X.PeerId
      → ComputeAgent
      → ℕ
      → NegotiationInput X
      → NegotiationState X.PeerId
  asked_state room n args service agent on_done i = record {
    id = room;
    n = n;
    args = args;
    service = service;
    peers = [];
    responses = some (i.responses_chan, (n + 65535) % 65536);
    pending = [];
    on_done = on_done;
  }

  first_poll :
      (room : RoomId) (room_rx n : ℕ) (args : List ℕ) (service : NetworkService X.PeerId)
      (agent : ComputeAgent) (on_done : ℕ) (i : NegotiationInput X)
      → i.is_over ≡ false
      → negotiate varint i (new_negotiation room room_rx n args service agent on_done)
        ≡ ok (
          collecting room_rx agent
              (asked_state room n args service agent on_done i)
              (question room agent i.responses_chan ∷ [])
              (service.local_peer_id ∷ []),
          [],
          none,
        )
  unfolding negotiate ask wait new_negotiation
  first_poll room room_rx n args service agent on_done i now = if_false i.is_over _ _ now

  -- A negotiation for at least two parties, none of whose polls finds the interval over: if fewer than
  -- `n` peers have joined, the proposer counted, it gives no output; if `n` have, it has asked all peers
  -- and then begins the computation, at the first reply that makes the number `n`, with the peers that
  -- have joined by then, each once, to whom it sends the start message.
  pub negotiation_outcome :
      (room : RoomId) (room_rx n : ℕ) (args : List ℕ) (service : NetworkService X.PeerId)
      (agent : ComputeAgent) (on_done : ℕ) (first : NegotiationInput X)
      (inputs : List (NegotiationInput X))
      → 2 ≤ n
      → first.is_over ≡ false
      → InTime inputs
      → let run =
          run_negotiation varint
            (first ∷ inputs)
            (new_negotiation room room_rx n args service agent on_done) in
        let members = joined inputs (service.local_peer_id ∷ []) in
        (length members < n
          → (end : NegotiationChan X.PeerId) × (sent : List (NetworkMessage X.PeerId)) × (run
              ≡ ok (end, sent, none)))
        × (n ≤ length members
            → Begun room_rx agent
                (asked_state room n args service agent on_done first)
                (question room agent first.responses_chan ∷ [])
                (service.local_peer_id ∷ [])
                inputs
                run)
  unfolding new_negotiation
  negotiation_outcome room room_rx n args service agent on_done first inputs two now later =
      let st = asked_state room n args service agent on_done first in
      let q = question room agent first.responses_chan in
      let start_chan = new_negotiation room room_rx n args service agent on_done in
      let asks : negotiate varint first start_chan
          ≡ ok (collecting room_rx agent st (q ∷ []) (service.local_peer_id ∷ []), [], none) =
        first_poll room room_rx n args service agent on_done first now in
      let step =
        run_short room_rx agent st first inputs [] start_chan
          (collecting room_rx agent st (q ∷ []) (service.local_peer_id ∷ [])) asks in
      (
        λ few.
            let (end, sent, rest) =
              run_waits room_rx agent st (first.responses_chan, (n + 65535) % 65536) inputs (q ∷ [])
                (service.local_peer_id ∷ []) refl later few in
            (end, sent, step ∙ ap (λ r. r >>= λ v. ok (v.0, v.1, v.2)) rest),
        λ enough.
            let b =
              run_begins room_rx agent st (first.responses_chan, (n + 65535) % 65536) inputs
                (q ∷ []) (service.local_peer_id ∷ []) refl later
                (Nodup-cons.1 (not-mem-nil, Nodup-nil)) (omega arith) enough in
            record {
              before = b.before;
              last = b.last;
              after = b.after;
              split = b.split;
              too_few = b.too_few;
              enough = b.enough;
              apart = b.apart;
              begins = record {
                payload = b.begins.payload;
                encoded = b.begins.encoded;
                result = step ∙ ap (λ r. r >>= λ v. ok (v.0, v.1, v.2)) b.begins.result;
              };
            },
      )
