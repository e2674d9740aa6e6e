-- ===== src/Echo.antt =====
-- node/runtime/src/echo.rs: the echo broadcast. The channel `rx` is the list of the messages that
-- arrive on it, a one-shot or response channel a number, and `Blake2s256` a function of all the bytes
-- that were written to it. An `.await` on a channel that has nothing more is `waiting`.
pub mod Order
pub mod Check
pub mod Agreement
pub mod Limits
use tss_libp2p.Prelude.{
  ℕ, suc, ◌+◌, ◌-◌, ◌%◌, List, [], ◌∷◌, ◌++◌, map, length, nat_beq, if◌then◌else◌, Bool, true,
  false, Option, some, none, sort, descending, bytes_beq, ◌&&◌,
}

pub data EchoResponse : Type 0 where
  incoming : ℕ → EchoResponse
  outgoing : ℕ → EchoResponse

pub record EchoMessage : Type 0 where
  pub sender : ℕ
  pub payload : List ℕ
  pub response : EchoResponse

-- `msgs` is a binary heap by `sender`: its content in any order.
pub record EchoGadget : Type 0 where
  pub r : ℕ
  pub n : ℕ
  pub msgs : List EchoMessage

unfoldable pub new : ℕ → EchoGadget
new n = record { r = 0; n = n; msgs = [] }

-- What arrives on a response channel: a peer with its echo, or a failure.
pub data Reply (PeerId Failure : Type 0) : Type 0 where
  echo : PeerId → List ℕ → Reply PeerId Failure
  failure : Failure → Reply PeerId Failure

-- The errors of a round.
pub data EchoError (Failure : Type 0) : Type 0 where
  inconsistent_echo : ℕ → EchoError Failure
  echo_failed : Failure → EchoError Failure

pub data Awaited {ℓ} (A : Type ℓ) : Type ℓ where
  waiting : Awaited A
  ready : A → Awaited A

-- The loop that fills the heap: messages are pushed until there are `n`.
unfoldable pub gather :
    ℕ → List EchoMessage → List EchoMessage → Awaited (List EchoMessage × List EchoMessage)
gather n msgs [] = waiting
gather n msgs (msg ∷ rx) =
    let more = gather n (msg ∷ msgs) rx in
    if nat_beq (length (msg ∷ msgs)) n then ready (msg ∷ msgs, rx) else more

-- `pop` gives the greatest sender first; which of two equal senders comes first is not specified.
abbrev pub popped : List EchoMessage → List EchoMessage
popped = sort (descending (λ m. m.sender))

-- The loop over the popped messages: what the hasher has got, and the channels found.
unfoldable pub hashed : List EchoMessage → List ℕ
hashed [] = []
hashed (msg ∷ msgs) = msg.payload ++ hashed msgs

unfoldable pub incoming_acks : List EchoMessage → List ℕ
incoming_acks [] = []
incoming_acks (msg ∷ msgs) = elim msg.response [
  | incoming tx ↦ tx ∷ incoming_acks msgs
  | outgoing rx ↦ incoming_acks msgs
]

-- Each outgoing channel replaces the one before.
unfoldable pub outgoing_rx : Option ℕ → List EchoMessage → Option ℕ
outgoing_rx found [] = found
outgoing_rx found (msg ∷ msgs) = elim msg.response [
  | incoming tx ↦ outgoing_rx found msgs
  | outgoing rx ↦ outgoing_rx (some rx) msgs
]

module _ {PeerId Failure : Type 0} where
  -- The loop that collects `n - 1` replies; the count is compared after each.
  unfoldable pub collect :
      ℕ
      → List (Reply PeerId Failure)
      → List (Reply PeerId Failure)
      → Awaited (List (Reply PeerId Failure))
  collect wanted got [] = waiting
  collect wanted got (reply ∷ replies) =
      let more = collect wanted (got ++ (reply ∷ [])) replies in
      if nat_beq (length got + 1) wanted then ready (got ++ (reply ∷ [])) else more

  -- The loop over the replies, from position `index` on: the first that fails or differs.
  unfoldable pub check : List ℕ → ℕ → List (Reply PeerId Failure) → Option (EchoError Failure)
  check echo_hash index [] = none
  check echo_hash index (echo peer hash ∷ replies) =
      if bytes_beq hash echo_hash
      then check echo_hash (suc index) replies
      else some (inconsistent_echo (index % 65536))
  check echo_hash index (failure e ∷ replies) = some (echo_failed e)

-- How far a round has come: the heap is not full; the acknowledgements are sent and replies are
-- missing; the round is over, with the next state and the unread messages, or with an error; a panic.
pub data Round (Failure : Type 0) : Type 0 where
  filling : Round Failure
  listening : List (ℕ × List ℕ) → Round Failure
  proceeded : EchoGadget → List (ℕ × List ℕ) → List EchoMessage → Round Failure
  failed : EchoError Failure → List (ℕ × List ℕ) → Round Failure
  panicked : Round Failure

abbrev pub all_open : (ℕ → Bool) → List ℕ → Bool
all_open tx_open [] = true
all_open tx_open (tx ∷ txs) = tx_open tx && all_open tx_open txs

-- The hash goes to every sender.
abbrev pub acks : List ℕ → List ℕ → List (ℕ × List ℕ)
acks echo_hash txs = map (λ tx. (tx, echo_hash)) txs

-- The last loop, and the count of the rounds, a `u16`.
unfoldable pub judge :
    {PeerId Failure : Type 0}
    → EchoGadget
    → List EchoMessage
    → List ℕ
    → List (ℕ × List ℕ)
    → List (Reply PeerId Failure)
    → Round Failure
judge g rest echo_hash sent got = elim (check echo_hash 0 got) [
  | none ↦ proceeded (record g { r = (g.r + 1) % 65536; msgs = [] }) sent rest
  | some e ↦ failed e sent
]

-- `digest` is the hash function, `tx_open` tells whether the receiver of a one-shot channel is still
-- there, and `replies` is what has arrived on a response channel.
module _ {PeerId Failure : Type 0} (digest : List ℕ → List ℕ) (tx_open : ℕ → Bool)
    (replies : ℕ → List (Reply PeerId Failure)) where
  -- From the popped messages on. A message of our own and open channels are expected.
  unfoldable pub answer : EchoGadget → List EchoMessage → List EchoMessage → Round Failure
  unfolding judge
  answer g rest order =
      let echo_hash = digest (hashed order) in
      let txs = incoming_acks order in
      elim (outgoing_rx none order) [
        | none ↦ panicked
        | some rx ↦
            if all_open tx_open txs
            then (elim (collect (g.n - 1) [] (replies rx)) [
              | waiting ↦ listening (acks echo_hash txs)
              | ready got ↦ judge g rest echo_hash (acks echo_hash txs) got
            ])
            else panicked
      ]

  unfoldable pub proceed_round : EchoGadget → List EchoMessage → Round Failure
  unfolding answer
  proceed_round g rx = elim (gather g.n g.msgs rx) [
    | waiting ↦ filling
    | ready (msgs, rest) ↦ answer g rest (popped msgs)
  ]

-- What `select!` takes next in `wrap_execution`: the end of a round, or the end of the computation
-- with its result.
pub data Selected (Failure Outcome : Type 0) : Type 0 where
  echoed : Option (EchoError Failure) → Selected Failure Outcome
  computed : Outcome → Selected Failure Outcome

-- `none` is `Ok(())`. The result of the computation is not looked at.
unfoldable pub wrap_execution :
    {Failure Outcome : Type 0}
    → List (Selected Failure Outcome)
    → Awaited (Option (EchoError Failure))
wrap_execution [] = waiting
wrap_execution (echoed none ∷ events) = wrap_execution events
wrap_execution (echoed (some e) ∷ events) = ready (some e)
wrap_execution (computed res ∷ events) = ready none
