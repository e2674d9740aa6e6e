-- ===== src/Echo/Agreement.antt =====
-- What the echo of a round establishes.
use mathlib.Core.List.{filter_map}
use mathlib.Core.List.Perm
use tss_libp2p.Prelude.{
  ℕ, ◌+◌, ◌-◌, ◌%◌, ◌≡◌, ◌≢◌, ◌↔◌, sym, ap, ◌∙◌, List, [], ◌∷◌, ◌++◌, map, arith, Perm, Nodup,
  length, ◌≤◌, append-nil, All, Bool, true, some, none, length-perm, Option, subst, sort-perm,
  descending, refl,
}
use tss_libp2p.Echo.{
  EchoMessage, incoming, outgoing, EchoGadget, Reply, echo, failure, inconsistent_echo, echo_failed,
  ready, gather, collect, check, hashed, incoming_acks, outgoing_rx, popped, acks, all_open, judge,
  answer, proceed_round, proceeded, failed,
}
use tss_libp2p.Echo.Order.{gather_fills, popped_of_perm, senders, said, hashed_of_said}
use native.Mathlib.Nat.{zero-add}
use tss_libp2p.Echo.Check.{Echoes, check-All, check_first, collect_fills}

-- A round in which everything arrives: one message from each of the `n` parties, the node's own with
-- its response channel, the senders waiting for their acknowledgements, and `n - 1` replies.
pub record Arrives {PeerId Failure : Type 0} (tx_open : ℕ → Bool)
    (replies : ℕ → List (Reply PeerId Failure)) (g : EchoGadget) (xs : List EchoMessage)
    (got : List (Reply PeerId Failure)) : Type 0 where
  pub fresh : g.msgs ≡ []
  pub all_sent : length xs ≡ g.n
  pub several : 2 ≤ g.n
  pub one_each : Nodup (senders xs)
  pub own : ℕ
  pub own_found : outgoing_rx none (popped xs) ≡ some own
  pub acks_open : all_open tx_open (incoming_acks (popped xs)) ≡ true
  pub later : List (Reply PeerId Failure)
  pub replied : replies own ≡ got ++ later
  pub enough : length got + 1 ≡ g.n

-- What a sender is owed: the hash, on the channel on which it waits.
abbrev pub owed : List ℕ → EchoMessage → Option (ℕ × List ℕ)
owed hash m = elim m.response [ incoming tx ↦ some (tx, hash) | outgoing rx ↦ none ]

acks-owed :
    (hash : List ℕ) (ms : List EchoMessage)
    → acks hash (incoming_acks ms) ≡ filter_map (owed hash) ms
unfolding incoming_acks filter_map
acks-owed hash [] = refl
acks-owed hash (m ∷ ms) = ground (arith, acks-owed hash ms)

judge-check :
    {PeerId Failure : Type 0} (g : EchoGadget) (rest : List EchoMessage) (hash : List ℕ)
    (sent : List (ℕ × List ℕ)) (got : List (Reply PeerId Failure)) {h : EchoGadget}
    {sent' : List (ℕ × List ℕ)} {rest' : List EchoMessage}
    → judge g rest hash sent got ≡ proceeded h sent' rest'
    → check hash 0 got ≡ none
unfolding judge
judge-check g rest hash sent got e = ground arith

module _ {PeerId Failure : Type 0} (digest : List ℕ → List ℕ) (tx_open : ℕ → Bool)
    (replies : ℕ → List (Reply PeerId Failure)) where
  -- The bytes that a node hashes, and the acknowledgements that it sends.
  abbrev pub echo_of : List EchoMessage → List ℕ
  echo_of xs = digest (hashed (popped xs))

  abbrev pub acks_of : List EchoMessage → List (ℕ × List ℕ)
  acks_of xs = acks (echo_of xs) (incoming_acks (popped xs))

  abbrev pub next_round : EchoGadget → EchoGadget
  next_round g = record g { r = (g.r + 1) % 65536; msgs = [] }

  answer-judge :
      (g : EchoGadget) (xs rest : List EchoMessage) (got : List (Reply PeerId Failure))
      → Arrives tx_open replies g xs got
      → answer digest tx_open replies g rest (popped xs)
        ≡ judge g rest (echo_of xs) (acks_of xs) got
  unfolding answer
  answer-judge g xs rest got a =
      let collected : collect (g.n - 1) [] (replies a.own) ≡ ready got = rw a.replied (
        collect_fills (g.n - 1) [] got a.later (omega (arith, a.enough, a.several))
          (omega (arith, a.several))) in
      rw (a.own_found, answer) (rw a.acks_open (rw (collected, answer)))

  proceed_round-judge :
      (g : EchoGadget) (xs rest : List EchoMessage) (got : List (Reply PeerId Failure))
      → Arrives tx_open replies g xs got
      → proceed_round digest tx_open replies g (xs ++ rest)
        ≡ judge g rest (echo_of xs) (acks_of xs) got
  unfolding proceed_round
  proceed_round-judge g xs rest got a =
      let (msgs, full, p) =
        gather_fills g.n [] xs rest (omega (arith, a.all_sent)) (omega (arith, a.several)) in
      let same : popped xs ≡ popped msgs =
        popped_of_perm (Perm.symm (rw append-nil at p)) a.one_each in
      let start : gather g.n g.msgs (xs ++ rest) ≡ ready (msgs, rest) = rw a.fresh full in
      rw (start, proceed_round) (rw (← same) (answer-judge g xs rest got a))

  -- Each message of the round that came with a channel is answered on it, once, and nothing else is.
  acks_of-Perm : (xs : List EchoMessage) → Perm (acks_of xs) (filter_map (owed (echo_of xs)) xs)
  acks_of-Perm xs =
      subst (λ l. Perm l (filter_map (owed (echo_of xs)) xs))
        (sym (acks-owed (echo_of xs) (popped xs)))
        (Perm.filter_map (owed (echo_of xs)) (sort-perm (descending (λ m. m.sender)) xs))

  -- Where everything has arrived, a round succeeds exactly when all replies echo the node's own hash, and
  -- then it stands at the next round, its heap empty. What it has sent by then is the hash to each
  -- message that came with a channel, on that channel, each once and nothing else.
  pub proceed_round_accepts :
      (g : EchoGadget) (xs rest : List EchoMessage) (got : List (Reply PeerId Failure))
      → Arrives tx_open replies g xs got
      → ((proceed_round digest tx_open replies g (xs ++ rest)
            ≡ proceeded (next_round g) (acks_of xs) rest)
          ↔ All (Echoes (echo_of xs)) got)
        × Perm (acks_of xs) (filter_map (owed (echo_of xs)) xs)
  proceed_round_accepts g xs rest got a =
      let all = check-All (echo_of xs) 0 got in
      (
        rw (proceed_round-judge g xs rest got a) (
          λ e. all.0 (judge-check g rest (echo_of xs) (acks_of xs) got e),
          λ h. unfold judge in rw (all.1 h, judge),
        ),
        acks_of-Perm xs,
      )

  -- Where everything has arrived, the first reply that differs fails the round with its position among
  -- the replies, as a `u16`, and a failure with that failure. All the same the hash has been sent to
  -- each message that came with a channel, on that channel, each once.
  pub proceed_round_rejects :
      (g : EchoGadget) (xs rest : List EchoMessage) (front back : List (Reply PeerId Failure))
      (p : PeerId) (other : List ℕ) (e : Failure)
      → All (Echoes (echo_of xs)) front
      → (other ≢ echo_of xs
          → Arrives tx_open replies g xs (front ++ (echo p other ∷ back))
          → proceed_round digest tx_open replies g (xs ++ rest)
            ≡ failed (inconsistent_echo (length front % 65536)) (acks_of xs))
        × (Arrives tx_open replies g xs (front ++ (failure e ∷ back))
            → proceed_round digest tx_open replies g (xs ++ rest)
              ≡ failed (echo_failed e) (acks_of xs))
        × Perm (acks_of xs) (filter_map (owed (echo_of xs)) xs)
  unfolding judge
  proceed_round_rejects g xs rest front back p other e agree =
      let first = check_first (echo_of xs) 0 front back p other e agree in
      (
        λ d a. rw (proceed_round-judge g xs rest _ a) (rw (first.0 d, judge) (rw zero-add)),
        λ a. rw (proceed_round-judge g xs rest _ a) (rw (first.1, judge)),
        acks_of-Perm xs,
      )

  -- The reply is the hash that an honest peer makes of the same messages: the same payloads from the
  -- same senders, in whatever order they reached it, its own among them.
  abbrev pub Agrees : List EchoMessage → Reply PeerId Failure → Type 0
  Agrees xs (echo p hash) =
      (ys : List EchoMessage) × Perm (map said xs) (map said ys) × (hash ≡ echo_of ys)
  Agrees xs (failure e) = ⊥

  Echoes-of_Agrees :
      (xs : List EchoMessage) (got : List (Reply PeerId Failure))
      → Nodup (senders xs)
      → All (Agrees xs) got
      → All (Echoes (echo_of xs)) got
  Echoes-of_Agrees xs [] n h = tt
  Echoes-of_Agrees xs (echo p hash ∷ got) n ((ys, same, made), h) =
      (made ∙ ap digest (sym (hashed_of_said xs ys n same)), Echoes-of_Agrees xs got n h)
  Echoes-of_Agrees xs (failure e ∷ got) n h = absurd h.0

  -- If all parties are honest and have received the same, the round succeeds.
  pub proceed_round_agreement :
      (g : EchoGadget) (xs rest : List EchoMessage) (got : List (Reply PeerId Failure))
      → Arrives tx_open replies g xs got
      → All (Agrees xs) got
      → proceed_round digest tx_open replies g (xs ++ rest)
        ≡ proceeded (next_round g) (acks_of xs) rest
  proceed_round_agreement g xs rest got a h =
      (proceed_round_accepts g xs rest got a).0.1 (Echoes-of_Agrees xs got a.one_each h)

  -- Only the set of the messages of a round matters, not the order of their arrival.
  pub proceed_round_order :
      (g : EchoGadget) (xs ys rest : List EchoMessage) (got : List (Reply PeerId Failure))
      → Arrives tx_open replies g xs got
      → Perm xs ys
      → proceed_round digest tx_open replies g (xs ++ rest)
        ≡ proceed_round digest tx_open replies g (ys ++ rest)
  proceed_round_order g xs ys rest got a p =
      let same : popped xs ≡ popped ys = popped_of_perm p a.one_each in
      let b : Arrives tx_open replies g ys got = record {
        fresh = a.fresh;
        all_sent = sym (length-perm p) ∙ a.all_sent;
        several = a.several;
        one_each = Perm.nodup (Perm.map (λ m. m.sender) p) a.one_each;
        own = a.own;
        own_found = rw (← same) a.own_found;
        acks_open = rw (← same) a.acks_open;
        later = a.later;
        replied = a.replied;
        enough = a.enough;
      } in
      proceed_round-judge g xs rest got a ∙ rw same (sym (proceed_round-judge g ys rest got b))
