-- ===== src/Coordination/Agreement.antt =====
-- A proposer and those who join it, through the start message.
use tss_libp2p.Prelude.{ℕ, ◌≡◌, List, [], ◌∷◌, ◌++◌, length, some, none, Nodup, Perm}
use tss_libp2p.Peer.{PeerApi}
use tss_libp2p.Io.{IoResult, ok}
use tss_libp2p.Messages.{coordination}
use tss_libp2p.Varint.{VarintApi}
use tss_libp2p.Broadcast.{IncomingMessage}
use tss_libp2p.Service.{RoomId, NetworkMessage, to_many}
use tss_libp2p.Peerset.{Peerset, index_of, size, range}
use tss_libp2p.Peerset
use tss_libp2p.StartMsg
use tss_libp2p.Rooms.{ComputeAgent, ReceiverProxy}
use tss_libp2p.Negotiation.{NegotiationChan, NegotiationPoll, start, context_of}
use tss_libp2p.Coordination.{Phase2Chan, Phase2Input, begun, poll_phase2}

-- The number of a party is the same at two nodes.
abbrev pub SameNumbers : {P : Type 0} → ⦃api : PeerApi P⦄ → Peerset P → Peerset P → Type 0
SameNumbers {P} a b =
    (a.session_peers ≡ b.session_peers)
    × (a.parties_indexes ≡ b.parties_indexes)
    × ((p : P) → index_of a p ≡ index_of b p)

module _ {P : Type 0} ⦃api : PeerApi P⦄ (varint : VarintApi) where
  -- A node that waits for the start message with this payload begins the computation with the arguments
  -- of the proposer, and gives each peer the number that the proposer gives it.
  abbrev pub Joins : List ℕ → List ℕ → Peerset P → Type 0
  Joins payload args parties =
      (ch : Phase2Chan P) (rx : ℕ) (inp : Phase2Input P) (msg : IncomingMessage P)
      → ch.rx ≡ some rx
      → inp.next ≡ some msg
      → msg.context.message_type ≡ coordination
      → msg.payload ≡ payload
      → (theirs : Peerset P) × (proxy : ReceiverProxy P) × (poll_phase2 varint inp ch
          ≡ ok (
            record ch { rx = none },
            some (begun ch.id inp.proxy_chan proxy theirs inp.peerset_chan args),
          ))
        × (proxy.parties ≡ theirs)
        × (theirs.local_peer_id ≡ ch.service.local_peer_id)
        × SameNumbers theirs parties

  -- The proposer begins with `n` peers, each once, numbered from 0 on, has sent them a start message,
  -- and whoever gets it joins the same computation.
  pub record Agreed (room : RoomId) (n : ℕ) (args : List ℕ) (proposer : P) (agent : ComputeAgent)
      (on_done : ℕ) (out : IoResult (NegotiationPoll P)) : Type 0 where
    pub members : List P
    pub payload : List ℕ
    pub parties : Peerset P
    pub end : NegotiationChan P
    pub before : List (NetworkMessage P)
    pub receiver : ℕ
    pub peerset_rx : ℕ
    pub proxy : ReceiverProxy P
    pub number : length members ≡ n
    pub apart : Nodup members
    pub present : Perm parties.session_peers members
    pub count : size parties ≡ n
    pub in_order : parties.parties_indexes ≡ range 0 n
    pub its_own : parties.local_peer_id ≡ proposer
    pub proxied : proxy.parties ≡ parties
    pub starts :
        out
        ≡ ok (
          end,
          before
              ++ (record {
                room_id = room;
                context = context_of agent;
                message = to_many members payload none;
              }
                  ∷ []),
          some (start agent on_done receiver proxy parties peerset_rx args),
        )
    pub joins : Joins payload args parties
