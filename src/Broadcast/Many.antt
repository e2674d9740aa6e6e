-- ===== src/Broadcast/Many.antt =====
-- A broadcast is one request for each target.
use tss_libp2p.Prelude.{
  sym, All, ℕ, suc, ◌+◌, ◌≡◌, refl, ap, arith, List, [], ◌∷◌, Option, some, none, true, ◌==◌,
  length, Bool-cases, inl, inr,
}
use tss_libp2p.HashMap
use tss_libp2p.HashMap.{get-insert, get-insert_self}
use tss_libp2p.Messages.{WireMessage, MessageContext}
use tss_libp2p.Broadcast.{
  Net, Name, name_eq, ProtocolRequestId, id_eq, RequestResponse, Broadcast, should_connect,
  try_connect,
}
use tss_libp2p.Broadcast.Send.{send_wire_message, send_by, broadcast_message}
use tss_libp2p.Broadcast.Events.{id_of}
use tss_libp2p.Broadcast.Pending.{IsNumbered, send_by-IsNumbered, fresh_id}
use tss_libp2p.Broadcast.Delivery.{or_true}

length-insert :
    {A : Type 0} (k : ProtocolRequestId) (v : A) (m : List (ProtocolRequestId × A))
    → HashMap.get k m ≡ none
    → length (HashMap.insert k v m) ≡ suc (length m)
unfolding HashMap.get HashMap.insert
length-insert k v [] gone = refl
length-insert k v ((j, w) ∷ m) gone = elim (Bool-cases (j == k)) [
  | inl same ↦ cc (rw same at gone)
  | inr apart ↦
      let rest : HashMap.get k m ≡ none = rw apart at gone in
      rw apart (ap suc (length-insert k v m rest))
]

-- What is in a map stays in it when something else is put in.
kept_by_insert :
    {A : Type 0} (k j : ProtocolRequestId) (v w : A) (m : List (ProtocolRequestId × A))
    → HashMap.get k m ≡ none
    → HashMap.get j m ≡ some w
    → HashMap.get j (HashMap.insert k v m) ≡ some w
kept_by_insert k j v w m gone there = elim (Bool-cases (k == j)) [
  | inl same ↦
      let e = (id_eq.beq_iff k j).0 same in
      let gone_too : HashMap.get j m ≡ none = rw (sym e) gone in cc
  | inr apart ↦ rw (get-insert k j v m, apart) there
]

module _ {X : Net} (rr : RequestResponse X) where
  open rr use {is_connected}

  -- The behaviour of a protocol is asked to send a message to each of some peers, one after the other:
  -- the numbers that it gives the requests, and its state afterwards.
  abbrev pub asked_each : WireMessage → List X.PeerId → X.Rq → List ℕ × X.Rq
  asked_each m [] rq = ([], rq)
  asked_each m (target ∷ targets) rq =
      let (id, rq1) = rr.send_request rq target m in
      let (ids, rq2) = asked_each m targets rq1 in (id ∷ ids, rq2)

  -- The request of this number is pending for whoever awaits its response, since `now`.
  abbrev pub PendingSince : ℕ → Option ℕ → Name → Broadcast X → ℕ → Type 0
  PendingSince now tx name b id = HashMap.get (id_of name id) b.pending_requests ≡ some (now, tx)

  -- From `b` to `after`, the message went out to each of the targets.
  pub record SentToEach (now : ℕ) (name : Name) (m : WireMessage) (tx : Option ℕ) (rq : X.Rq)
      (queue : Option ℕ) (targets : List X.PeerId) (b after : Broadcast X) : Type 0 where
    pub asked : HashMap.get name after.protocols ≡ some ((asked_each m targets rq).1, queue)
    pub pending : All (PendingSince now tx name after) (asked_each m targets rq).0
    pub kept :
        (k : ProtocolRequestId) (v : ℕ × Option ℕ)
        → HashMap.get k b.pending_requests ≡ some v
        → HashMap.get k after.pending_requests ≡ some v
    pub count : length after.pending_requests ≡ length b.pending_requests + length targets
    pub numbered : IsNumbered rr after

  sent_by :
      (now : ℕ) (b : Broadcast X) (target : X.PeerId) (name : Name) (m : WireMessage)
      (tx : Option ℕ) (rq : X.Rq) (queue : Option ℕ)
      → HashMap.get name b.protocols ≡ some (rq, queue)
      → send_wire_message rr now b target name m tx try_connect
        ≡ (send_by rr now b target name m tx rq queue, [])
  unfolding send_wire_message should_connect
  sent_by now b target name m tx rq queue found =
      rw (found, send_wire_message) (rw (or_true (is_connected rq target)) refl)

  -- The first request of a broadcast.
  module _ (now : ℕ) (b : Broadcast X) (target : X.PeerId) (name : Name) (m : WireMessage)
      (tx : Option ℕ) (rq : X.Rq) (queue : Option ℕ) (numbered : IsNumbered rr b)
      (found : HashMap.get name b.protocols ≡ some (rq, queue)) where
    first_kept :
        (k : ProtocolRequestId) (v : ℕ × Option ℕ)
        → HashMap.get k b.pending_requests ≡ some v
        → HashMap.get k (send_by rr now b target name m tx rq queue).pending_requests ≡ some v
    unfolding send_by
    first_kept k v there =
        kept_by_insert (id_of name (rr.send_request rq target m).0) k (now, tx) v b.pending_requests
          (fresh_id rr b name rq queue target m numbered found) there

    first_pending :
        PendingSince now tx name
          (send_by rr now b target name m tx rq queue)
          (rr.send_request rq target m).0
    unfolding send_by
    first_pending =
        get-insert_self (id_of name (rr.send_request rq target m).0) (now, tx) b.pending_requests

    first_count :
        length (send_by rr now b target name m tx rq queue).pending_requests
        ≡ suc (length b.pending_requests)
    unfolding send_by
    first_count =
        length-insert (id_of name (rr.send_request rq target m).0) (now, tx) b.pending_requests
          (fresh_id rr b name rq queue target m numbered found)

    first_asked :
        HashMap.get name (send_by rr now b target name m tx rq queue).protocols
        ≡ some ((rr.send_request rq target m).1, queue)
    unfolding send_by
    first_asked = get-insert_self name ((rr.send_request rq target m).1, queue) b.protocols

  -- A broadcast over a registered protocol, with connections made where they are missing: its behaviour
  -- is asked to send the payload, marked as a broadcast, to each target in turn; each of these requests
  -- is pending afterwards, all that were pending still are, and nobody hears of a failure yet.
  pub broadcast_message_outcome :
      (now : ℕ) (b : Broadcast X) (targets : List X.PeerId) (name : Name) (ctx : MessageContext)
      (payload : List ℕ) (tx : Option ℕ) (rq : X.Rq) (queue : Option ℕ)
      → IsNumbered rr b
      → HashMap.get name b.protocols ≡ some (rq, queue)
      → let (b1, es) = broadcast_message rr now b targets name ctx payload tx try_connect in
        (es ≡ [])
        × SentToEach now name
            (record { context = ctx; payload = payload; is_broadcast = true })
            tx
            rq
            queue
            targets
            b
            b1
  unfolding broadcast_message
  broadcast_message_outcome now b [] name ctx payload tx rq queue numbered found = (
    refl,
    record {
      asked = found;
      pending = tt;
      kept = λ k v there. there;
      count = omega arith;
      numbered = numbered;
    },
  )
  broadcast_message_outcome now b (target ∷ targets) name ctx payload tx rq queue numbered found =
      let m : WireMessage = record { context = ctx; payload = payload; is_broadcast = true } in
      let b1 : Broadcast X = send_by rr now b target name m tx rq queue in
      let (quiet, rest) =
        broadcast_message_outcome now b1 targets name ctx payload tx (rr.send_request rq target m).1
          queue (send_by-IsNumbered rr now b target name m tx rq queue numbered found)
          (first_asked now b target name m tx rq queue numbered found) in
      rw (sent_by now b target name m tx rq queue found) (
        quiet,
        record {
          asked = rest.asked;
          pending = (
            rest.kept (id_of name (rr.send_request rq target m).0) (now, tx)
                (first_pending now b target name m tx rq queue numbered found),
            rest.pending,
          );
          kept = λ k v there.
              rest.kept k v (first_kept now b target name m tx rq queue numbered found k v there);
          count =
              omega (arith, rest.count, first_count now b target name m tx rq queue numbered found);
          numbered = rest.numbered;
        },
      )
