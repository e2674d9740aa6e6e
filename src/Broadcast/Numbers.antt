-- ===== src/Broadcast/Numbers.antt =====
-- Every pending request keeps the number that its behaviour has given it.
use tss_libp2p.Prelude.{
  ℕ, ◌≡◌, refl, sym, ap, ◌∙◌, List, [], ◌∷◌, Option, some, none, true, ◌==◌, Bool-cases,
  Option-cases, inl, inr,
}
use tss_libp2p.HashMap
use tss_libp2p.HashMap.{get-insert, get-remove}
use tss_libp2p.Messages.{WireMessage, MessageContext, Response, answer, refused}
use tss_libp2p.Broadcast.{
  Net, Name, name_eq, ProtocolConfig, id_eq, IfDisconnected, RequestResponse, Broadcast,
  OutgoingResponse, PendingResponse,
}
use tss_libp2p.Broadcast.Send.{
  send_wire_message, broadcast_message, new, register, registered, duplicate_protocol, Registered,
}
use tss_libp2p.Broadcast.Events.{id_of, Ready}
use tss_libp2p.Broadcast.Poll.{on_outcome, drain_outcomes, poll_events, poll}
use tss_libp2p.Broadcast.Pending.{IsNumbered, registered_or_old, send_wire_message-IsNumbered}
use tss_libp2p.Broadcast.Shrink.{Shrinks, poll_events-Shrinks}
use tss_libp2p.Broadcast.Inject.{on_each, change_each}

module _ {X : Net} (rr : RequestResponse X) where
  Shrinks-IsNumbered : (b c : Broadcast X) → Shrinks b c → IsNumbered rr b → IsNumbered rr c
  Shrinks-IsNumbered b c (same, fewer) numbered name id rq queue found pending =
      numbered name id rq queue (ap (λ ps. HashMap.get name ps) (sym same) ∙ found)
        (fewer (id_of name id) pending)

  -- A behaviour may change as long as it keeps the numbers that it has given out.
  pub advance-IsNumbered :
      (b : Broadcast X) (name : Name) (rq rq1 : X.Rq) (queue : Option ℕ)
      → IsNumbered rr b
      → HashMap.get name b.protocols ≡ some (rq, queue)
      → ((k : ℕ) → rr.issued rq k ≡ true → rr.issued rq1 k ≡ true)
      → IsNumbered rr (record b { protocols = HashMap.insert name (rq1, queue) b.protocols })
  advance-IsNumbered b name rq rq1 queue numbered found keeps other id rq2 q2 there pending =
      elim (registered_or_old rr name other (rq1, queue) (rq2, q2) b.protocols there) [
        | inl (same, new_one) ↦
            let rq_same : rq1 ≡ rq2 = ap (λ v. v.0) new_one in
            rw (sym rq_same) (keeps id (numbered name id rq queue found (rw same pending)))
        | inr (apart, before) ↦ numbered other id rq2 q2 before pending
      ]

  get-on_each :
      (f : X.Rq → X.Rq) (name : Name) (ps : List (Name × (X.Rq × Option ℕ))) (rq : X.Rq)
      (queue : Option ℕ)
      → HashMap.get name (on_each f ps) ≡ some (rq, queue)
      → (old : X.Rq) × (HashMap.get name ps ≡ some (old, queue)) × (f old ≡ rq)
  unfolding on_each HashMap.get
  get-on_each f name [] rq queue e = cc e
  get-on_each f name ((n, (r, q)) ∷ ps) rq queue e = elim (Bool-cases (n == name)) [
    | inl same ↦
        let e1 : some (f r, q) ≡ some (rq, queue) = rw same at e in (r, rw same (cc e1), cc e1)
    | inr apart ↦
        let (old, found, is_rq) = get-on_each f name ps rq queue (rw apart at e) in
        (old, rw apart found, is_rq)
  ]

  pub change_each-IsNumbered :
      (f : X.Rq → X.Rq) (b : Broadcast X)
      → ((r : X.Rq) (k : ℕ) → rr.issued r k ≡ true → rr.issued (f r) k ≡ true)
      → IsNumbered rr b
      → IsNumbered rr (change_each f b)
  unfolding change_each
  change_each-IsNumbered f b keeps numbered name id rq queue found pending =
      let (old, there, is_rq) = get-on_each f name b.protocols rq queue found in
      rw (sym is_rq) (keeps old id (numbered name id old queue there pending))

  pub broadcast_message-IsNumbered :
      (now : ℕ) (targets : List X.PeerId) (b : Broadcast X) (name : Name) (ctx : MessageContext)
      (payload : List ℕ) (tx : Option ℕ) (connect : IfDisconnected)
      → IsNumbered rr b
      → IsNumbered rr (broadcast_message rr now b targets name ctx payload tx connect).0
  unfolding broadcast_message
  broadcast_message-IsNumbered now [] b name ctx payload tx connect numbered = numbered
  broadcast_message-IsNumbered now (p ∷ ps) b name ctx payload tx connect numbered =
      let m : WireMessage = record { context = ctx; payload = payload; is_broadcast = true } in
      broadcast_message-IsNumbered now ps (send_wire_message rr now b p name m tx connect).0 name
        ctx payload tx connect
        (send_wire_message-IsNumbered rr now b p name m tx connect numbered).0

  on_outcome-IsNumbered :
      (pending : PendingResponse X) (out : Option OutgoingResponse) (b : Broadcast X)
      → IsNumbered rr b
      → IsNumbered rr (on_outcome rr pending out b)
  unfolding on_outcome
  on_outcome-IsNumbered pending none b numbered = numbered
  on_outcome-IsNumbered pending (some out) b numbered = go out.result refl
    where
      go : (r : Response) → out.result ≡ r → IsNumbered rr (on_outcome rr pending (some out) b)
      go refused e = rw (e, on_outcome) numbered
      go (answer payload) e = elim (Option-cases (HashMap.get pending.protocol b.protocols)) [
        | inl missing ↦ rw (e, missing, on_outcome) numbered
        | inr ((rq, queue), found) ↦
            let after =
              advance-IsNumbered b pending.protocol rq
                (rr.send_response rq pending.inner_channel payload).1 queue numbered found
                (rr.send_response-keeps rq pending.inner_channel payload) in
            rw (e, found, on_outcome) after
      ]

  drain_outcomes-IsNumbered :
      (outcomes : List (PendingResponse X × Option OutgoingResponse)) (b : Broadcast X)
      → IsNumbered rr b
      → IsNumbered rr (drain_outcomes rr outcomes b)
  unfolding drain_outcomes
  drain_outcomes-IsNumbered [] b numbered = numbered
  drain_outcomes-IsNumbered ((pending, out) ∷ more) b numbered =
      drain_outcomes-IsNumbered more _ (on_outcome-IsNumbered pending out _ numbered)

  pub poll-IsNumbered :
      (now : ℕ) (outcomes : List (PendingResponse X × Option OutgoingResponse))
      (events : List (Ready X)) (b : Broadcast X)
      → IsNumbered rr b
      → IsNumbered rr (poll rr now outcomes events b).0
  unfolding poll
  poll-IsNumbered now outcomes events b numbered =
      let b1 = drain_outcomes rr outcomes b in
      Shrinks-IsNumbered b1 (poll_events now events b1).0 (poll_events-Shrinks now events b1)
        (drain_outcomes-IsNumbered outcomes b numbered)

  pub new-IsNumbered :
      (list : List ProtocolConfig) (b : Broadcast X) → new rr list ≡ registered b → IsNumbered rr b
  unfolding new HashMap.get
  new-IsNumbered list b e name id rq queue found pending = go (register rr [] list) refl
    where
      go :
          (r : Registered (List (Name × (X.Rq × Option ℕ))))
          → register rr [] list ≡ r
          → rr.issued rq id ≡ true
      go (duplicate_protocol n) eq = cc (rw (eq, new) at e)
      go (registered ps) eq =
          let nothing_yet : b.pending_requests ≡ [] = cc (rw (eq, new) at e) in
          cc (rw nothing_yet at pending)
