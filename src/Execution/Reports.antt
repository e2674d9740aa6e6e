-- ===== src/Execution/Reports.antt =====
-- Who hears of the result of a computation.
use tss_libp2p.Prelude.{
  ℕ, ◌+◌, ◌%◌, ◌≡◌, refl, sym, ap, ◌∙◌, arith, List, [], ◌∷◌, ◌++◌, Option, some, none, Bool, true,
  false, Option-cases, inl, inr,
}
use tss_libp2p.Peer.{PeerApi}
use tss_libp2p.Io.{IoResult, ok, >>=-eq-ok}
use tss_libp2p.Broadcast.{IncomingMessage}
use tss_libp2p.Service.{NetworkMessage}
use tss_libp2p.Peerset.{peer_at}
use tss_libp2p.Execution.{
  ProtocolExecution, ExecInput, ExecEffect, cache_access, send, told_sent, to_echo, acknowledge,
  to_protocol, done, Computed, computed, broken, Ended, succeeded, internal_error, output,
  OutgoingMessage, Routing, broadcast, point_to_point, told, expect_sent, optionally, send_out,
  take_in, finish, poll_execution,
}

-- The results among the effects of a poll, with the channels that they go to.
abbrev pub reported : {P : Type 0} → List (ExecEffect P) → List (ℕ × Computed)
reported [] = []
reported (cache_access r m ∷ es) = reported es
reported (send m ∷ es) = reported es
reported (told_sent tx ∷ es) = reported es
reported (to_echo m ∷ es) = reported es
reported (acknowledge tx ∷ es) = reported es
reported (to_protocol m ∷ es) = reported es
reported (done tx res ∷ es) = (tx, res) ∷ reported es

-- The result and the channel of whoever asked, if both are there.
abbrev pub to_report : Option ℕ → Option Computed → List (ℕ × Computed)
to_report none res = []
to_report (some tx) none = []
to_report (some tx) (some res) = (tx, res) ∷ []

reported-told : (P : Type 0) (tx : Option ℕ) → reported (told {PeerId = P} tx) ≡ []
reported-told P none = refl
reported-told P (some tx) = refl

module _ {P : Type 0} where
  reported-append :
      (es fs : List (ExecEffect P)) → reported es ≡ [] → reported (es ++ fs) ≡ reported fs
  reported-append [] fs h = refl
  reported-append (cache_access r m ∷ es) fs h = reported-append es fs h
  reported-append (send m ∷ es) fs h = reported-append es fs h
  reported-append (told_sent tx ∷ es) fs h = reported-append es fs h
  reported-append (to_echo m ∷ es) fs h = reported-append es fs h
  reported-append (acknowledge tx ∷ es) fs h = reported-append es fs h
  reported-append (to_protocol m ∷ es) fs h = reported-append es fs h
  reported-append (done tx res ∷ es) fs h = cc

  -- Effects that end with a message to the network.
  reported-sent :
      (es fs : List (ExecEffect P)) (m : NetworkMessage P)
      → reported es ≡ []
      → ok (es ++ (send m ∷ [])) ≡ ok fs
      → reported fs ≡ []
  reported-sent es fs m quiet h =
      let same : es ++ (send m ∷ []) ≡ fs = cc h in
      rw (← same) (reported-append es (send m ∷ []) quiet)

  reported-expect_sent :
      (takes : Bool) (e : ExecEffect P) (es : List (ExecEffect P))
      → reported (e ∷ []) ≡ []
      → expect_sent takes e ≡ ok es
      → reported es ≡ []
  reported-expect_sent true e es quiet h = let same : e ∷ [] ≡ es = cc in rw (← same) quiet
  reported-expect_sent false e es quiet h = cc

  reported-optionally :
      {A : Type 0} (o : Option A) (f : A → IoResult (List (ExecEffect P)))
      (es : List (ExecEffect P))
      → ((a : A) (fs : List (ExecEffect P)) → f a ≡ ok fs → reported fs ≡ [])
      → optionally o f ≡ ok es
      → reported es ≡ []
  reported-optionally none f es quiet h = let same : [] ≡ es = cc in rw (← same) refl
  reported-optionally (some a) f es quiet h = quiet a es h

  reported-finish :
      (res : Option Computed) (st : ProtocolExecution P)
      → reported (finish res st) ≡ to_report st.on_done res
  unfolding finish
  reported-finish none st = elim (Option-cases st.on_done) [
    | inl nobody ↦ rw nobody refl
    | inr (tx, somebody) ↦ rw somebody refl
  ]
  reported-finish (some res) st = elim (Option-cases st.on_done) [
    | inl nobody ↦ rw (nobody, finish) refl
    | inr (tx, somebody) ↦ rw (somebody, finish) refl
  ]

  reported-take_in :
      (inp : ExecInput P) (m : IncomingMessage P) (st : ProtocolExecution P)
      (es : List (ExecEffect P))
      → take_in inp m st ≡ ok es
      → reported es ≡ []
  unfolding take_in
  reported-take_in inp m st es h = ground arith

module _ {P : Type 0} ⦃api : PeerApi P⦄ where
  reported-send_out :
      (inp : ExecInput P) (m : OutgoingMessage) (st : ProtocolExecution P)
      (es : List (ExecEffect P))
      → send_out inp m st ≡ ok es
      → reported es ≡ []
  unfolding send_out
  reported-send_out inp m st es h = go m.to refl
    where
      go : (to : Routing) → m.to ≡ to → reported es ≡ []
      go broadcast e =
          let (a, ea, k) =
            >>=-eq-ok (expect_sent inp.echo_takes_outgoing _) _ (rw (e, send_out) at h) in
          let quiet = reported-expect_sent inp.echo_takes_outgoing _ a refl ea in
          reported-sent a es _ quiet k
      go (point_to_point i) e =
          let (p, found, k) =
            >>=-eq-ok (peer_at st.parties ((i + 65535) % 65536)) _ (rw (e, send_out) at h) in
          reported-sent (told m.sent) es _ (reported-told P m.sent) k

  -- Every poll that does not panic is pending while the computation has no result; once it has one, the
  -- output is `Ok(())` for bytes and an internal error for a failure, and the result is reported once to
  -- whoever asked for it, and nothing else to anybody.
  pub poll_execution_reports :
      (inp : ExecInput P) (st : ProtocolExecution P) (es : List (ExecEffect P)) (out : Option Ended)
      → poll_execution inp st ≡ ok (es, out)
      → (inp.result ≡ none → out ≡ none)
        × ((bytes : List ℕ) → inp.result ≡ some (computed bytes) → out ≡ some succeeded)
        × (inp.result ≡ some broken → out ≡ some internal_error)
        × (reported es ≡ to_report st.on_done inp.result)
  unfolding poll_execution output
  poll_execution_reports inp st es out h =
      let (a, ea, h1) = >>=-eq-ok (optionally inp.from_peerset _) _ h in
      let (b, eb, h2) = >>=-eq-ok (optionally inp.from_protocol _) _ h1 in
      let (c, ec, h3) = >>=-eq-ok (optionally inp.from_network _) _ h2 in
      let qa =
        reported-optionally inp.from_peerset _ a
          (λ m fs e. let same : cache_access st.room_id m ∷ [] ≡ fs = cc e in rw (← same) refl)
          ea in
      let qb =
        reported-optionally inp.from_protocol _ b (λ m fs e. reported-send_out inp m st fs e) eb in
      let qc =
        reported-optionally inp.from_network _ c (λ m fs e. reported-take_in inp m st fs e) ec in
      let all : reported (a ++ (b ++ (c ++ finish inp.result st)))
          ≡ to_report st.on_done inp.result =
        reported-append a _ qa
        ∙ reported-append b _ qb
        ∙ reported-append c _ qc
        ∙ reported-finish inp.result st in
      let same : a ++ (b ++ (c ++ finish inp.result st)) ≡ es = cc h3 in
      let last : output inp.result ≡ out = cc h3 in
      (
        λ e. sym last ∙ ap output e,
        λ bytes e. sym last ∙ ap output e,
        λ e. sym last ∙ ap output e,
        rw (← same) all,
      )
