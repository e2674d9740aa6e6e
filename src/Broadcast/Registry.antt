-- ===== src/Broadcast/Registry.antt =====
-- Which protocols are registered by `Broadcast::new`.
use tss_libp2p.Prelude.{
  ℕ, ◌+◌, List, [], ◌∷◌, Option, some, none, Bool, true, false, ◌||◌, ◌&&◌, not, ◌≡◌, refl, sym,
  ◌==◌, Bool-cases, Option-cases, inl, inr, All, arith,
}
use tss_libp2p.HashMap
use tss_libp2p.HashMap.{get-insert, get-insert_self}
use tss_libp2p.Broadcast.{Net, Name, name_eq, ProtocolConfig, RequestResponse, Broadcast}
use tss_libp2p.Broadcast.Send.{registered, duplicate_protocol, register, is_some, new}

-- A name among those of some configurations, and names that do not repeat.
abbrev pub has : Name → List ProtocolConfig → Bool
has n [] = false
has n (cfg ∷ list) = cfg.name == n || has n list

abbrev pub are_distinct : List ProtocolConfig → Bool
are_distinct [] = true
are_distinct (cfg ∷ list) = not (has cfg.name list) && are_distinct list

neither : (a b : Bool) → (a || b) ≡ false → (a ≡ false) × (b ≡ false)
neither a b h = ground arith

both_of : (a b : Bool) → (not a && b) ≡ true → (a ≡ false) × (b ≡ true)
both_of a b h = ground arith

apart_sym : (m n : Name) → (m == n) ≡ false → (n == m) ≡ false
apart_sym m n h = elim (Bool-cases (n == m)) [
  | inl same ↦ cc ((name_eq.beq_iff m n).1 (sym ((name_eq.beq_iff n m).0 same)))
  | inr apart ↦ apart
]

module _ {X : Net} (rr : RequestResponse X) where
  abbrev Protocols : Type 0
  Protocols = List (Name × (X.Rq × Option ℕ))

  -- What a protocol of a configuration starts with.
  abbrev pub entry_of : ProtocolConfig → X.Rq × Option ℕ
  entry_of cfg = (
    rr.create cfg.max_request_size cfg.max_response_size cfg.name (is_some cfg.inbound_queue)
        cfg.request_timeout (cfg.request_timeout + 10),
    cfg.inbound_queue,
  )

  abbrev IsFree : Protocols → List ProtocolConfig → Type 0
  IsFree ps list = All (λ cfg. HashMap.get cfg.name ps ≡ none) list

  IsFree-insert :
      (n : Name) (v : X.Rq × Option ℕ) (ps : Protocols) (list : List ProtocolConfig)
      → has n list ≡ false
      → IsFree ps list
      → IsFree (HashMap.insert n v ps) list
  IsFree-insert n v ps [] h f = f
  IsFree-insert n v ps (cfg ∷ list) h f =
      let (apart, rest) = neither (cfg.name == n) (has n list) h in
      (
        rw (get-insert n cfg.name v ps, apart_sym cfg.name n apart) f.0,
        IsFree-insert n v ps list rest f.1,
      )

  -- A name that comes up again is refused.
  register_taken :
      (n : Name) (v : X.Rq × Option ℕ) (list : List ProtocolConfig) (ps : Protocols)
      → has n list ≡ true
      → HashMap.get n ps ≡ some v
      → (name : Name) × (register rr ps list ≡ duplicate_protocol name)
  unfolding register
  register_taken n v [] ps h there = cc
  register_taken n v (cfg ∷ list) ps h there = elim (Option-cases (HashMap.get cfg.name ps)) [
    | inr (w, found) ↦ (cfg.name, rw (found, register) refl)
    | inl gone ↦ elim (Bool-cases (cfg.name == n)) [
      | inl same ↦ let e = (name_eq.beq_iff cfg.name n).0 same in cc (rw e at gone, there)
      | inr apart ↦
          let more : has n list ≡ true = rw apart at h in
          let (name, e) =
            register_taken n v list (HashMap.insert cfg.name (entry_of cfg) ps) more
              (rw (get-insert cfg.name n (entry_of cfg) ps, apart) there) in
          (name, rw (gone, register) e)
    ]
  ]

  register_repeated :
      (list : List ProtocolConfig) (ps : Protocols)
      → are_distinct list ≡ false
      → (name : Name) × (register rr ps list ≡ duplicate_protocol name)
  unfolding register
  register_repeated [] ps d = cc
  register_repeated (cfg ∷ list) ps d = elim (Option-cases (HashMap.get cfg.name ps)) [
    | inr (w, found) ↦ (cfg.name, rw (found, register) refl)
    | inl gone ↦
        let next = HashMap.insert cfg.name (entry_of cfg) ps in
        elim (Bool-cases (has cfg.name list)) [
          | inl again ↦
              let (name, e) =
                register_taken cfg.name (entry_of cfg) list next again
                  (get-insert_self cfg.name (entry_of cfg) ps) in
              (name, rw (gone, register) e)
          | inr once ↦
              let (name, e) = register_repeated list next (rw once at d) in
              (name, rw (gone, register) e)
        ]
  ]

  -- Entries whose names do not come up again stay.
  register_keeps :
      (n : Name) (v : X.Rq × Option ℕ) (list : List ProtocolConfig) (ps qs : Protocols)
      → has n list ≡ false
      → HashMap.get n ps ≡ some v
      → register rr ps list ≡ registered qs
      → HashMap.get n qs ≡ some v
  unfolding register
  register_keeps n v [] ps qs h there e = cc (e, there)
  register_keeps n v (cfg ∷ list) ps qs h there e = elim (Option-cases (HashMap.get cfg.name ps)) [
    | inr (w, found) ↦ cc (rw (found, register) at e)
    | inl gone ↦
        let (apart, rest) = neither (cfg.name == n) (has n list) h in
        register_keeps n v list (HashMap.insert cfg.name (entry_of cfg) ps) qs rest
          (rw (get-insert cfg.name n (entry_of cfg) ps, apart) there) (rw (gone, register) at e)
  ]

  register_distinct :
      (list : List ProtocolConfig) (ps : Protocols)
      → are_distinct list ≡ true
      → IsFree ps list
      → (qs : Protocols) × (register rr ps list ≡ registered qs)
        × All (λ cfg. HashMap.get cfg.name qs ≡ some (entry_of cfg)) list
  unfolding register
  register_distinct [] ps d f = (ps, refl, tt)
  register_distinct (cfg ∷ list) ps d f =
      let (once, rest) = both_of (has cfg.name list) (are_distinct list) d in
      let next = HashMap.insert cfg.name (entry_of cfg) ps in
      let (qs, e, all) =
        register_distinct list next rest (IsFree-insert cfg.name (entry_of cfg) ps list once f.1) in
      (
        qs,
        rw (f.0, register) e,
        (
          register_keeps cfg.name (entry_of cfg) list next qs once
              (get-insert_self cfg.name (entry_of cfg) ps) e,
          all,
        ),
      )

  IsFree-nil : (list : List ProtocolConfig) → IsFree [] list
  unfolding HashMap.get
  IsFree-nil [] = tt
  IsFree-nil (cfg ∷ list) = (refl, IsFree-nil list)

  -- Protocols with different names are all registered, each with a behaviour made to its own limits
  -- and with its own queue, and nothing is pending; protocols of which two have the same name are
  -- refused.
  pub new_outcome :
      (list : List ProtocolConfig)
      → (are_distinct list ≡ true
          → (b : Broadcast X) × (new rr list ≡ registered b)
            × All (λ cfg. HashMap.get cfg.name b.protocols ≡ some (entry_of cfg)) list
            × (b.pending_requests ≡ [])
            × (b.pending_responses ≡ []))
        × (are_distinct list ≡ false → (name : Name) × (new rr list ≡ duplicate_protocol name))
  unfolding new
  new_outcome list = (
    λ d.
        let (qs, e, all) = register_distinct list [] d (IsFree-nil list) in
        (
          record {
            protocols = qs;
            pending_requests = [];
            pending_responses = [];
            pending_responses_arrival_time = [];
            send_feedback = [];
          },
          rw (e, new) refl,
          all,
          refl,
          refl,
        ),
    λ d. let (name, e) = register_repeated list [] d in (name, rw (e, new) refl),
  )
