-- ===== src/Echo/Check.antt =====
-- The replies of a round, and the reduction of a round to them.
use tss_libp2p.Prelude.{
  ℕ, suc, ◌+◌, ◌%◌, ◌≡◌, ◌≢◌, ◌↔◌, refl, List, [], ◌∷◌, ◌++◌, arith, length, ◌<◌, append_assoc, All,
  bytes_beq_iff, some, none, length-append,
}
use tss_libp2p.Echo.{
  Reply, echo, failure, inconsistent_echo, echo_failed, waiting, ready, collect, check,
}

module _ {PeerId Failure : Type 0} where
  -- The reply is an echo of this hash.
  abbrev pub Echoes : List ℕ → Reply PeerId Failure → Type 0
  Echoes hash (echo peer other) = other ≡ hash
  Echoes hash (failure e) = ⊥

  pub check-All :
      (hash : List ℕ) (i : ℕ) (got : List (Reply PeerId Failure))
      → (check hash i got ≡ none) ↔ All (Echoes hash) got
  unfolding check
  check-All hash i [] = (λ _. tt, λ _. refl)
  check-All hash i (echo p h ∷ got) =
      ground (arith, check-All hash (suc i) got, bytes_beq_iff h hash)
  check-All hash i (failure e ∷ got) = (λ h. cc, λ h. absurd h.0)

  -- The error names the position of the first reply that differs, as a `u16`, or carries the first
  -- failure.
  pub check_first :
      (hash : List ℕ) (i : ℕ) (front back : List (Reply PeerId Failure)) (p : PeerId)
      (other : List ℕ) (e : Failure)
      → All (Echoes hash) front
      → (other ≢ hash
          → check hash i (front ++ (echo p other ∷ back))
            ≡ some (inconsistent_echo ((i + length front) % 65536)))
        × (check hash i (front ++ (failure e ∷ back)) ≡ some (echo_failed e))
  unfolding check
  check_first hash i [] back p other e h = (λ d. ground (arith, bytes_beq_iff other hash), refl)
  check_first hash i (echo q same ∷ front) back p other e h =
      ground (arith, bytes_beq_iff same hash, check_first hash (suc i) front back p other e h.1)
  check_first hash i (failure f ∷ front) back p other e h = absurd h.0

  pub collect_fills :
      (wanted : ℕ) (got more rest : List (Reply PeerId Failure))
      → length got + length more ≡ wanted
      → length got < wanted
      → collect wanted got (more ++ rest) ≡ ready (got ++ more)
  unfolding collect
  collect_fills wanted got [] rest e h = absurd (omega arith)
  collect_fills wanted got (x ∷ []) rest e h = ground arith
  collect_fills wanted got (x ∷ y ∷ more) rest e h = ground (
    arith,
    length-append got (x ∷ []),
    collect_fills wanted (got ++ (x ∷ [])) (y ∷ more) rest
        (omega (arith, length-append got (x ∷ []))) (omega (arith, length-append got (x ∷ []))),
    append_assoc got (x ∷ []) (y ∷ more),
  )

  pub collect_none : (got more : List (Reply PeerId Failure)) → collect 0 got more ≡ waiting
  unfolding collect
  collect_none got [] = refl
  collect_none got (x ∷ more) = ground (arith, collect_none (got ++ (x ∷ [])) more)
