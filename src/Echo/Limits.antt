-- ===== src/Echo/Limits.antt =====
-- What the echo of a round does not establish.

use tss_libp2p.Prelude.{
  ℕ, ◌≡◌, ◌≢◌, sym, ap, List, [], ◌∷◌, ◌++◌, map, arith, Perm, Nodup, ◌<◌, append_assoc, Bool, true,
  sort, insert, leb, sort-descending_of_perm,
}
use tss_libp2p.Echo.{
  EchoMessage, EchoResponse, EchoGadget, Reply, echo, hashed, proceed_round, proceeded,
}
use tss_libp2p.Echo.Order.{said, said-discrete}
use tss_libp2p.Echo.Agreement.{Arrives, echo_of, acks_of, next_round, proceed_round_accepts}

abbrev pub message : ℕ → List ℕ → EchoResponse → EchoMessage
message i payload r = record { sender = i; payload = payload; response = r }

abbrev first_payload : List (ℕ × List ℕ) → List ℕ
first_payload [] = []
first_payload (q ∷ qs) = q.1

abbrev pairs : ℕ → ℕ → List ℕ → List ℕ → List (ℕ × List ℕ)
pairs i j a b = (i, a) ∷ (j, b) ∷ []

nil_of_append : (a b : List ℕ) → a ++ b ≡ a → b ≡ []
nil_of_append [] b e = e
nil_of_append (x ∷ a) b e = nil_of_append a b (cc)

shift_needs :
    (i j : ℕ) (a b c : List ℕ)
    → j < i
    → Nodup (i ∷ j ∷ [])
    → Perm (pairs i j (a ++ b) c) (pairs i j a (b ++ c))
    → b ≡ []
unfolding sort insert
shift_needs i j a b c h n p =
    let le : leb j i ≡ true = ground arith in
    let sorted = sort-descending_of_perm (λ (q : ℕ × List ℕ). q.0) said-discrete p n in
    let same : pairs i j (a ++ b) c ≡ pairs i j a (b ++ c) = rw le at sorted in
    nil_of_append a b (ap first_payload same)

module _ {PeerId Failure : Type 0} (digest : List ℕ → List ℕ) (tx_open : ℕ → Bool)
    (replies : ℕ → List (Reply PeerId Failure)) where
  -- The hash does not see where one payload ends and the next begins.
  echo_of_shifted :
      (i j : ℕ) (a b c : List ℕ) (r s : EchoResponse)
      → j < i
      → echo_of digest tx_open replies (message i (a ++ b) r ∷ message j c s ∷ [])
        ≡ echo_of digest tx_open replies (message i a r ∷ message j (b ++ c) s ∷ [])
  unfolding sort insert hashed
  echo_of_shifted i j a b c r s h =
      let le : leb j i ≡ true = ground arith in rw le (simp append_assoc)

  -- The echo is no proof that all received the same: a round succeeds at a node whose peer got
  -- other payloads, if the bytes agree once the payloads are joined.
  pub proceed_round_blind :
      (g : EchoGadget) (rest : List EchoMessage) (i j : ℕ) (a b c : List ℕ) (r s : EchoResponse)
      (p : PeerId)
      → j < i
      → b ≢ []
      → let mine = message i (a ++ b) r ∷ message j c s ∷ [] in
        let theirs = message i a r ∷ message j (b ++ c) s ∷ [] in
        Arrives tx_open replies g mine (echo p (echo_of digest tx_open replies theirs) ∷ [])
        → (proceed_round digest tx_open replies g (mine ++ rest)
            ≡ proceeded
                (next_round digest tx_open replies g)
                (acks_of digest tx_open replies mine)
                rest)
          × ¬ Perm (map said mine) (map said theirs)
  proceed_round_blind g rest i j a b c r s p h more arrives =
      let mine = message i (a ++ b) r ∷ message j c s ∷ [] in
      let theirs = message i a r ∷ message j (b ++ c) s ∷ [] in
      (
        (proceed_round_accepts digest tx_open replies g mine rest
              (echo p (echo_of digest tx_open replies theirs) ∷ []) arrives).0.1
            (sym (echo_of_shifted i j a b c r s h), tt),
        λ same. more (shift_needs i j a b c h arrives.one_each same),
      )
