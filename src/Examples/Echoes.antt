-- ===== src/Examples/Echoes.antt =====
-- Rounds of the echo: three parties, and the digest that is the bytes themselves.
use mathlib.Core.List.{filter_map, mem-cons, not-mem-nil, Nodup-cons, Nodup-nil}
use mathlib.Core.List.Perm
use mathlib.Core.Logic.Or
use tss_libp2p.Prelude.{
  ℕ, ◌≡◌, ◌≢◌, ◌↔◌, refl, arith, List, [], ◌∷◌, ◌++◌, map, Bool, true, Perm, Nodup, Mem, All, sort,
  insert,
}
use tss_libp2p.Echo.{
  EchoMessage, new, Reply, echo, failure, outgoing, incoming, proceeded, failed, inconsistent_echo,
  proceed_round, hashed, incoming_acks, outgoing_rx,
}
use tss_libp2p.Echo.Order.{said}
use tss_libp2p.Echo.Check.{Echoes}
use tss_libp2p.Echo.Agreement.{
  Arrives, echo_of, acks_of, next_round, proceed_round_accepts, proceed_round_rejects,
  proceed_round_agreement,
}
use tss_libp2p.Echo.Limits.{message, proceed_round_blind}

abbrev as_is : List ℕ → List ℕ
as_is bytes = bytes

abbrev listening_still : ℕ → Bool
listening_still tx = true

abbrev both_echo : ℕ → List (Reply ℕ ℕ)
both_echo rx = echo 7 (9 ∷ 8 ∷ 3 ∷ []) ∷ echo 8 (9 ∷ 8 ∷ 3 ∷ []) ∷ []

abbrev one_differs : ℕ → List (Reply ℕ ℕ)
one_differs rx = echo 7 (9 ∷ 8 ∷ 3 ∷ []) ∷ echo 8 (1 ∷ []) ∷ []

abbrev one_fails : ℕ → List (Reply ℕ ℕ)
one_fails rx = echo 7 (9 ∷ 8 ∷ 3 ∷ []) ∷ failure 4 ∷ []

abbrev three : List EchoMessage
three =
    message 1 (3 ∷ []) (outgoing 5)
    ∷ message 3 (9 ∷ []) (incoming 6)
    ∷ message 2 (8 ∷ []) (incoming 7)
    ∷ []

abbrev three_again : List EchoMessage
three_again =
    message 3 (9 ∷ []) (incoming 6)
    ∷ message 1 (3 ∷ []) (outgoing 5)
    ∷ message 2 (8 ∷ []) (incoming 7)
    ∷ []

absent_cons : {x y : ℕ} {l : List ℕ} → x ≢ y → ¬ Mem x l → ¬ Mem x (y ∷ l)
absent_cons apart absent m = Or.elim (λ a b. absurd a) (mem-cons.0 m) apart absent

two_Nodup : (i j : ℕ) → i ≢ j → Nodup {A = ℕ} (i ∷ j ∷ [])
two_Nodup i j apart =
    Nodup-cons.1 (absent_cons apart not-mem-nil, Nodup-cons.1 (not-mem-nil, Nodup-nil))

three-Nodup : Nodup {A = ℕ} (1 ∷ 3 ∷ 2 ∷ [])
three-Nodup = Nodup-cons.1 (
  absent_cons (λ e. omega arith) (absent_cons (λ e. omega arith) not-mem-nil),
  two_Nodup 3 2 (λ e. omega arith),
)

arrives :
    (replies : ℕ → List (Reply ℕ ℕ)) (p q : Reply ℕ ℕ)
    → replies 5 ≡ p ∷ q ∷ []
    → Arrives listening_still replies (new 3) three (p ∷ q ∷ [])
unfolding new sort insert outgoing_rx incoming_acks
arrives replies p q e = record {
  fresh = refl;
  all_sent = refl;
  several = omega arith;
  one_each = three-Nodup;
  own = 5;
  own_found = refl;
  acks_open = refl;
  later = [];
  replied = e;
  enough = omega arith;
}

-- What a node with `three` hashes, and its acknowledgements.
hash_three : echo_of as_is listening_still both_echo three ≡ 9 ∷ 8 ∷ 3 ∷ []
unfolding sort insert hashed
hash_three = refl

proceed_round_accepts_example :
    ((proceed_round as_is listening_still both_echo (new 3) (three ++ [])
        ≡ proceeded
            (next_round as_is listening_still both_echo (new 3))
            (acks_of as_is listening_still both_echo three)
            [])
      ↔ All (Echoes (echo_of as_is listening_still both_echo three)) (both_echo 5))
    × Perm
        (acks_of as_is listening_still both_echo three)
        ((6, 9 ∷ 8 ∷ 3 ∷ []) ∷ (7, 9 ∷ 8 ∷ 3 ∷ []) ∷ [])
unfolding filter_map sort insert hashed
proceed_round_accepts_example =
    proceed_round_accepts as_is listening_still both_echo (new 3) three [] (both_echo 5)
      (arrives both_echo (echo 7 (9 ∷ 8 ∷ 3 ∷ [])) (echo 8 (9 ∷ 8 ∷ 3 ∷ [])) refl)

proceed_round_rejects_example :
    proceed_round as_is listening_still one_differs (new 3) (three ++ [])
    ≡ failed (inconsistent_echo 1) (acks_of as_is listening_still one_differs three)
unfolding sort insert hashed
proceed_round_rejects_example =
    (proceed_round_rejects as_is listening_still one_differs (new 3) three []
        (echo 7 (9 ∷ 8 ∷ 3 ∷ []) ∷ []) [] 8 (1 ∷ []) 4 (refl, tt)).0
      (λ e. cc) (arrives one_differs (echo 7 (9 ∷ 8 ∷ 3 ∷ [])) (echo 8 (1 ∷ [])) refl)

same_said : Perm {A = ℕ × List ℕ} (map said three) (map said three_again)
same_said = Perm.swap (3, 9 ∷ []) (1, 3 ∷ []) ((2, 8 ∷ []) ∷ [])

proceed_round_agreement_example :
    proceed_round as_is listening_still both_echo (new 3) (three ++ [])
    ≡ proceeded
        (next_round as_is listening_still both_echo (new 3))
        (acks_of as_is listening_still both_echo three)
        []
unfolding sort insert hashed
proceed_round_agreement_example =
    proceed_round_agreement as_is listening_still both_echo (new 3) three [] (both_echo 5)
      (arrives both_echo (echo 7 (9 ∷ 8 ∷ 3 ∷ [])) (echo 8 (9 ∷ 8 ∷ 3 ∷ [])) refl)
      ((three_again, same_said, refl), ((three_again, same_said, refl), tt))

abbrev joined_echo : ℕ → List (Reply ℕ ℕ)
joined_echo rx = echo 7 (5 ∷ 6 ∷ 7 ∷ []) ∷ []

abbrev mine : List EchoMessage
mine = message 2 (5 ∷ 6 ∷ []) (outgoing 5) ∷ message 1 (7 ∷ []) (incoming 6) ∷ []

abbrev theirs : List EchoMessage
theirs = message 2 (5 ∷ []) (outgoing 5) ∷ message 1 (6 ∷ 7 ∷ []) (incoming 6) ∷ []

Arrives-two :
    Arrives listening_still joined_echo
      (new 2)
      mine
      (echo 7 (echo_of as_is listening_still joined_echo theirs) ∷ [])
unfolding new sort insert outgoing_rx incoming_acks hashed
Arrives-two = record {
  fresh = refl;
  all_sent = refl;
  several = omega arith;
  one_each = two_Nodup 2 1 (λ e. omega arith);
  own = 5;
  own_found = refl;
  acks_open = refl;
  later = [];
  replied = refl;
  enough = omega arith;
}

proceed_round_blind_example :
    (proceed_round as_is listening_still joined_echo (new 2) (mine ++ [])
      ≡ proceeded
          (next_round as_is listening_still joined_echo (new 2))
          (acks_of as_is listening_still joined_echo mine)
          [])
    × ¬ Perm (map said mine) (map said theirs)
proceed_round_blind_example =
    proceed_round_blind as_is listening_still joined_echo (new 2) [] 2 1 (5 ∷ []) (6 ∷ []) (7 ∷ [])
      (outgoing 5) (incoming 6) 7 (omega arith) (λ e. cc) Arrives-two
