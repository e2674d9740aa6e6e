-- ===== src/Echo/Order.antt =====
-- The heap forgets in which order the messages came, and the hash who relays them.
use mathlib.Core.List.{perm_middle}
use mathlib.Core.List.Perm
use tss_libp2p.Prelude.{
  ℕ, ◌+◌, ◌≡◌, refl, sym, ap, ◌∙◌, List, [], ◌∷◌, ◌++◌, map, arith, Perm, Nodup, length, ◌<◌,
  ℕ_discrete, sort-descending_of_perm, map-sort-descending,
}
use tss_libp2p.Echo.{EchoMessage, EchoResponse, popped, gather, ready, hashed}

EchoResponse-discrete : Discrete EchoResponse
EchoResponse-discrete = hlevel ℕ_discrete

EchoMessage-discrete : Discrete EchoMessage
EchoMessage-discrete = hlevel (ℕ_discrete, EchoResponse-discrete)

-- What a message is to all nodes: its sender and its payload.
abbrev pub said : EchoMessage → ℕ × List ℕ
said m = (m.sender, m.payload)

abbrev pub senders : List EchoMessage → List ℕ
senders = map (λ m. m.sender)

-- From distinct senders the messages are popped in one order, however they arrived.
pub popped_of_perm :
    {xs ys : List EchoMessage} → Perm xs ys → Nodup (senders xs) → popped xs ≡ popped ys
popped_of_perm = sort-descending_of_perm (λ m. m.sender) EchoMessage-discrete

pub said-discrete : Discrete (ℕ × List ℕ)
said-discrete = hlevel ℕ_discrete

payloads : List (ℕ × List ℕ) → List ℕ
payloads [] = []
payloads (m ∷ ms) = m.1 ++ payloads ms

hashed-said : (ms : List EchoMessage) → hashed ms ≡ payloads (map said ms)
unfolding hashed payloads
hashed-said [] = refl
hashed-said (m ∷ ms) = ap (◌++◌ m.payload) (hashed-said ms)

map-fst_said : (ms : List EchoMessage) → map (λ (p : ℕ × List ℕ). p.0) (map said ms) ≡ senders ms
map-fst_said [] = refl
map-fst_said (m ∷ ms) = ap (◌∷◌ m.sender) (map-fst_said ms)

-- Two nodes that got the same payloads from the same distinct senders hash the same bytes, whatever
-- the order of arrival at each and whichever of the messages is a node's own.
pub hashed_of_said :
    (xs ys : List EchoMessage)
    → Nodup (senders xs)
    → Perm (map said xs) (map said ys)
    → hashed (popped xs) ≡ hashed (popped ys)
hashed_of_said xs ys n p =
    let first = λ (q : ℕ × List ℕ). q.0 in
    let one : map said (popped xs) ≡ map said (popped ys) =
      map-sort-descending said first xs
      ∙ sort-descending_of_perm first said-discrete p (rw (map-fst_said xs) n)
      ∙ sym (map-sort-descending said first ys) in
    hashed-said (popped xs) ∙ ap payloads one ∙ sym (hashed-said (popped ys))

-- The messages that fill the heap are in it, and those after them are left in the channel.
pub gather_fills :
    (n : ℕ) (heap xs rest : List EchoMessage)
    → length heap + length xs ≡ n
    → length heap < n
    → (msgs : List EchoMessage) × (gather n heap (xs ++ rest) ≡ ready (msgs, rest))
      × Perm msgs (xs ++ heap)
unfolding gather
gather_fills n heap [] rest e h = absurd (omega arith)
gather_fills n heap (x ∷ []) rest e h = (x ∷ heap, ground arith, Perm.refl (x ∷ heap))
gather_fills n heap (x ∷ y ∷ ys) rest e h =
    let (msgs, g, p) = gather_fills n (x ∷ heap) (y ∷ ys) rest (omega arith) (omega arith) in
    (msgs, ground (arith, g), Perm.trans p (perm_middle (y ∷ ys) heap))
