-- ===== src/Io/Reader.antt =====
-- What `BufReader::read` returns.
use tss_libp2p.Prelude.{
  ℕ, zero, suc, ◌+◌, ◌<◌, ◌≡◌, refl, ap, List, [], ◌∷◌, ◌++◌, arith, inl, inr, ◌⊎◌, length, take,
  drop, take-append, drop-append, length-take, take-append-drop, length-append,
}
use tss_libp2p.Io.{BufReader, new_reader, read, buf_capacity}

-- Bytes that stand in the buffer are read without a fill.
pub read_front :
    (n : ℕ) (xs ys src : List ℕ)
    → length xs ≡ n
    → 0 < n
    → read n (record { buffered = xs ++ ys; source = src })
      ≡ (xs, record { buffered = ys; source = src })
unfolding read
read_front n [] ys src e h = absurd (omega arith)
read_front n (x ∷ xs) ys src e h = rw (← e, take-append xs ys, drop-append xs ys)

take_nil : (n : ℕ) → length (take {A = ℕ} n []) ≡ 0
take_nil zero = refl
take_nil (suc n) = refl

-- A read gives no more than what stands in the buffer, unless that is empty.
pub length-read-lt :
    (n : ℕ) (tail src : List ℕ)
    → length tail < n
    → (0 < length tail) ⊎ (src ≡ [])
    → length (read n (record { buffered = tail; source = src })).0 < n
unfolding read
length-read-lt n [] src h (inl k) = absurd (omega arith)
length-read-lt n [] src h (inr e) =
    rw e (omega (arith, take_nil buf_capacity, length-take {A = ℕ} n (take buf_capacity [])))
length-read-lt n (x ∷ xs) src h k = omega (arith, length-take n (x ∷ xs))

-- The first read fills the buffer.
pub read-new_reader :
    (n : ℕ) (bs : List ℕ)
    → read n (new_reader bs)
      ≡ read n (record { buffered = take buf_capacity bs; source = drop buf_capacity bs })
unfolding read buf_capacity
read-new_reader n [] = refl
read-new_reader n (b ∷ bs) = refl

-- A read hands out bytes of the buffer and the source, and loses none.
pub read_conserves :
    (n : ℕ) (r : BufReader)
    → let (xs, r') = read n r in
      length xs + length r'.buffered + length r'.source ≡ length r.buffered + length r.source
unfolding read
read_conserves n r = go r.buffered r.source
  where
    go :
        (bs src : List ℕ)
        → let (xs, r') = read n (record { buffered = bs; source = src }) in
          length xs + length r'.buffered + length r'.source ≡ length bs + length src
    go [] src = omega (
      arith,
      ap length (take-append-drop n (take buf_capacity src)),
      length-append (take n (take buf_capacity src)) (drop n (take buf_capacity src)),
      ap length (take-append-drop buf_capacity src),
      length-append (take buf_capacity src) (drop buf_capacity src),
    )
    go (b ∷ bs) src = omega (
      arith,
      ap length (take-append-drop n (b ∷ bs)),
      length-append (take n (b ∷ bs)) (drop n (b ∷ bs)),
    )
