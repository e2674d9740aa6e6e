-- ===== src/Varint/Leb128.antt =====
-- A concrete varint: seven bits a byte, lowest group first. It meets the assumptions on the crate.
use tss_libp2p.Prelude.{
  ℕ, zero, suc, ◌+◌, ◌*◌, ◌/◌, ◌%◌, ◌^◌, ◌<◌, ◌≡◌, List, [], ◌∷◌, ◌++◌, arith, ltb, if◌then◌else◌,
  refl, length, ◌≤◌,
}
use tss_libp2p.Varint.{
  Width, u8, u16, u64, usize, bits, ReadResult, ok, err, eof, decode, VarintApi,
}

-- Numbers below `128 ^ (k + 1)`.
groups : ℕ → ℕ → List ℕ
groups zero v = v ∷ []
groups (suc k) v =
    let rest = groups k (v / 128) in if ltb v 128 then v ∷ [] else (v % 128 + 128) ∷ rest

abbrev add_group : ℕ → ReadResult (ℕ × List ℕ) → ReadResult (ℕ × List ℕ)
add_group g (ok (v, rest)) = ok (g + 128 * v, rest)
add_group g (err e) = err e

ungroup : ℕ → List ℕ → ReadResult (ℕ × List ℕ)
ungroup k [] = err eof
ungroup zero (b ∷ bs) = err decode
ungroup (suc k) (b ∷ bs) =
    let more = ungroup k bs in if ltb b 128 then ok (b, bs) else add_group (b % 128) more

ungroup-groups :
    (k v : ℕ) (rest : List ℕ)
    → v < 128 ^ suc k
    → ungroup (suc k) (groups k v ++ rest) ≡ ok (v, rest)
unfolding groups ungroup
ungroup-groups zero v rest h = ground arith
ungroup-groups (suc k) v rest h = ground (arith, ungroup-groups k (v / 128) rest (omega arith))

check : ℕ → ReadResult (ℕ × List ℕ) → ReadResult (ℕ × List ℕ)
check limit (ok (v, rest)) = if ltb v limit then ok (v, rest) else err decode
check limit (err e) = err e

read_width : Width → List ℕ → ReadResult (ℕ × List ℕ)
unfolding check ungroup
read_width w src = check (2 ^ bits w) (ungroup 10 src)

read-encode :
    (w : Width) (n : ℕ) (rest : List ℕ)
    → n < 2 ^ bits w
    → read_width w (groups 9 n ++ rest) ≡ ok (n, rest)
unfolding read_width check
read-encode u8 n rest h = ground (arith, ungroup-groups 9 n rest (omega arith))
read-encode u16 n rest h = ground (arith, ungroup-groups 9 n rest (omega arith))
read-encode u64 n rest h = ground (arith, ungroup-groups 9 n rest (omega arith))
read-encode usize n rest h = ground (arith, ungroup-groups 9 n rest (omega arith))

read-nil : (w : Width) → read_width w [] ≡ err eof
unfolding read_width
read-nil w = refl

read-lt :
    (w : Width) (src : List ℕ) (n : ℕ) (rest : List ℕ)
    → read_width w src ≡ ok (n, rest)
    → n < 2 ^ bits w
unfolding read_width check
read-lt w src n rest h = go (ungroup 10 src) h
  where
    go : (r : ReadResult (ℕ × List ℕ)) → check (2 ^ bits w) r ≡ ok (n, rest) → n < 2 ^ bits w
    go (ok (v, more)) e = ground arith
    go (err x) e = cc

abbrev pub leb128 : VarintApi
unfolding groups read_width read-encode read-nil read-lt ungroup-groups
leb128 = record {
  encode = groups 9;
  read = read_width;
  read-encode = read-encode;
  read-nil = read-nil;
  read-lt = read-lt;
}

length-groups : (k v : ℕ) → length (groups k v) ≤ suc k
unfolding groups
length-groups zero v = omega arith
length-groups (suc k) v = ground (arith, length-groups k (v / 128))

pub length-encode : (v : ℕ) → length (leb128.encode v) ≤ 10
unfolding leb128
length-encode v = length-groups 9 v
