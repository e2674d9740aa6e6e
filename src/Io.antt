-- ===== src/Io.antt =====
-- `std::io` as the program uses it: results, exact reads from a byte slice, `BufWriter` over a
-- vector and `BufReader` over a slice. A byte is a number, a byte string a list.
pub mod Reader
pub mod Writer
use tss_libp2p.Prelude.{
  ◌⊎◌, inl, inr, ℕ, ◌-◌, ◌≤◌, ◌<◌, ◌+◌, List, [], ◌∷◌, ◌++◌, length, take, drop, min, ltb, leb,
  if◌then◌else◌, Bool, true, false, ◌≡◌, ◌≢◌, refl,
}

-- `io::ErrorKind`, as far as the program makes or tells kinds apart.
pub data IoError : Type 0 where
  invalid_input unexpected_eof not_found invalid_data already_exists : IoError
  not_a_directory is_a_directory : IoError

-- `io::Result`, and the panic that ends a task. `stuck` is no value of the program: a loop of the
-- model ran out of its fuel.
pub data IoResult {ℓ} (A : Type ℓ) : Type ℓ where
  ok : A → IoResult A
  err : IoError → IoResult A
  panic : IoResult A
  stuck : IoResult A

infixl 5 ◌>>=◌
abbrev pub ◌>>=◌ {ℓ κ} : {A : Type ℓ} {B : Type κ} → IoResult A → (A → IoResult B) → IoResult B
ok a >>= f = f a
err e >>= f = err e
panic >>= f = panic
stuck >>= f = stuck

-- Inversion of a successful bind.
pub >>=-eq-ok {ℓ κ} :
    {A : Type ℓ} {B : Type κ} (m : IoResult A) (next : A → IoResult B) {last : B}
    → (m >>= next) ≡ ok last
    → (a : A) × (m ≡ ok a) × (next a ≡ ok last)
>>=-eq-ok (ok a) next e = (a, refl, e)
>>=-eq-ok (err x) next e = cc
>>=-eq-ok panic next e = cc
>>=-eq-ok stuck next e = cc

pub >>=-ne-panic {ℓ κ} :
    {A : Type ℓ} {B : Type κ} (m : IoResult A) (f : A → IoResult B)
    → m ≢ panic
    → ((a : A) → f a ≢ panic)
    → (m >>= f) ≢ panic
>>=-ne-panic (ok a) f h k = k a
>>=-ne-panic (err e) f h k = λ p. cc
>>=-ne-panic panic f h k = absurd (h refl)
>>=-ne-panic stuck f h k = λ p. cc

pub >>=-ne-stuck {ℓ κ} :
    {A : Type ℓ} {B : Type κ} (m : IoResult A) (f : A → IoResult B)
    → m ≢ stuck
    → ((a : A) → f a ≢ stuck)
    → (m >>= f) ≢ stuck
>>=-ne-stuck (ok a) f h k = k a
>>=-ne-stuck (err e) f h k = λ p. cc
>>=-ne-stuck panic f h k = λ p. cc
>>=-ne-stuck stuck f h k = absurd (h refl)

pub IoResult-cases {ℓ} :
    {A : Type ℓ} (r : IoResult A)
    → ((a : A) × (r ≡ ok a)) ⊎ ((e : IoError) × (r ≡ err e)) ⊎ (r ≡ panic) ⊎ (r ≡ stuck)
IoResult-cases (ok a) = inl (a, refl)
IoResult-cases (err e) = inr (inl (e, refl))
IoResult-cases panic = inr (inr (inl refl))
IoResult-cases stuck = inr (inr (inr refl))

-- `read_exact` on a slice: exactly `n` bytes, or `UnexpectedEof`.
unfoldable pub read_exact : ℕ → List ℕ → IoResult (List ℕ × List ℕ)
read_exact n src = if leb n (length src) then ok (take n src, drop n src) else err unexpected_eof

-- `DEFAULT_BUF_SIZE` of the standard library.
unfoldable pub buf_capacity : ℕ
buf_capacity = 8192

pub buf_capacity_lem : buf_capacity ≡ 8192
unfolding buf_capacity
buf_capacity_lem = refl

-- `BufWriter<Vec<u8>>`: what still stands in the buffer, and what the vector has received.
pub record BufWriter : Type 0 where
  pub buffer : List ℕ
  pub inner : List ℕ

abbrev pub new_writer : BufWriter
new_writer = record { buffer = []; inner = [] }

flush : BufWriter → BufWriter
flush w = record { buffer = []; inner = w.inner ++ w.buffer }

-- `write_all_cold` after its flush: a large input goes past the buffer.
write_past : List ℕ → BufWriter → BufWriter
write_past bs w =
    if leb buf_capacity (length bs)
    then record w { inner = w.inner ++ bs }
    else record w { buffer = w.buffer ++ bs }

-- `BufWriter::write_all`.
unfoldable pub write_all : List ℕ → BufWriter → BufWriter
unfolding flush write_past
write_all bs w =
    let spare = buf_capacity - length w.buffer in
    if ltb (length bs) spare
    then record w { buffer = w.buffer ++ bs }
    else write_past bs (if ltb spare (length bs) then flush w else w)

-- `BufReader<&[u8]>`: the bytes buffered and not yet taken, and the rest of the slice.
pub record BufReader : Type 0 where
  pub buffered : List ℕ
  pub source : List ℕ

abbrev pub new_reader : List ℕ → BufReader
new_reader bs = record { buffered = []; source = bs }

-- `fill_buf`: only an empty buffer is filled.
unfoldable pub fill_buf : BufReader → BufReader
fill_buf r = elim r.buffered [
  | [] ↦ record { buffered = take buf_capacity r.source; source = drop buf_capacity r.source }
  | _ ∷ _ ↦ r
]

-- `BufReader::read` for a request below the capacity: one fill, and at most what it left.
unfoldable pub read : ℕ → BufReader → List ℕ × BufReader
unfolding fill_buf
read n r = let f = fill_buf r in (take n f.buffered, record f { buffered = drop n f.buffered })
