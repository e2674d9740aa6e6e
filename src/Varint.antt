-- ===== src/Varint.antt =====
-- The crate `unsigned_varint`, which is not part of the repository: what the program relies on.
pub mod Leb128
use tss_libp2p.Prelude.{ℕ, ◌^◌, ◌<◌, ◌≡◌, List, [], ◌++◌}

-- The integer types that the program encodes; `usize` is 64 bits wide.
pub data Width : Type 0 where
  u8 u16 u64 usize : Width

abbrev pub bits : Width → ℕ
bits u8 = 8
bits u16 = 16
bits u64 = 64
bits usize = 64

-- `io::ReadError`: the input ended, or the bytes are no number of that type.
pub data ReadError : Type 0 where
  eof decode : ReadError

pub data ReadResult {ℓ} (A : Type ℓ) : Type ℓ where
  ok : A → ReadResult A
  err : ReadError → ReadResult A

-- `encode::u8` to `encode::usize`, and `io::read_u8` to `io::read_usize` with the unread input.
-- A reader takes back what an encoder wrote, whatever follows it, and reports an empty input as
-- such; a value read is one of its type.
pub record VarintApi : Type 0 where
  pub encode : ℕ → List ℕ
  pub read : Width → List ℕ → ReadResult (ℕ × List ℕ)
  pub read-encode :
      (w : Width) (n : ℕ) (rest : List ℕ)
      → n < 2 ^ bits w
      → read w (encode n ++ rest) ≡ ok (n, rest)
  pub read-nil : (w : Width) → read w [] ≡ err eof
  pub read-lt :
      (w : Width) (src : List ℕ) (n : ℕ) (rest : List ℕ)
      → read w src ≡ ok (n, rest)
      → n < 2 ^ bits w
