-- ===== src/Config/Keys.antt =====
-- The secret key of a node: given, generated, or kept in a file.
pub mod Kept
use tss_libp2p.Prelude.{
  ℕ, List, Option, some, none, Bool, true, false, ◌≡◌, ◌&&◌, if◌then◌else◌, nat_beq, length,
}
use tss_libp2p.Io.{
  IoResult, IoError, ok, err, panic, stuck, invalid_input, unexpected_eof, not_found, invalid_data,
  already_exists, not_a_directory, is_a_directory, ◌>>=◌,
}
use tss_libp2p.Broadcast.{Name}
use tss_libp2p.Config.Files.{Files, read_file, create_new}

-- `ed25519::SecretKey`, UTF-8 and hexadecimal digits, which are libraries' own: a key is read back from
-- its bytes, of which there are 32.
pub record KeyApi (Key : Type 0) : Type 0 where
  pub from_bytes : List ℕ → Option Key
  pub to_bytes : Key → List ℕ
  pub is_utf8 : List ℕ → Bool
  pub hex_decode : List ℕ → Option (List ℕ)
  pub from_bytes-to_bytes : (k : Key) → from_bytes (to_bytes k) ≡ some k
  pub length-to_bytes : (k : Key) → length (to_bytes k) ≡ 32

-- `Secret` in `NodeKeyConfig::Ed25519`.
pub data Secret (Key : Type 0) : Type 0 where
  input : Key → Secret Key
  file : Name → Secret Key
  fresh : Secret Key

-- `Keypair`: of its variants only ed25519 is used.
pub data Keypair (Key : Type 0) : Type 0 where
  ed25519 : Key → Keypair Key
  other_curve : Keypair Key

-- `open_secret_file` with `create_new`, and `write_secret_file`.
unfoldable pub write_secret_file : Name → List ℕ → Files → IoResult Files
write_secret_file path sk_bytes files = create_new path sk_bytes files

-- `kind() == NotFound`.
abbrev pub is_not_found : IoError → Bool
is_not_found invalid_input = false
is_not_found unexpected_eof = false
is_not_found not_found = true
is_not_found invalid_data = false
is_not_found already_exists = false
is_not_found not_a_directory = false
is_not_found is_a_directory = false

module _ {Key : Type 0} (keys : KeyApi Key) where
  -- 64 characters are read as hexadecimal digits, all else as the bytes of the key.
  unfoldable pub parse_secret : List ℕ → Option Key
  parse_secret b =
      elim (if keys.is_utf8 b && nat_beq (length b) 64 then keys.hex_decode b else none) [
        | some s ↦ keys.from_bytes s
        | none ↦ keys.from_bytes b
      ]

  -- What `get_secret` does with what it has read: only a missing file is made, with a new key
  -- (`generated`) in it; every other error is handed on.
  unfoldable pub or_generated : Name → Key → Files → IoResult (List ℕ) → IoResult (Key × Files)
  unfolding parse_secret write_secret_file
  or_generated path generated files (ok sk_bytes) = elim (parse_secret sk_bytes) [
    | none ↦ err invalid_data
    | some k ↦ ok (k, files)
  ]
  or_generated path generated files (err e) =
      let made : IoResult (Key × Files) =
        write_secret_file path (keys.to_bytes generated) files >>= λ written.
        ok (generated, written) in
      if is_not_found e then made else err e
  or_generated path generated files panic = panic
  or_generated path generated files stuck = stuck

  unfoldable pub get_secret : Name → Key → Files → IoResult (Key × Files)
  unfolding or_generated
  get_secret path generated files = or_generated path generated files (read_file path files)

  unfoldable pub into_keypair : Secret Key → Key → Files → IoResult (Keypair Key × Files)
  unfolding get_secret
  into_keypair fresh generated files = ok (ed25519 generated, files)
  into_keypair (input k) generated files = ok (ed25519 k, files)
  into_keypair (file f) generated files =
      get_secret f generated files >>= λ r. ok (ed25519 r.0, r.1)

  -- `NodeKeyConfig::persist`.
  unfoldable pub persist : Keypair Key → Name → Files → IoResult Files
  unfolding write_secret_file
  persist (ed25519 k) path files = write_secret_file path (keys.to_bytes k) files
  persist other_curve path files = panic
