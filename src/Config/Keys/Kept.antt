-- ===== src/Config/Keys/Kept.antt =====
-- A key that is in its file stays the key of the node.
use tss_libp2p.Prelude.{
  sym, Bool-cases, some, Bool, true, false, ◌≡◌, refl, arith, inl, inr, Option-cases, length,
  nat_beq, ◌&&◌,
}
use tss_libp2p.Io.{IoError, ok, err, IoResult-cases, >>=-eq-ok}
use tss_libp2p.Config.Files.{Files, read_file}
use tss_libp2p.Config.Files.Reads.{create_new_ok, read_file-insert}
use tss_libp2p.HashMap
use tss_libp2p.HashMap.{get-insert_self}
use tss_libp2p.Broadcast.{Name, name_eq}
use tss_libp2p.Config.Keys.{
  KeyApi, is_not_found, or_generated, Keypair, ed25519, file, write_secret_file, parse_secret,
  get_secret, into_keypair,
}

and_false : (a : Bool) → (a && false) ≡ false
and_false true = refl
and_false false = refl

module _ {Key : Type 0} (keys : KeyApi Key) where
  -- 32 bytes are never taken for hexadecimal digits.
  parse_secret-to_bytes : (k : Key) → parse_secret keys (keys.to_bytes k) ≡ some k
  unfolding parse_secret
  parse_secret-to_bytes k =
      let short : nat_beq (length (keys.to_bytes k)) 64 ≡ false =
        ground (arith, keys.length-to_bytes k) in
      rw
        (
          short,
          and_false (keys.is_utf8 (keys.to_bytes k)),
          keys.from_bytes-to_bytes k,
          parse_secret,
        )
        refl

  pub into_keypair_present :
      (path : Name) (k generated : Key) (files : Files)
      → read_file path files ≡ ok (keys.to_bytes k)
      → into_keypair keys (file path) generated files ≡ ok (ed25519 k, files)
  unfolding into_keypair get_secret or_generated
  into_keypair_present path k generated files there =
      rw (there, into_keypair, get_secret) (rw (parse_secret-to_bytes k, or_generated) refl)

  -- A key that is written to a new file is the one that is found there.
  found_again :
      (path : Name) (k later : Key) (files after : Files)
      → write_secret_file path (keys.to_bytes k) files ≡ ok after
      → into_keypair keys (file path) later after ≡ ok (ed25519 k, after)
  unfolding write_secret_file
  found_again path k later files after written =
      let (writable, _, e) = create_new_ok path (keys.to_bytes k) files after written in
      rw e (
        into_keypair_present path k later (HashMap.insert path (keys.to_bytes k) files)
          (read_file-insert path (keys.to_bytes k) files writable))

  -- A key that is missing is made, and no other error makes one.
  generated_lem :
      (path : Name) (generated : Key) (files after : Files) (k : Key) (e : IoError)
      → or_generated keys path generated files (err e) ≡ ok (k, after)
      → (k ≡ generated) × (write_secret_file path (keys.to_bytes generated) files ≡ ok after)
  unfolding or_generated
  generated_lem path generated files after k e h = elim (Bool-cases (is_not_found e)) [
    | inr other ↦ cc (rw (other, or_generated) at h)
    | inl missing ↦
        let (written, wrote, rest) =
          >>=-eq-ok (write_secret_file path (keys.to_bytes generated) files) _
            (rw (missing, or_generated) at h) in
        let same : written ≡ after = cc rest in (cc rest, rw (sym same) wrote)
  ]

  -- A node whose key is kept in a file has the same key at each start: once it has been found or made
  -- there, a later start finds it, whatever it would have generated, and leaves the files as they are.
  pub into_keypair_stable :
      (path : Name) (generated later : Key) (files after : Files) (pair : Keypair Key)
      → into_keypair keys (file path) generated files ≡ ok (pair, after)
      → into_keypair keys (file path) later after ≡ ok (pair, after)
  unfolding into_keypair get_secret or_generated
  into_keypair_stable path generated later files after pair first =
      let ((k, written), got, rest) = >>=-eq-ok (get_secret keys path generated files) _ first in
      let same : written ≡ after = cc rest in
      let its : ed25519 k ≡ pair = cc rest in
      elim (IoResult-cases (read_file path files)) [
        | inl (bs, there) ↦ elim (Option-cases (parse_secret keys bs)) [
          | inl bad ↦ cc (rw there at got, bad)
          | inr (k1, good) ↦
              let e1 : ok (k1, files) ≡ ok (k, written) =
                rw (good, or_generated) at (rw (there, get_secret) at got) in
              let unmoved : files ≡ after = cc (e1, same) in
              let again : into_keypair keys (file path) later files ≡ ok (ed25519 k1, files) =
                rw (there, into_keypair, get_secret) (rw (good, or_generated) refl) in
              cc (e1, again, unmoved, its)
        ]
        | inr (inl (e, failed)) ↦
            let (new_one, wrote) =
              generated_lem path generated files written k e (rw (failed, get_secret) at got) in
            let found = found_again path generated later files written wrote in
            rw (sym same, sym its, new_one) found
        | inr (inr (inl gone)) ↦ cc (rw (gone, get_secret) at got)
        | inr (inr (inr gone)) ↦ cc (rw (gone, get_secret) at got)
      ]
