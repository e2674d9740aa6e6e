-- ===== src/Config/Files/Below.antt =====
-- Two files that are written one after the other, and paths that go past a file.
use tss_libp2p.Prelude.{
  ℕ, ◌≡◌, ◌≢◌, refl, List, [], ◌∷◌, ◌++◌, some, none, true, false, ◌==◌, arith, inl, inr,
  Bool-cases,
}
use tss_libp2p.Io.{ok, err, not_found, not_a_directory}
use tss_libp2p.HashMap
use tss_libp2p.HashMap.{get-insert, get-insert_self}
use tss_libp2p.Broadcast.{Name, name_eq}
use tss_libp2p.Config.Files.{
  Files, strip_prefix, has_name, ends_in_slash, anything, goes_past, past_file, is_directory,
  read_file, create_new,
}
use tss_libp2p.Config.Files.Reads.{
  IsWritable, goes_past_self, goes_past_name, past_file_name, past_file_weakens, past_file-insert,
  after_prefix_of_past, is_directory-insert,
}

-- A file that is written later does not make a directory of one that is there.
pub read_file-insert_later :
    (path later : Name) (content more : List ℕ) (files : Files)
    → later ≢ path
    → IsWritable path files
    → IsWritable later (HashMap.insert path content files)
    → read_file path (HashMap.insert later more (HashMap.insert path content files)) ≡ ok content
unfolding read_file
read_file-insert_later path later content more files apart (past, slash, _) (_, _, no_dir) =
    let kept = HashMap.insert path content files in
    let clear =
      past_file-insert anything path path content files (goes_past_self anything path)
        (past_file_name path files slash past) in
    let beside : goes_past anything later path ≡ false =
      elim (Bool-cases (goes_past anything later path)) [
        | inr fine ↦ fine
        | inl over ↦
            let below =
              after_prefix_of_past (ends_in_slash later) (strip_prefix later path)
                (goes_past_name later path slash over) in
            let not_below = is_directory-insert later path content files no_dir in cc
      ] in
    let other : (later == path) ≡ false = elim (Bool-cases (later == path)) [
      | inl e ↦ absurd (apart ((name_eq.beq_iff later path).0 e))
      | inr e ↦ e
    ] in
    rw
      (
        past_file-insert anything path later more kept beside clear,
        get-insert later path more kept,
        other,
        get-insert_self path content files,
      )
      refl

goes_past-append : (q rest : Name) → goes_past anything q (q ++ (47 ∷ rest)) ≡ true
goes_past-append [] rest = refl
goes_past-append (c ∷ q) rest = ground (arith, goes_past-append q rest)

past_file_there :
    (q path : Name) (content : List ℕ) (files : Files)
    → goes_past anything q path ≡ true
    → HashMap.get q files ≡ some content
    → past_file anything path files ≡ true
unfolding past_file HashMap.get
past_file_there q path content [] over there = cc
past_file_there q path content ((name, old) ∷ files) over there = elim (Bool-cases (name == q)) [
  | inl same ↦ let e : name ≡ q = (name_eq.beq_iff name q).0 same in rw (e, over) refl
  | inr apart ↦
      let rest : HashMap.get q files ≡ some content = rw apart at there in
      ground (arith, past_file_there q path content files over rest)
]

-- A file cannot be read below another.
pub read_file_below :
    (q rest : Name) (content : List ℕ) (files : Files)
    → HashMap.get q files ≡ some content
    → read_file (q ++ (47 ∷ rest)) files ≡ err not_a_directory
unfolding read_file
read_file_below q rest content files there =
    rw (past_file_there q (q ++ (47 ∷ rest)) content files (goes_past-append q rest) there) refl

-- Nothing can be read below the first of two files.
pub read_below_both :
    (first later : Name) (content more : List ℕ) (files : Files) (rest : Name)
    → read_file
        (first ++ (47 ∷ rest))
        (HashMap.insert later more (HashMap.insert first content files))
      ≡ err not_a_directory
read_below_both first later content more files rest =
    let kept = HashMap.insert first content files in
    let both = get-insert later first more kept in
    elim (Bool-cases (later == first)) [
      | inl same ↦
          let there : HashMap.get first (HashMap.insert later more kept) ≡ some more =
            rw same at both in
          read_file_below first rest more (HashMap.insert later more kept) there
      | inr other ↦
          let there : HashMap.get first (HashMap.insert later more kept) ≡ some content =
            rw (other, get-insert_self first content files) at both in
          read_file_below first rest content (HashMap.insert later more kept) there
    ]

-- Where a file is missing, it can be made, unless the path ends in a slash.
pub read_file_missing :
    (path : Name) (files : Files)
    → read_file path files ≡ err not_found
    → (past_file has_name path files ≡ false)
      × (HashMap.get path files ≡ none)
      × (is_directory path files ≡ false)
unfolding read_file
read_file_missing path files e = ground (arith, past_file_weakens path files)

pub create_new_missing :
    (path : Name) (content : List ℕ) (files : Files)
    → ends_in_slash path ≡ false
    → read_file path files ≡ err not_found
    → create_new path content files ≡ ok (HashMap.insert path content files)
unfolding create_new
create_new_missing path content files slash e =
    let (past, gone, no_dir) = read_file_missing path files e in
    rw (past, slash, gone, create_new) (rw no_dir refl)
