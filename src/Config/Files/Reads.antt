-- ===== src/Config/Files/Reads.antt =====
-- What has been written can be read.
use tss_libp2p.Prelude.{
  ℕ, ◌≡◌, refl, List, [], ◌∷◌, Option, some, none, Bool, true, false, ◌||◌, ◌==◌, arith, inl, inr,
  Bool-cases,
}
use tss_libp2p.Io.{ok}
use tss_libp2p.HashMap
use tss_libp2p.HashMap.{get-insert_self}
use tss_libp2p.Broadcast.{Name, name_eq}
use tss_libp2p.Config.Files.{
  Files, strip_prefix, has_name, ends_in_slash, anything, past_slash, goes_past, past_file,
  after_prefix, is_directory, read_file, create_new, write_file,
}

-- A path does not go past itself.
pub goes_past_self : (test : Name → Bool) (p : Name) → goes_past test p p ≡ false
goes_past_self test [] = refl
goes_past_self test (c ∷ p) = ground (arith, goes_past_self test p)

has_name_of_end : (c : ℕ) (cs : Name) → ends_in_slash (c ∷ cs) ≡ false → has_name (c ∷ cs) ≡ true
has_name_of_end c [] h = ground arith
has_name_of_end c (d ∷ cs) h = ground (arith, has_name_of_end d cs h)

ends_in_slash_of_rest :
    (c : ℕ) (cs : Name) → ends_in_slash cs ≡ true → ends_in_slash (c ∷ cs) ≡ true
ends_in_slash_of_rest c [] h = cc
ends_in_slash_of_rest c (d ∷ cs) h = h

-- A path that ends in no slash and goes past a name goes on with a name.
pub goes_past_name :
    (name path : Name)
    → ends_in_slash path ≡ false
    → goes_past anything name path ≡ true
    → goes_past has_name name path ≡ true
goes_past_name [] [] h g = cc
goes_past_name [] (c ∷ []) h g = ground arith
goes_past_name [] (c ∷ d ∷ cs) h g = ground (arith, has_name_of_end d cs h)
goes_past_name (a ∷ name) [] h g = cc
goes_past_name (a ∷ name) (b ∷ path) h g = elim (Bool-cases (ends_in_slash path)) [
  | inl slash ↦ let e = ends_in_slash_of_rest b path slash in cc
  | inr fine ↦ ground (arith, goes_past_name name path fine)
]

pub past_file_name :
    (path : Name) (files : Files)
    → ends_in_slash path ≡ false
    → past_file has_name path files ≡ false
    → past_file anything path files ≡ false
unfolding past_file
past_file_name path [] h n = refl
past_file_name path ((name, content) ∷ files) h n =
    ground (arith, goes_past_name name path h, past_file_name path files h)

goes_past_weakens :
    (name path : Name) → goes_past has_name name path ≡ true → goes_past anything name path ≡ true
goes_past_weakens [] [] g = cc
goes_past_weakens [] (c ∷ path) g = ground arith
goes_past_weakens (a ∷ name) [] g = cc
goes_past_weakens (a ∷ name) (b ∷ path) g = ground (arith, goes_past_weakens name path)

pub past_file_weakens :
    (path : Name) (files : Files)
    → past_file anything path files ≡ false
    → past_file has_name path files ≡ false
unfolding past_file
past_file_weakens path [] n = refl
past_file_weakens path ((name, content) ∷ files) n =
    ground (arith, goes_past_weakens name path, past_file_weakens path files)

pub past_file-insert :
    (test : Name → Bool) (path q : Name) (content : List ℕ) (files : Files)
    → goes_past test q path ≡ false
    → past_file test path files ≡ false
    → past_file test path (HashMap.insert q content files) ≡ false
unfolding past_file HashMap.insert
past_file-insert test path q content [] g n = ground arith
past_file-insert test path q content ((name, old) ∷ files) g n =
    ground (arith, past_file-insert test path q content files g)

past_file-insert_old :
    (test : Name → Bool) (path q : Name) (content : List ℕ) (files : Files)
    → past_file test path (HashMap.insert q content files) ≡ false
    → (goes_past test q path ≡ false) × (past_file test path files ≡ false)
unfolding past_file HashMap.insert
past_file-insert_old test path q content [] n = (ground arith, refl)
past_file-insert_old test path q content ((name, old) ∷ files) n = elim (Bool-cases (name == q)) [
  | inl same ↦
      let e : name ≡ q = (name_eq.beq_iff name q).0 same in
      let n1 : (goes_past test q path || past_file test path files) ≡ false = rw same at n in
      rw e (ground arith)
  | inr apart ↦
      let n1 : (goes_past test name path || past_file test path (HashMap.insert q content files))
          ≡ false =
        rw apart at n in
      ground (arith, past_file-insert_old test path q content files)
]

-- A file that goes past a path makes it a directory.
pub after_prefix_of_past :
    (slash : Bool) (o : Option Name) → past_slash has_name o ≡ true → after_prefix slash o ≡ true
after_prefix_of_past slash none g = cc
after_prefix_of_past slash (some []) g = cc
after_prefix_of_past slash (some (c ∷ rest)) g = ground arith

pub is_directory-insert :
    (path q : Name) (content : List ℕ) (files : Files)
    → is_directory path (HashMap.insert q content files) ≡ false
    → after_prefix (ends_in_slash path) (strip_prefix path q) ≡ false
unfolding is_directory HashMap.insert
is_directory-insert path q content [] n = ground arith
is_directory-insert path q content ((name, old) ∷ files) n =
    ground (arith, is_directory-insert path q content files)

-- What the success of a write says of the path.
abbrev pub IsWritable : Name → Files → Type 0
IsWritable path files =
    (past_file has_name path files ≡ false)
    × (ends_in_slash path ≡ false)
    × (is_directory path files ≡ false)

pub create_new_ok :
    (path : Name) (content : List ℕ) (files after : Files)
    → create_new path content files ≡ ok after
    → IsWritable path files
      × (HashMap.get path files ≡ none)
      × (after ≡ HashMap.insert path content files)
unfolding create_new
create_new_ok path content files after e = ground arith

pub write_file_ok :
    (path : Name) (content : List ℕ) (files after : Files)
    → write_file path content files ≡ ok after
    → IsWritable path files × (after ≡ HashMap.insert path content files)
unfolding write_file
write_file_ok path content files after e = ground arith

-- What has been written is read back.
pub read_file-insert :
    (path : Name) (content : List ℕ) (files : Files)
    → IsWritable path files
    → read_file path (HashMap.insert path content files) ≡ ok content
unfolding read_file
read_file-insert path content files (past, slash, _) =
    let clear =
      past_file-insert anything path path content files (goes_past_self anything path)
        (past_file_name path files slash past) in
    rw (clear, get-insert_self path content files) refl
