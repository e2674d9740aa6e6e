-- ===== src/Config/Files.antt =====
-- `std::fs` as the program uses it. The files are a list of paths and contents, and paths are compared as
-- texts. A directory is there where a file lies below it, and `create_dir_all` makes what a file
-- needs; permissions and other failures of a disk are left out.
pub mod Reads
pub mod Below
use tss_libp2p.Prelude.{
  ℕ, List, [], ◌∷◌, Option, some, none, Bool, true, false, ◌||◌, ◌&&◌, if◌then◌else◌, nat_beq,
}
use tss_libp2p.Io.{IoResult, ok, err, not_found, already_exists, not_a_directory, is_a_directory}
use tss_libp2p.HashMap
use tss_libp2p.Broadcast.{Name, name_eq}

abbrev pub Files : Type 0
Files = List (Name × List ℕ)

-- What follows `prefix` in a path.
abbrev pub strip_prefix : Name → Name → Option Name
strip_prefix [] path = some path
strip_prefix (a ∷ prefix) [] = none
strip_prefix (a ∷ prefix) (b ∷ path) =
    let rest = strip_prefix prefix path in if nat_beq a b then rest else none

-- A path with something beside slashes. `Path::parent` gives none for any other.
abbrev pub has_name : Name → Bool
has_name [] = false
has_name (c ∷ cs) = let rest = has_name cs in if nat_beq c 47 then rest else true

abbrev pub ends_in_slash : Name → Bool
ends_in_slash [] = false
ends_in_slash (c ∷ []) = nat_beq c 47
ends_in_slash (c ∷ d ∷ cs) = ends_in_slash (d ∷ cs)

abbrev pub anything : Name → Bool
anything rest = true

-- After `name` the path goes on with a slash, and then with something of this kind.
abbrev pub past_slash : (Name → Bool) → Option Name → Bool
past_slash test none = false
past_slash test (some []) = false
past_slash test (some (c ∷ rest)) = nat_beq c 47 && test rest

abbrev pub goes_past : (Name → Bool) → Name → Name → Bool
goes_past test name path = past_slash test (strip_prefix name path)

-- The path goes past one of the files, as if it were a directory.
unfoldable pub past_file : (Name → Bool) → Name → Files → Bool
past_file test path [] = false
past_file test path ((name, content) ∷ files) =
    goes_past test name path || past_file test path files

-- A file lies below the path.
abbrev pub after_prefix : Bool → Option Name → Bool
after_prefix slash none = false
after_prefix slash (some []) = false
after_prefix slash (some (c ∷ rest)) = nat_beq c 47 || slash

unfoldable pub is_directory : Name → Files → Bool
is_directory path [] = false
is_directory path ((name, content) ∷ files) =
    after_prefix (ends_in_slash path) (strip_prefix path name) || is_directory path files

-- `fs::read`.
unfoldable pub read_file : Name → Files → IoResult (List ℕ)
read_file path files =
    let missing : IoResult (List ℕ) =
      if is_directory path files then err is_a_directory else err not_found in
    let found : IoResult (List ℕ) = elim (HashMap.get path files) [
      | some content ↦ ok content
      | none ↦ missing
    ] in
    if past_file anything path files then err not_a_directory else found

-- `open` for a file that must not be there yet, and then the content.
unfoldable pub create_new : Name → List ℕ → Files → IoResult Files
create_new path content files =
    let made : IoResult Files =
      if is_directory path files
      then err already_exists
      else ok (HashMap.insert path content files) in
    let opened : IoResult Files = elim (HashMap.get path files) [
      | some _ ↦ err already_exists
      | none ↦ made
    ] in
    if past_file has_name path files
    then err not_a_directory
    else if ends_in_slash path
    then err is_a_directory
    else opened

-- `fs::write`, which replaces a file that is there.
unfoldable pub write_file : Name → List ℕ → Files → IoResult Files
write_file path content files =
    let opened : IoResult Files =
      if is_directory path files
      then err is_a_directory
      else ok (HashMap.insert path content files) in
    if past_file has_name path files
    then err not_a_directory
    else if ends_in_slash path
    then err is_a_directory
    else opened
