-- ===== src/Backend/Dedup.antt =====
-- src-tauri/src/dedup.rs: the groups of duplicate files. The name and the hash of a file are
-- parameters, as is the order in which a `HashMap` yields its entries; the log is left out.
pub mod Groups
pub mod Detect
pub mod Twice
use search_every.Prelude.{
  ℕ, List, [], ◌∷◌, ◌++◌, Text, Bool, Option, none, some, length, map, filter, ltb, text_eq,
  if◌then◌else◌,
}
use search_every.Types.{DupGroup, DupKind}

-- `HashMap<String, Vec<String>>`, in the order of the insertions
abbrev pub Table : Type 0
Table = List (Text × List Text)

-- `map.entry(key).or_default().push(path)`
unfoldable pub push : Text → Text → Table → Table
push key path [] = (key, path ∷ []) ∷ []
push key path ((k, files) ∷ m) =
    if text_eq k key then (k, files ++ path ∷ []) ∷ m else (k, files) ∷ push key path m

abbrev pub push? : Option Text → Text → Table → Table
push? none path m = m
push? (some key) path m = push key path m

-- What the disk gives: the last part of a path; the hash of its content, `some none` where it is no
-- file, and `none` where it cannot be read; and the order of a table's entries.
pub record Disk : Type 0 where
  pub file_name : Text → Option Text
  pub hash_file : Text → Option (Option Text)
  pub order : Table → Table

-- The loop over the names; the first argument gives the key of a path, if it has one.
unfoldable pub key_map : (Text → Option Text) → Table → List Text → Table
key_map key m [] = m
key_map key m (p ∷ paths) = key_map key (push? (key p) p m) paths

-- The loop over the contents; `none` is the error of the first file that cannot be read.
unfoldable pub hash_map : Disk → Table → List Text → Option Table
hash_map disk m [] = some m
hash_map disk m (p ∷ paths) = elim (disk.hash_file p) [
  | none ↦ none
  | some key ↦ hash_map disk (push? key p m) paths
]

-- `if files.len() > 1 { groups.push(…) }`
unfoldable pub groups_of : DupKind → Table → List DupGroup
groups_of kind [] = []
groups_of kind ((key, files) ∷ m) =
    let rest = groups_of kind m in
    if ltb 1 (length files) then (record { kind = kind; key = key; files = files }) ∷ rest else rest

abbrev pub with_hashes : Disk → Table → Option Table → Option (List DupGroup)
with_hashes disk names none = none
with_hashes disk names (some hashes) =
    some (groups_of DupKind.hash (disk.order hashes) ++ groups_of DupKind.name (disk.order names))

unfoldable pub detect : Disk → List Text → Option (List DupGroup)
unfolding key_map hash_map
detect disk paths = with_hashes disk (key_map disk.file_name [] paths) (hash_map disk [] paths)
