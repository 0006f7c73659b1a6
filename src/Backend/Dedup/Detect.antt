-- ===== src/Backend/Dedup/Detect.antt =====
-- The groups that the detection returns are exactly those of the files with one name or one content.
use mathlib.Core.List.{Memᴰ}
use mathlib.Core.List.Memᴰ.{cases_cons, append_left, append_right, append_cases}
use search_every.Prelude.{
  ◌<◌, List, [], ◌∷◌, ◌++◌, Text, Option, none, some, length, ltb, ltb→lt, lt→ltb, ◌≡◌, ◌↔◌, inl,
  inr, ap, sym, ◌∙◌, arith, refl, All, ◌≢◌, Bool-cases, Option-cases, subst,
}
use search_every.Types.{DupGroup, DupKind}
use search_every.Backend.Dedup.{Table, push?, Disk, key_map, hash_map, groups_of, detect}
use search_every.Backend.Dedup.Groups.{
  having, files_at, files_at-key_map, files_at-Memᴰ, Memᴰ-files_at, Distinct, key_map-Distinct,
}

-- The hash that a path is put under.
abbrev pub content_key : Disk → Text → Option Text
content_key disk path = elim (disk.hash_file path) [ none ↦ none | some key ↦ key ]

abbrev pub kind_key : Disk → DupKind → Text → Option Text
kind_key disk DupKind.hash = content_key disk
kind_key disk DupKind.name = disk.file_name

-- Two or more of the paths, namely all with that name or content, in their order.
abbrev pub IsGroup : Disk → List Text → DupGroup → Type 0
IsGroup disk paths g = (g.files ≡ having (kind_key disk g.kind) g.key paths) × (1 < length g.files)

-- The loop over the contents, where no file fails.
hash_map-key_map :
    (disk : Disk) (m : Table) (paths : List Text) {hashes : Table}
    → hash_map disk m paths ≡ some hashes
    → hashes ≡ key_map (content_key disk) m paths
unfolding hash_map key_map
hash_map-key_map disk m [] h = cc
hash_map-key_map disk m (p ∷ paths) {hashes} h = elim (Option-cases (disk.hash_file p)) [
  | inl e ↦ let h' : none ≡ some hashes = rw (e, hash_map) at h in cc
  | inr (key, e) ↦
      rw (e, content_key) (hash_map-key_map disk (push? key p m) paths (rw (e, hash_map) at h))
]

module _ (kind : DupKind) where
  groups_of-Memᴰ :
      (g : DupGroup) (m : Table)
      → Memᴰ g (groups_of kind m)
      → (g.kind ≡ kind) × Memᴰ (g.key, g.files) m × (1 < length g.files)
  unfolding groups_of
  groups_of-Memᴰ g [] h = elim h [ ]
  groups_of-Memᴰ g ((key, files) ∷ m) h = elim (Bool-cases (ltb 1 (length files))) [
    | inl e ↦ elim (cases_cons (rw e at h)) [
      | inl q ↦ (
        ap (λ d. d.kind) q,
        Memᴰ.head (ap (λ d. (d.key, d.files)) q),
        subst (λ fs. 1 < length fs) (sym (ap (λ d. d.files) q)) (ltb→lt 1 (length files) e),
      )
      | inr h' ↦ let (k, i, two) = groups_of-Memᴰ g m h' in (k, Memᴰ.tail i, two)
    ]
    | inr e ↦ let (k, i, two) = groups_of-Memᴰ g m (rw e at h) in (k, Memᴰ.tail i, two)
  ]

  Memᴰ-groups_of :
      (key : Text) (files : List Text) (m : Table)
      → 1 < length files
      → Memᴰ (key, files) m
      → Memᴰ (record { kind = kind; key = key; files = files }) (groups_of kind m)
  unfolding groups_of
  Memᴰ-groups_of key files [] two h = elim h [ ]
  Memᴰ-groups_of key files ((k, fs) ∷ m) two (Memᴰ.head q) =
      rw (lt→ltb 1 (length fs) (rw (ap (λ e. e.1) q) at two))
        (Memᴰ.head (ap (λ e. record { kind = kind; key = e.0; files = e.1 }) q))
  Memᴰ-groups_of key files ((k, fs) ∷ m) two (Memᴰ.tail h) = elim (Bool-cases (ltb 1 (length fs))) [
    | inl e ↦ rw e (Memᴰ.tail (Memᴰ-groups_of key files m two h))
    | inr e ↦ rw e (Memᴰ-groups_of key files m two h)
  ]

-- An entry of the table of a kind is a group, if it has two files.
module _ (disk : Disk) (paths : List Text) where
  abbrev table : DupKind → Table
  table kind = key_map (kind_key disk kind) [] paths

  files_at-table :
      (kind : DupKind) (key : Text)
      → files_at key (table kind) ≡ having (kind_key disk kind) key paths
  files_at-table kind key = files_at-key_map (kind_key disk kind) key [] paths

  table-Distinct : (kind : DupKind) → Distinct (table kind)
  table-Distinct kind = key_map-Distinct (kind_key disk kind) [] paths tt

  module _ (iterates : (m : Table) (e : Text × List Text) → Memᴰ e (disk.order m) ↔ Memᴰ e m) where
    abbrev listed : DupKind → List DupGroup
    listed kind = groups_of kind (disk.order (table kind))

    listed-IsGroup :
        (kind : DupKind) (g : DupGroup)
        → Memᴰ g (listed kind)
        → (g.kind ≡ kind) × IsGroup disk paths g
    listed-IsGroup kind g h =
        let (k, i, two) = groups_of-Memᴰ kind g (disk.order (table kind)) h in
        let entry = (iterates (table kind) (g.key, g.files)).0 i in
        let found = files_at-Memᴰ g.key g.files (table kind) (table-Distinct kind) entry in
        (
          k,
          (
            sym found
                ∙ files_at-table kind g.key
                ∙ ap (λ j. having (kind_key disk j) g.key paths) (sym k),
            two,
          ),
        )

    IsGroup-listed : (g : DupGroup) → IsGroup disk paths g → Memᴰ g (listed g.kind)
    IsGroup-listed g (fs, two) =
        let e = files_at-table g.kind g.key in
        let same = e ∙ sym fs in
        let entry =
          Memᴰ-files_at g.key (table g.kind)
            (subst (λ xs. 0 < length xs) (sym same) (omega (arith, two))) in
        Memᴰ-groups_of g.kind g.key g.files (disk.order (table g.kind)) two (
          (iterates (table g.kind) (g.key, g.files)).1
            (subst (λ xs. Memᴰ (g.key, xs) (table g.kind)) same entry))

    tables_exact :
        (g : DupGroup) → Memᴰ g (listed DupKind.hash ++ listed DupKind.name) ↔ IsGroup disk paths g
    tables_exact g = (
      λ h. elim (append_cases (listed DupKind.hash) h) [
        | inl i ↦ (listed-IsGroup DupKind.hash g i).1
        | inr i ↦ (listed-IsGroup DupKind.name g i).1
      ],
      λ i. place g.kind (IsGroup-listed g i),
    )
      where
        place :
            (kind : DupKind)
            → Memᴰ g (listed kind)
            → Memᴰ g (listed DupKind.hash ++ listed DupKind.name)
        place DupKind.hash h = append_left (listed DupKind.name) h
        place DupKind.name h = append_right (listed DupKind.hash) h

-- The path can be read, or is no file.
abbrev pub CanRead : Disk → Text → Type 0
CanRead disk path = disk.hash_file path ≢ none

hash_map-CanRead :
    (disk : Disk) (m : Table) (paths : List Text)
    → All (CanRead disk) paths
    → (hashes : Table) × (hash_map disk m paths ≡ some hashes)
unfolding hash_map
hash_map-CanRead disk m [] h = (m, refl)
hash_map-CanRead disk m (p ∷ paths) h = elim (Option-cases (disk.hash_file p)) [
  | inl e ↦ absurd (h.0 e)
  | inr (key, e) ↦
      let (hashes, f) = hash_map-CanRead disk (push? key p m) paths h.1 in
      (hashes, rw (e, hash_map) f)
]

-- If every path can be read or is no file, then the detection gives groups, which are exactly those that
-- are due, whatever the order of a table's entries: two or more paths, all of the list with one name, or
-- all with one content, as they stand in the list.
pub detect_exact :
    (disk : Disk) (paths : List Text)
    → ((m : Table) (e : Text × List Text) → Memᴰ e (disk.order m) ↔ Memᴰ e m)
    → All (CanRead disk) paths
    → (groups : List DupGroup) × (detect disk paths ≡ some groups)
      × ((g : DupGroup) → Memᴰ g groups ↔ IsGroup disk paths g)
unfolding detect
detect_exact disk paths iterates readable =
    let (hashes, e) = hash_map-CanRead disk [] paths readable in
    let names = key_map disk.file_name [] paths in
    let found : Table → List DupGroup =
      λ m. groups_of DupKind.hash (disk.order m) ++ groups_of DupKind.name (disk.order names) in
    (
      found hashes,
      rw e refl,
      λ g.
          subst (λ m. Memᴰ g (found m) ↔ IsGroup disk paths g)
            (sym (hash_map-key_map disk [] paths e)) (tables_exact disk paths iterates g),
    )
