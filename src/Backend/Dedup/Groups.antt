-- ===== src/Backend/Dedup/Groups.antt =====
-- Which groups the detection finds.
use mathlib.Core.List.{Memᴰ}
use search_every.Prelude.{
  ◌<◌, List, [], ◌∷◌, ◌++◌, Text, Bool, true, false, Option, none, some, length, filter, text_eq,
  text_eq_iff, text_eq_refl, text_eq_sym, ◌≡◌, inl, inr, refl, ap, sym, ◌∙◌, All, arith,
  append_assoc, append-nil, Bool-cases, if◌then◌else◌,
}
use search_every.Backend.Dedup.{Table, push, push?, key_map}

-- The path has that key.
abbrev pub has_key : Option Text → Text → Bool
has_key none key = false
has_key (some k) key = text_eq k key

abbrev pub files_at : Text → Table → List Text
files_at key [] = []
files_at key ((k, files) ∷ m) = if text_eq k key then files else files_at key m

abbrev pub just_if : Bool → Text → List Text
just_if true path = path ∷ []
just_if false path = []

just_if-append :
    (b : Bool) (path : Text) (xs ys : List Text)
    → (if b then xs ++ path ∷ [] else ys) ≡ (if b then xs else ys) ++ just_if b path
just_if-append true path xs ys = refl
just_if-append false path xs ys = sym (append-nil ys)

just_if-filter :
    (b : Bool) (path : Text) (ys : List Text) → just_if b path ++ ys ≡ (if b then path ∷ ys else ys)
just_if-filter true path ys = refl
just_if-filter false path ys = refl

if_just : (b : Bool) (path : Text) → (if b then path ∷ [] else []) ≡ just_if b path
if_just true path = refl
if_just false path = refl

text_ne : (j k key : Text) → text_eq j k ≡ false → text_eq j key ≡ true → text_eq k key ≡ false
text_ne j k key h e =
    ground (arith, text_eq_iff k key, text_eq_iff j key, text_eq_iff j k, text_eq_refl j)

-- The files under a key, after one more path.
files_at-push :
    (key k path : Text) (m : Table)
    → files_at key (push k path m) ≡ files_at key m ++ just_if (text_eq k key) path
unfolding push
files_at-push key k path [] = if_just (text_eq k key) path
files_at-push key k path ((j, files) ∷ m) = elim (Bool-cases (text_eq j k)) [
  | inl e ↦
      let same : j ≡ k = (text_eq_iff j k).0 e in
      rw e (
        just_if-append (text_eq j key) path files (files_at key m)
        ∙ ap
            (λ i. (if text_eq j key then files else files_at key m) ++ just_if (text_eq i key) path)
            same)
  | inr e ↦ rw e (elim (Bool-cases (text_eq j key)) [
    | inl e' ↦ rw (e', text_ne j k key e e') (sym (append-nil files))
    | inr e' ↦ rw e' (files_at-push key k path m)
  ])
]

module _ (key : Text → Option Text) where
  -- The paths of the list with that key, in order.
  abbrev pub having : Text → List Text → List Text
  having k paths = filter (λ p. has_key (key p) k) paths

  files_at-push? :
      (k path : Text) (m : Table) (j : Option Text)
      → files_at k (push? j path m) ≡ files_at k m ++ just_if (has_key j k) path
  files_at-push? k path m none = sym (append-nil (files_at k m))
  files_at-push? k path m (some j) = files_at-push k j path m

  pub files_at-key_map :
      (k : Text) (m : Table) (paths : List Text)
      → files_at k (key_map key m paths) ≡ files_at k m ++ having k paths
  unfolding key_map
  files_at-key_map k m [] = sym (append-nil (files_at k m))
  files_at-key_map k m (p ∷ paths) =
      files_at-key_map k (push? (key p) p m) paths
      ∙ ap (λ fs. fs ++ having k paths) (files_at-push? k p m (key p))
      ∙ append_assoc (files_at k m) (just_if (has_key (key p) k) p) (having k paths)
      ∙ ap (λ fs. files_at k m ++ fs) (just_if-filter (has_key (key p) k) p (having k paths))

-- No key stands twice in a table.
abbrev Fresh : Text → Table → Type 0
Fresh key m = All (λ e. text_eq e.0 key ≡ false) m

abbrev pub Distinct : Table → Type 0
Distinct [] = Unit
Distinct ((k, files) ∷ m) = Fresh k m × Distinct m

Fresh-push :
    (j key path : Text) (m : Table) → text_eq key j ≡ false → Fresh j m → Fresh j (push key path m)
unfolding push
Fresh-push j key path [] h f = (h, tt)
Fresh-push j key path ((k, files) ∷ m) h f = elim (Bool-cases (text_eq k key)) [
  | inl e ↦ rw e (f.0, f.1)
  | inr e ↦ rw e (f.0, Fresh-push j key path m h f.1)
]

push-Distinct : (key path : Text) (m : Table) → Distinct m → Distinct (push key path m)
unfolding push
push-Distinct key path [] d = (tt, tt)
push-Distinct key path ((k, files) ∷ m) (f, d) = elim (Bool-cases (text_eq k key)) [
  | inl e ↦ rw e (f, d)
  | inr e ↦ rw e (Fresh-push k key path m (text_eq_sym key k ∙ e) f, push-Distinct key path m d)
]

pub key_map-Distinct :
    (key : Text → Option Text) (m : Table) (paths : List Text)
    → Distinct m
    → Distinct (key_map key m paths)
unfolding key_map
key_map-Distinct key m [] d = d
key_map-Distinct key m (p ∷ paths) d = key_map-Distinct key (push? (key p) p m) paths (step (key p))
  where
    step : (j : Option Text) → Distinct (push? j p m)
    step none = d
    step (some j) = push-Distinct j p m d

Memᴰ-Fresh :
    (k key : Text) (files : List Text) (m : Table)
    → Fresh k m
    → Memᴰ (key, files) m
    → text_eq key k ≡ false
Memᴰ-Fresh k key files [] f h = elim h [ ]
Memᴰ-Fresh k key files (e ∷ m) f (Memᴰ.head q) = ap (λ d. text_eq d.0 k) q ∙ f.0
Memᴰ-Fresh k key files (e ∷ m) f (Memᴰ.tail h) = Memᴰ-Fresh k key files m f.1 h

-- In such a table an entry is found by its key, and what is found is an entry.
pub files_at-Memᴰ :
    (key : Text) (files : List Text) (m : Table)
    → Distinct m
    → Memᴰ (key, files) m
    → files_at key m ≡ files
files_at-Memᴰ key files [] d h = elim h [ ]
files_at-Memᴰ key files ((k, fs) ∷ m) d (Memᴰ.head q) =
    rw (ap (λ e. text_eq k e.0) q ∙ text_eq_refl k) (sym (ap (λ e. e.1) q))
files_at-Memᴰ key files ((k, fs) ∷ m) (f, d) (Memᴰ.tail h) =
    rw (text_eq_sym k key ∙ Memᴰ-Fresh k key files m f h) (files_at-Memᴰ key files m d h)

pub Memᴰ-files_at :
    (key : Text) (m : Table) → 0 < length (files_at key m) → Memᴰ (key, files_at key m) m
Memᴰ-files_at key [] h = elim h [ ]
Memᴰ-files_at key ((k, fs) ∷ m) h = elim (Bool-cases (text_eq k key)) [
  | inl e ↦ rw e (Memᴰ.head (ap (λ j. (j, fs)) (sym ((text_eq_iff k key).0 e))))
  | inr e ↦ rw e (Memᴰ.tail (Memᴰ-files_at key m (rw e at h)))
]
