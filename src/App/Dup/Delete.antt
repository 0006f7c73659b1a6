-- ===== src/App/Dup/Delete.antt =====
-- What deleting a file leaves on the page of duplicates.
use mathlib.Core.List.{Memᴰ}
use search_every.Prelude.{
  ◌<◌, List, [], ◌∷◌, Text, Bool, true, length, map, filter, text_eq, text_eq_refl, ◌≡◌, ◌≢◌, ◌∙◌,
  refl, ap, arith, All, filter-All, All-weaken, length-filter-le, ltb→lt, Bool-cases, inl, inr,
  subst, sym,
}
use search_every.Types.{DupGroup}
use search_every.App.State.{App, gives}
use search_every.App.Dup.{differs, without_file, is_group, remove_file, on_deleted}

differs→neq : (path p : Text) → differs path p ≡ true → p ≢ path
differs→neq path p h e = ground (arith, h, ap (λ q. text_eq q path) e, text_eq_refl path)

-- A group that is worth showing, without the file.
abbrev pub Left : Text → DupGroup → Type 0
Left path g = All (λ p. p ≢ path) g.files × (1 < length g.files)

remove_file-Left : (path : Text) (gs : List DupGroup) → All (Left path) (remove_file path gs)
unfolding remove_file
remove_file-Left path [] = tt
remove_file-Left path (g ∷ gs) =
    let kept = filter (differs path) g.files in
    let rest = remove_file-Left path gs in
    elim (Bool-cases (is_group (without_file path g))) [
      | inl e ↦ rw e (
        (
          All-weaken (differs→neq path) kept (filter-All (differs path) g.files),
          ltb→lt 1 (length kept) e,
        ),
        rest,
      )
      | inr e ↦ rw e rest
    ]

-- After a deletion no shown group has the file, and each of them has two files at least.
on_deleted-Left :
    (path : Text) (s : App) → All (Left path) (on_deleted path (gives tt) s).dup_groups
unfolding on_deleted
on_deleted-Left path s = remove_file-Left path s.dup_groups

filter_comm :
    {A : Type 0} (p q : A → Bool) (xs : List A) → filter p (filter q xs) ≡ filter q (filter p xs)
filter_comm p q [] = refl
filter_comm p q (x ∷ xs) = ground (arith, filter_comm p q xs)

without_file_comm :
    (p q : Text) (g : DupGroup)
    → without_file p (without_file q g) ≡ without_file q (without_file p g)
without_file_comm p q g =
    ap (λ fs. record g { files = fs }) (filter_comm (differs p) (differs q) g.files)

is_group-without_file :
    (p : Text) (g : DupGroup) → is_group (without_file p g) ≡ true → is_group g ≡ true
is_group-without_file p g h = ground (arith, length-filter-le (differs p) g.files)

-- Two deletions are one pass without both files.
remove_file_twice :
    (p q : Text) (gs : List DupGroup)
    → remove_file p (remove_file q gs)
      ≡ filter is_group (map (λ g. without_file p (without_file q g)) gs)
unfolding remove_file
remove_file_twice p q [] = refl
remove_file_twice p q (g ∷ gs) =
    let ih = remove_file_twice p q gs in
    elim (Bool-cases (is_group (without_file q g))) [
      | inl e ↦ rw e (ground (arith, ih))
      | inr e ↦ rw e (ground (arith, ih, is_group-without_file p (without_file q g)))
    ]

map-without_file_comm :
    (p q : Text) (gs : List DupGroup)
    → map (λ g. without_file p (without_file q g)) gs
      ≡ map (λ g. without_file q (without_file p g)) gs
map-without_file_comm p q [] = refl
map-without_file_comm p q (g ∷ gs) = rw (without_file_comm p q g, map-without_file_comm p q gs) refl

remove_file_comm :
    (p q : Text) (gs : List DupGroup)
    → remove_file p (remove_file q gs) ≡ remove_file q (remove_file p gs)
remove_file_comm p q gs =
    remove_file_twice p q gs
    ∙ ap (filter is_group) (map-without_file_comm p q gs)
    ∙ sym (remove_file_twice q p gs)

-- Two deletions leave the same groups in whichever order their answers come.
on_deleted_comm :
    (p q : Text) (s : App)
    → (on_deleted p (gives tt) (on_deleted q (gives tt) s)).dup_groups
      ≡ (on_deleted q (gives tt) (on_deleted p (gives tt) s)).dup_groups
unfolding on_deleted
on_deleted_comm p q s = remove_file_comm p q s.dup_groups

filter_kept :
    {A : Type 0} (p : A → Bool) (xs : List A) → All (λ x. p x ≡ true) xs → filter p xs ≡ xs
filter_kept p [] h = refl
filter_kept p (x ∷ xs) h = rw h.0 (ap (◌∷◌ x) (filter_kept p xs h.1))

keep :
    {A : Type 0} (p : A → Bool) (a x : A) (xs : List A)
    → Memᴰ a (filter p xs)
    → Memᴰ a (filter p (x ∷ xs))
keep p a x xs m = elim (Bool-cases (p x)) [ inl e ↦ rw e (Memᴰ.tail m) | inr e ↦ rw e m ]

remove_file-Memᴰ :
    (path : Text) (g : DupGroup) (gs : List DupGroup)
    → Memᴰ g gs
    → 1 < length (without_file path g).files
    → Memᴰ (without_file path g) (remove_file path gs)
unfolding remove_file
remove_file-Memᴰ path g [] m h = elim m [ ]
remove_file-Memᴰ path g (x ∷ gs) (Memᴰ.head e) h =
    let big : is_group (without_file path x) ≡ true =
      subst (λ y. is_group (without_file path y) ≡ true) e (ground (arith, h)) in
    rw big (Memᴰ.head (ap (without_file path) e))
remove_file-Memᴰ path g (x ∷ gs) (Memᴰ.tail m) h =
    keep is_group (without_file path g) (without_file path x) (map (without_file path) gs)
      (remove_file-Memᴰ path g gs m h)

-- A group that has two files or more beside the deleted one is still shown, without that file only;
-- if it never had the file, it is shown as it was.
on_deleted-keeps :
    (path : Text) (s : App) (g : DupGroup)
    → Memᴰ g s.dup_groups
    → 1 < length (without_file path g).files
    → Memᴰ (without_file path g) (on_deleted path (gives tt) s).dup_groups
      × (All (λ p. differs path p ≡ true) g.files → without_file path g ≡ g)
unfolding on_deleted
on_deleted-keeps path s g m h = (
  remove_file-Memᴰ path g s.dup_groups m h,
  λ a. ap (λ fs. record g { files = fs }) (filter_kept (differs path) g.files a),
)
