-- ===== src/Backend/Dedup/Twice.antt =====
-- A file that two roots of one scan reach, as the detection sees it.
use mathlib.Core.List.{Memᴰ}
use mathlib.Core.List.Memᴰ
use mathlib.Core.List.{map-append}
use search_every.Prelude.{
  ℕ, ◌+◌, ◌<◌, List, [], ◌∷◌, ◌++◌, Text, Bool, true, some, length, length-append, length-filter-le,
  filter, filter-append, map, text_eq, text_eq_refl, text_eq_sound, ◌≡◌, ◌↔◌, refl, ap, sym, ◌∙◌,
  arith, subst, append-nil, All,
}
use search_every.Types.{DupGroup, DupKind, FileMeta}
use search_every.Backend.Scanner.{ScanOptions, Host, scan}
use search_every.Backend.Scanner.Found.{accepted, entries, accepted-append, scan-accepted}
use search_every.Backend.Dedup.{Table, Disk, detect}
use search_every.Backend.Dedup.Groups.{having, has_key}
use search_every.Backend.Dedup.Detect.{content_key, CanRead, detect_exact}

filter-filter :
    (p q : Text → Bool) (xs : List Text)
    → ((x : Text) → p x ≡ true → q x ≡ true)
    → filter p (filter q xs) ≡ filter p xs
filter-filter p q [] h = refl
filter-filter p q (x ∷ xs) h = ground (arith, h x, filter-filter p q xs h)

-- How often the path stands in the list.
abbrev pub times : Text → List Text → ℕ
times p xs = length (filter (text_eq p) xs)

times-append : (p : Text) (xs ys : List Text) → times p (xs ++ ys) ≡ times p xs + times p ys
times-append p xs ys =
    ap length (filter-append (text_eq p) xs ys)
    ∙ length-append (filter (text_eq p) xs) (filter (text_eq p) ys)

Memᴰ-times : (p : Text) (xs : List Text) → Memᴰ p xs → 0 < times p xs
Memᴰ-times p [] h = elim h [ ]
Memᴰ-times p (x ∷ xs) (Memᴰ.head q) = rw (ap (text_eq p) (sym q) ∙ text_eq_refl p) (omega arith)
Memᴰ-times p (x ∷ xs) (Memᴰ.tail h) = ground (arith, Memᴰ-times p xs h)

module _ (disk : Disk)
    (iterates : (m : Table) (e : Text × List Text) → Memᴰ e (disk.order m) ↔ Memᴰ e m) where
  self_group :
      (paths : List Text) (p key : Text)
      → All (CanRead disk) paths
      → disk.hash_file p ≡ some (some key)
      → 1 < times p paths
      → (groups : List DupGroup) × (detect disk paths ≡ some groups)
        × (g : DupGroup) × Memᴰ g groups
        × (times p g.files ≡ times p paths)
  self_group paths p key readable h two =
      let (groups, d, exact) = detect_exact disk paths iterates readable in
      let files = having (content_key disk) key paths in
      let g : DupGroup = record { kind = DupKind.hash; key = key; files = files } in
      let kept : times p files ≡ times p paths =
        ap length
          (filter-filter (text_eq p) (λ x. has_key (content_key disk x) key) paths same_content) in
      let many : 1 < length files = omega (arith, kept, two, length-filter-le (text_eq p) files) in
      (groups, d, g, (exact g).1 (refl, many), kept)
    where
      same_content : (x : Text) → text_eq p x ≡ true → has_key (content_key disk x) key ≡ true
      same_content x e =
          subst (λ y. has_key (content_key disk y) key ≡ true) (text_eq_sound p x e)
            (rw (h, content_key) (text_eq_refl key))

  -- If a scan of two roots finds a file below both of them (one root lies in the other, or is it), the
  -- file has a content, and each found path can be read or is no file, then the detection over the files
  -- of that scan gives groups, whatever the order of a table's entries, and one of them has this one file
  -- twice.
  pub detect-scan_overlap :
      (host : Host) (opts : ScanOptions) (outer inner : Text) (f f' : FileMeta) (key : Text)
      → opts.roots ≡ outer ∷ inner ∷ []
      → Memᴰ f (accepted host opts (host.walk outer opts.follow_symlinks))
      → Memᴰ f' (accepted host opts (host.walk inner opts.follow_symlinks))
      → f'.path ≡ f.path
      → disk.hash_file f.path ≡ some (some key)
      → All (CanRead disk) (map (λ m. m.path) (scan host opts))
      → (groups : List DupGroup) × (detect disk (map (λ m. m.path) (scan host opts)) ≡ some groups)
        × (g : DupGroup) × Memᴰ g groups
        × (1 < times f.path g.files)
  detect-scan_overlap host opts outer inner f f' key roots below_outer below_inner e h readable =
      let paths = map (λ m. m.path) (scan host opts) in
      let xs = accepted host opts (host.walk outer opts.follow_symlinks) in
      let ys = accepted host opts (host.walk inner opts.follow_symlinks) in
      let first = host.walk outer opts.follow_symlinks in
      let second = host.walk inner opts.follow_symlinks in
      let there : scan host opts ≡ xs ++ ys =
        scan-accepted host opts
        ∙ ap (λ rs. accepted host opts (entries host opts rs)) roots
        ∙ accepted-append host opts first (second ++ [])
        ∙ ap (λ es. xs ++ accepted host opts es) (append-nil second) in
      let listed : paths ≡ map (λ m. m.path) xs ++ map (λ m. m.path) ys =
        ap (map (λ m. m.path)) there ∙ map-append (λ m. m.path) xs ys in
      let one = Memᴰ-times f.path (map (λ m. m.path) xs) (Memᴰ.map (λ m. m.path) below_outer) in
      let other =
        Memᴰ-times f.path (map (λ m. m.path) ys)
          (Memᴰ.cast (sym e) (Memᴰ.map (λ m. m.path) below_inner)) in
      let both = times-append f.path (map (λ m. m.path) xs) (map (λ m. m.path) ys) in
      let two : 1 < times f.path paths =
        subst (λ ps. 1 < times f.path ps) (sym listed) (omega (arith, one, other, both)) in
      let (groups, d, g, i, same) = self_group paths f.path key readable h two in
      (groups, d, g, i, omega (arith, same, two))
