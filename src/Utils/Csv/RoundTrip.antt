-- ===== src/Utils/Csv/RoundTrip.antt =====
-- `parse_csv` and the `join(', ')` of src/App.tsx.
use search_every.Prelude.{
  ℕ, List, [], ◌∷◌, ◌++◌, Text, Bool, true, false, map, comma, codes, ◌==◌, ◌≢◌, ◌≡◌, refl, arith,
  All, ◌∙◌, filter, filter-append, truthy, trim, trim_start, trim_end, is_space, split,
  before_first, join,
}
use mathlib.Core.List.{map-append}
use search_every.Prelude.Trim.{trim_idem, trim_space, trim-All}
use search_every.Prelude.Split.{split-ne-nil, split-append, split_whole, split-All}
use search_every.Utils.Csv.{parse_csv}

abbrev pub Lacks : ℕ → Text → Type 0
Lacks b = All (λ c. c ≢ b)

-- A list item as `parse_csv` returns it.
pub record IsItem (s : Text) : Type 0 where
  pub nonempty : s ≢ []
  pub trimmed : trim s ≡ s
  pub no_comma : Lacks comma s

-- `items.join(', ')`
unfoldable pub join_list : List Text → Text
join_list = join (codes ", ")

abbrev is_comma : ℕ → Bool
is_comma c = c == comma

items : List Text → List Text
items ps = filter truthy (map trim ps)

-- Text on the two sides of a comma is read apart.
pub parse_csv-append : (s t : Text) → parse_csv (s ++ (comma ∷ t)) ≡ parse_csv s ++ parse_csv t
unfolding parse_csv
parse_csv-append s t =
    rw (split-append is_comma s comma t refl, map-append)
      (filter-append truthy (map trim (split is_comma s)) (map trim (split is_comma t)))

items-before_first :
    (c : ℕ) (ps : List Text) → ps ≢ [] → is_space c ≡ true → items (before_first c ps) ≡ items ps
unfolding items
items-before_first c [] h e = absurd (h refl)
items-before_first c (p ∷ ps) h e = rw (trim_space c p e)

parse_csv_space : (s : Text) → parse_csv (32 ∷ s) ≡ parse_csv s
unfolding parse_csv split is_space items
parse_csv_space s = items-before_first 32 (split is_comma s) (split-ne-nil is_comma s) refl

no_comma-All : (s : Text) → Lacks comma s → All (λ d. is_comma d ≡ false) s
no_comma-All [] h = tt
no_comma-All (c ∷ s) h = (ground arith, no_comma-All s h.1)

All-no_comma : (s : Text) → All (λ d. is_comma d ≡ false) s → Lacks comma s
All-no_comma [] h = tt
All-no_comma (c ∷ s) h = (ground arith, All-no_comma s h.1)

truthy-item : (s : Text) (ps : List Text) → s ≢ [] → filter truthy (s ∷ ps) ≡ s ∷ filter truthy ps
truthy-item [] ps h = absurd (h refl)
truthy-item (c ∷ s) ps h = refl

parse_csv_item : (s : Text) → IsItem s → parse_csv s ≡ s ∷ []
unfolding parse_csv
parse_csv_item s h =
    rw (split_whole is_comma s (no_comma-All s h.no_comma), h.trimmed) (truthy-item s [] h.nonempty)

-- A list of items that is shown by `join(', ')` is read back as it was.
pub parse_csv-join_list : (xs : List Text) → All IsItem xs → parse_csv (join_list xs) ≡ xs
unfolding join_list join
parse_csv-join_list [] h = unfold parse_csv split trim trim_start trim_end in refl
parse_csv-join_list (x ∷ []) h = parse_csv_item x h.0
parse_csv-join_list (x ∷ y ∷ xs) h =
    parse_csv-append x (32 ∷ join_list (y ∷ xs))
    ∙ rw (parse_csv_space, parse_csv_item x h.0, parse_csv-join_list (y ∷ xs) h.1)

keep-IsItem :
    (q : Text) (ps : List Text)
    → (q ≢ [] → IsItem q)
    → All IsItem (filter truthy ps)
    → All IsItem (filter truthy (q ∷ ps))
keep-IsItem [] ps h r = r
keep-IsItem (c ∷ q) ps h r = (h (λ e. cc), r)

items-IsItem : (ps : List Text) → All (All (λ d. is_comma d ≡ false)) ps → All IsItem (items ps)
unfolding items
items-IsItem [] h = tt
items-IsItem (p ∷ ps) h =
    keep-IsItem (trim p) (map trim ps)
      (λ e. record {
        nonempty = e;
        trimmed = trim_idem p;
        no_comma = All-no_comma (trim p) (trim-All (λ d. is_comma d ≡ false) p h.0);
      })
      (items-IsItem ps h.1)

-- Whatever the user types, the items are trimmed, hold no comma and are not empty.
pub parse_csv-IsItem : (s : Text) → All IsItem (parse_csv s)
unfolding parse_csv items
parse_csv-IsItem s = items-IsItem (split is_comma s) (split-All is_comma s)
