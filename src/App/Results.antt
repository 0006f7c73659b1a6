-- ===== src/App/Results.antt =====
-- `sortedResults` of src/App.tsx: the order in which the results are shown.
-- `Array.prototype.sort` is stable; insertion in front of the sorted rest is such a sort.
pub mod Order
use search_every.Prelude.{ℕ, List, [], ◌∷◌, Bool, Option, none, some, if◌then◌else◌}
use search_every.Prelude.Int.{ℤ, pos, leb_ℤ}
use search_every.Types.{SearchResult}
use search_every.App.State.{App, SortBy, SortDir, score, time, size, asc, desc}

abbrev or_zero : Option ℤ → ℤ
or_zero none = pos 0
or_zero (some n) = n

abbrev size_or_zero : Option ℕ → ℤ
size_or_zero none = pos 0
size_or_zero (some n) = pos n

-- What the comparison subtracts: `score`, `modified_ts ?? 0` or `size ?? 0`.
abbrev pub sort_key : SortBy → SearchResult → ℤ
sort_key score r = r.score
sort_key time r = or_zero r.modified_ts
sort_key size r = size_or_zero r.size

-- The comparison does not put `b` in front of `a`: the difference times `factor` is not positive.
abbrev pub in_order : SortBy → SortDir → SearchResult → SearchResult → Bool
in_order by asc a b = leb_ℤ (sort_key by a) (sort_key by b)
in_order by desc a b = leb_ℤ (sort_key by b) (sort_key by a)

module _ {ℓ} {A : Type ℓ} (le : A → A → Bool) where
  unfoldable pub insert : A → List A → List A
  insert x [] = x ∷ []
  insert x (y ∷ ys) = if le x y then x ∷ y ∷ ys else y ∷ insert x ys

  unfoldable pub sort : List A → List A
  unfolding insert
  sort [] = []
  sort (x ∷ xs) = insert x (sort xs)

unfoldable pub sorted_results : App → List SearchResult
unfolding sort
sorted_results s = sort (in_order s.sort_by s.sort_dir) s.results
