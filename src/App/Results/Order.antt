-- ===== src/App/Results/Order.antt =====
-- The order of the shown results, and the sort behind it.
use mathlib.Core.List.{Perm}
use mathlib.Core.List.Perm
use search_every.Prelude.{
  ℕ, List, [], ◌∷◌, Bool, All-weaken, sym, Option, some, none, true, false, ◌&&◌, filter, ◌≡◌, ◌⊎◌,
  refl, ◌∙◌, arith, All, Bool-cases, inl, inr,
}
use search_every.Prelude.Int.{ℤ, pos, leb_ℤ}
use search_every.Types.{SearchResult}
use search_every.App.State.{App, SortBy, SortDir, asc, desc}
use search_every.App.Results.{in_order, sort_key, insert, sort, sorted_results}

module _ {ℓ} {A : Type ℓ} (le : A → A → Bool) where
  abbrev IsSorted : List A → Type 0
  IsSorted [] = Unit
  IsSorted (x ∷ xs) = All (λ y. le x y ≡ true) xs × IsSorted xs

  -- The elements that the comparison does not tell from `a`.
  abbrev ties : A → A → Bool
  ties a y = le a y && le y a

  insert-perm : (x : A) (xs : List A) → Perm (insert le x xs) (x ∷ xs)
  unfolding insert
  insert-perm x [] = Perm.refl _
  insert-perm x (y ∷ ys) = elim (Bool-cases (le x y)) [
    | inl e ↦ rw e (Perm.refl _)
    | inr e ↦ rw e (Perm.trans (Perm.cons y (insert-perm x ys)) (Perm.swap x y ys))
  ]

  sort-perm : (xs : List A) → Perm (sort le xs) xs
  unfolding sort
  sort-perm [] = Perm.refl _
  sort-perm (x ∷ xs) = Perm.trans (insert-perm x (sort le xs)) (Perm.cons x (sort-perm xs))

  -- The comparison is an order in which any two elements can be compared.
  pub record IsOrder : Type ℓ where
    pub total : (a b : A) → (le a b ≡ true) ⊎ (le b a ≡ true)
    pub trans : (a b c : A) → le a b ≡ true → le b c ≡ true → le a c ≡ true

  module _ (o : IsOrder) where
    All-below :
        (x y : A) (ys : List A)
        → le x y ≡ true
        → All (λ z. le y z ≡ true) ys
        → All (λ z. le x z ≡ true) ys
    All-below x y [] h a = tt
    All-below x y (z ∷ ys) h a = (o.trans x y z h a.0, All-below x y ys h a.1)

    insert-All :
        (x y : A) (ys : List A)
        → le y x ≡ true
        → All (λ z. le y z ≡ true) ys
        → All (λ z. le y z ≡ true) (insert le x ys)
    unfolding insert
    insert-All x y [] h a = (h, tt)
    insert-All x y (z ∷ ys) h a = ground (arith, insert-All x y ys h a.1)

    insert-IsSorted : (x : A) (xs : List A) → IsSorted xs → IsSorted (insert le x xs)
    unfolding insert
    insert-IsSorted x [] s = (tt, tt)
    insert-IsSorted x (y ∷ ys) s = elim (Bool-cases (le x y)) [
      | inl e ↦ rw e ((e, All-below x y ys e s.0), s)
      | inr e ↦ rw e (insert-All x y ys (flip e) s.0, insert-IsSorted x ys s.1)
    ]
      where
        flip : le x y ≡ false → le y x ≡ true
        flip e = ground (arith, o.total x y)

    sort-IsSorted : (xs : List A) → IsSorted (sort le xs)
    unfolding sort
    sort-IsSorted [] = tt
    sort-IsSorted (x ∷ xs) = insert-IsSorted x (sort le xs) (sort-IsSorted xs)

    filter-insert :
        (a x : A) (xs : List A) → filter (ties a) (insert le x xs) ≡ filter (ties a) (x ∷ xs)
    unfolding insert
    filter-insert a x [] = refl
    filter-insert a x (y ∷ ys) = ground (arith, filter-insert a x ys, o.trans x a y)

    filter-sort : (a : A) (xs : List A) → filter (ties a) (sort le xs) ≡ filter (ties a) xs
    unfolding sort
    filter-sort a [] = refl
    filter-sort a (x ∷ xs) = filter-insert a x (sort le xs) ∙ ground (arith, filter-sort a xs)

in_order-IsOrder : (by : SortBy) (dir : SortDir) → IsOrder (in_order by dir)
in_order-IsOrder by asc = record { total = λ a b. ground arith; trans = λ a b c h k. ground arith }
in_order-IsOrder by desc = record { total = λ a b. ground arith; trans = λ a b c h k. ground arith }

-- A missing time or size counts as 0.
abbrev pub time_of : Option ℤ → ℤ
time_of none = pos 0
time_of (some t) = t

abbrev pub size_of : Option ℕ → ℤ
size_of none = pos 0
size_of (some n) = pos n

-- The first result may stand before the second.
abbrev pub MayPrecede : SortBy → SortDir → SearchResult → SearchResult → Type 0
MayPrecede SortBy.score asc a b = leb_ℤ a.score b.score ≡ true
MayPrecede SortBy.score desc a b = leb_ℤ b.score a.score ≡ true
MayPrecede SortBy.time asc a b = leb_ℤ (time_of a.modified_ts) (time_of b.modified_ts) ≡ true
MayPrecede SortBy.time desc a b = leb_ℤ (time_of b.modified_ts) (time_of a.modified_ts) ≡ true
MayPrecede SortBy.size asc a b = leb_ℤ (size_of a.size) (size_of b.size) ≡ true
MayPrecede SortBy.size desc a b = leb_ℤ (size_of b.size) (size_of a.size) ≡ true

-- Each result may stand before all that follow it.
abbrev pub InOrder : SortBy → SortDir → List SearchResult → Type 0
InOrder by dir [] = Unit
InOrder by dir (r ∷ rs) = All (λ q. MayPrecede by dir r q) rs × InOrder by dir rs

-- The same score, time or size.
abbrev same_ℤ : ℤ → ℤ → Bool
same_ℤ m n = leb_ℤ m n && leb_ℤ n m

abbrev pub same_key : SortBy → SearchResult → SearchResult → Bool
same_key SortBy.score a b = same_ℤ a.score b.score
same_key SortBy.time a b = same_ℤ (time_of a.modified_ts) (time_of b.modified_ts)
same_key SortBy.size a b = same_ℤ (size_of a.size) (size_of b.size)

sort_key-time_of : (r : SearchResult) → sort_key SortBy.time r ≡ time_of r.modified_ts
sort_key-time_of r = ground arith

sort_key-size_of : (r : SearchResult) → sort_key SortBy.size r ≡ size_of r.size
sort_key-size_of r = ground arith

in_order-MayPrecede :
    (by : SortBy) (dir : SortDir) (a b : SearchResult)
    → in_order by dir a b ≡ true
    → MayPrecede by dir a b
in_order-MayPrecede SortBy.score asc a b h = h
in_order-MayPrecede SortBy.score desc a b h = h
in_order-MayPrecede SortBy.time asc a b h = rw (sort_key-time_of a, sort_key-time_of b) at h
in_order-MayPrecede SortBy.time desc a b h = rw (sort_key-time_of a, sort_key-time_of b) at h
in_order-MayPrecede SortBy.size asc a b h = rw (sort_key-size_of a, sort_key-size_of b) at h
in_order-MayPrecede SortBy.size desc a b h = rw (sort_key-size_of a, sort_key-size_of b) at h

and_comm : (x y : Bool) → x && y ≡ y && x
and_comm x y = ground arith

ties-same_key :
    (by : SortBy) (dir : SortDir) (a b : SearchResult)
    → ties (in_order by dir) a b ≡ same_key by a b
ties-same_key SortBy.score asc a b = refl
ties-same_key SortBy.score desc a b = and_comm (leb_ℤ b.score a.score) (leb_ℤ a.score b.score)
ties-same_key SortBy.time asc a b = rw (sort_key-time_of a, sort_key-time_of b) refl
ties-same_key SortBy.time desc a b =
    rw (sort_key-time_of a, sort_key-time_of b)
      (and_comm (leb_ℤ (time_of b.modified_ts) (time_of a.modified_ts))
        (leb_ℤ (time_of a.modified_ts) (time_of b.modified_ts)))
ties-same_key SortBy.size asc a b = rw (sort_key-size_of a, sort_key-size_of b) refl
ties-same_key SortBy.size desc a b =
    rw (sort_key-size_of a, sort_key-size_of b)
      (and_comm (leb_ℤ (size_of b.size) (size_of a.size)) (leb_ℤ (size_of a.size) (size_of b.size)))

IsSorted-InOrder :
    (by : SortBy) (dir : SortDir) (rs : List SearchResult)
    → IsSorted (in_order by dir) rs
    → InOrder by dir rs
IsSorted-InOrder by dir [] h = tt
IsSorted-InOrder by dir (r ∷ rs) h =
    (All-weaken (in_order-MayPrecede by dir r) rs h.0, IsSorted-InOrder by dir rs h.1)

filter-same :
    (p q : SearchResult → Bool) (rs : List SearchResult)
    → ((r : SearchResult) → p r ≡ q r)
    → filter p rs ≡ filter q rs
filter-same p q [] h = refl
filter-same p q (r ∷ rs) h = rw (h r, filter-same p q rs h) refl

-- The shown results are the results of the search in another order, each as often. They are in order of
-- the chosen key, which is the score, the time of the last change or the size, upwards or downwards as
-- chosen, where a missing time or size counts as 0; and those with one key are shown in the order in
-- which they came.
pub sorted_results_lem :
    (s : App)
    → Perm (sorted_results s) s.results
      × InOrder s.sort_by s.sort_dir (sorted_results s)
      × ((a : SearchResult)
          → filter (same_key s.sort_by a) (sorted_results s)
            ≡ filter (same_key s.sort_by a) s.results)
unfolding sorted_results
sorted_results_lem s =
    let le = in_order s.sort_by s.sort_dir in
    let o = in_order-IsOrder s.sort_by s.sort_dir in
    (
      sort-perm le s.results,
      IsSorted-InOrder s.sort_by s.sort_dir (sort le s.results) (sort-IsSorted le o s.results),
      λ a.
          let same = ties-same_key s.sort_by s.sort_dir a in
          sym (filter-same (ties le a) (same_key s.sort_by a) (sort le s.results) same)
          ∙ filter-sort le o a s.results
          ∙ filter-same (ties le a) (same_key s.sort_by a) s.results same,
    )
