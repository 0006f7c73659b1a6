-- ===== src/Backend/Query/Wanted.antt =====
-- Which documents are results.
use mathlib.Core.List.{Memᴰ}
use search_every.Prelude.{
  ℕ, ◌≤◌, List, [], ◌∷◌, Text, Bool, true, false, ◌&&◌, Option, none, some, any, take, filter, map,
  length, length-take, length-filter-le, text_eq_iff, ◌≡◌, ◌↔◌, refl, ap, sym, ◌∙◌, arith,
  Bool-cases, inl, inr,
}
use search_every.Types.{SearchResult}
use search_every.Services.Api.Contract.{BackendFilters, QueryRequest}
use search_every.Backend.Query.{
  ascii_lower, eq_ignore_ascii_case, ext_passes, min_passes, max_passes, passes, top_docs, kept,
  query,
}

-- The extension is in the list up to the case of ASCII letters, if there is a list.
abbrev pub ExtWanted : Option (List Text) → Text → Type 0
ExtWanted none ext = Unit
ExtWanted (some []) ext = Unit
ExtWanted (some (e ∷ es)) ext =
    (x : Text) × Memᴰ x (e ∷ es) × (map ascii_lower x ≡ map ascii_lower ext)

-- A size that is known lies within the limits.
abbrev pub SizeWanted : Option ℕ → Option ℕ → Option ℕ → Type 0
SizeWanted least most none = Unit
SizeWanted none none (some n) = Unit
SizeWanted (some a) none (some n) = a ≤ n
SizeWanted none (some b) (some n) = n ≤ b
SizeWanted (some a) (some b) (some n) = (a ≤ n) × (n ≤ b)

abbrev pub IsWanted : Option BackendFilters → SearchResult → Type 0
IsWanted none r = Unit
IsWanted (some f) r = ExtWanted f.ext r.ext × SizeWanted f.min_size f.max_size r.size

any-Memᴰ :
    (p : Text → Bool) (xs : List Text) → any p xs ≡ true → (x : Text) × Memᴰ x xs × (p x ≡ true)
any-Memᴰ p [] h = cc
any-Memᴰ p (x ∷ xs) h = elim (Bool-cases (p x)) [
  | inl e ↦ (x, Memᴰ.head refl, e)
  | inr e ↦ let (y, i, f) = any-Memᴰ p xs (ground arith) in (y, Memᴰ.tail i, f)
]

Memᴰ-any : (p : Text → Bool) (x : Text) (xs : List Text) → Memᴰ x xs → p x ≡ true → any p xs ≡ true
Memᴰ-any p x [] i h = elim i [ ]
Memᴰ-any p x (y ∷ xs) (Memᴰ.head q) h = rw (ap p (sym q) ∙ h) refl
Memᴰ-any p x (y ∷ xs) (Memᴰ.tail i) h = ground (arith, Memᴰ-any p x xs i h)

ext_passes_iff : (o : Option (List Text)) (ext : Text) → (ext_passes o ext ≡ true) ↔ ExtWanted o ext
unfolding eq_ignore_ascii_case
ext_passes_iff none ext = (λ h. tt, λ h. refl)
ext_passes_iff (some []) ext = (λ h. tt, λ h. refl)
ext_passes_iff (some (e ∷ es)) ext = (
  λ h.
      let (x, i, f) = any-Memᴰ (λ y. eq_ignore_ascii_case y ext) (e ∷ es) h in
      (x, i, (text_eq_iff (map ascii_lower x) (map ascii_lower ext)).0 f),
  λ h.
      Memᴰ-any (λ y. eq_ignore_ascii_case y ext) h.0 (e ∷ es) h.1
        ((text_eq_iff (map ascii_lower h.0) (map ascii_lower ext)).1 h.2),
)

size_passes_iff :
    (least most size : Option ℕ)
    → (min_passes least size && max_passes most size ≡ true) ↔ SizeWanted least most size
size_passes_iff none none none = (λ h. tt, λ h. refl)
size_passes_iff none (some b) none = (λ h. tt, λ h. refl)
size_passes_iff (some a) none none = (λ h. tt, λ h. refl)
size_passes_iff (some a) (some b) none = (λ h. tt, λ h. refl)
size_passes_iff none none (some n) = (λ h. tt, λ h. refl)
size_passes_iff none (some b) (some n) = (λ h. ground arith, λ h. ground arith)
size_passes_iff (some a) none (some n) = (λ h. ground arith, λ h. ground arith)
size_passes_iff (some a) (some b) (some n) = (λ h. ground arith, λ h. ground arith)

and_iff : (a b : Bool) → (a && b ≡ true) ↔ ((a ≡ true) × (b ≡ true))
and_iff true b = (λ h. (refl, h), λ h. h.1)
and_iff false b = (λ h. cc, λ h. h.0)

passes_iff : (o : Option BackendFilters) (r : SearchResult) → (passes o r ≡ true) ↔ IsWanted o r
unfolding passes
passes_iff none r = (λ h. tt, λ h. refl)
passes_iff (some f) r =
    let ext = ext_passes f.ext r.ext in
    let size = min_passes f.min_size r.size && max_passes f.max_size r.size in
    let (both, one) = and_iff ext size in
    let (ext_sound, ext_complete) = ext_passes_iff f.ext r.ext in
    let (size_sound, size_complete) = size_passes_iff f.min_size f.max_size r.size in
    (
      λ h. (ext_sound (both h).0, size_sound (both h).1),
      λ h. one (ext_complete h.0, size_complete h.1),
    )

filter_iff-keep :
    (p : SearchResult → Bool) (r x : SearchResult) (xs : List SearchResult)
    → p x ≡ true
    → Memᴰ r (filter p xs) ↔ (Memᴰ r xs × (p r ≡ true))
    → Memᴰ r (x ∷ filter p xs) ↔ (Memᴰ r (x ∷ xs) × (p r ≡ true))
filter_iff-keep p r x xs e (sound, complete) = (
  λ h. elim h [
    | Memᴰ.head q ↦ (Memᴰ.head q, ap p q ∙ e)
    | Memᴰ.tail i ↦ (Memᴰ.tail (sound i).0, (sound i).1)
  ],
  λ (h, t). elim h [ Memᴰ.head q ↦ Memᴰ.head q | Memᴰ.tail i ↦ Memᴰ.tail (complete (i, t)) ],
)

filter_iff-drop :
    (p : SearchResult → Bool) (r x : SearchResult) (xs : List SearchResult)
    → p x ≡ false
    → Memᴰ r (filter p xs) ↔ (Memᴰ r xs × (p r ≡ true))
    → Memᴰ r (filter p xs) ↔ (Memᴰ r (x ∷ xs) × (p r ≡ true))
filter_iff-drop p r x xs e (sound, complete) = (
  λ h. (Memᴰ.tail (sound h).0, (sound h).1),
  λ (h, t). elim h [ Memᴰ.head q ↦ let u = ap p q in cc | Memᴰ.tail i ↦ complete (i, t) ],
)

filter_iff :
    (p : SearchResult → Bool) (r : SearchResult) (xs : List SearchResult)
    → Memᴰ r (filter p xs) ↔ (Memᴰ r xs × (p r ≡ true))
filter_iff p r [] = (λ h. elim h [ ], λ h. elim h.0 [ ])
filter_iff p r (x ∷ xs) = elim (Bool-cases (p x)) [
  | inl e ↦ rw e (filter_iff-keep p r x xs e (filter_iff p r xs))
  | inr e ↦ rw e (filter_iff-drop p r x xs e (filter_iff p r xs))
]

-- For an answer of the index, the query gives a result in every case. Its results are those among the
-- first 50 documents of the answer that the filters want, and no other document.
pub query_exact :
    (index : Text → Text → Option (List SearchResult)) (req : QueryRequest)
    (docs : List SearchResult)
    → index req.index_dir req.query ≡ some docs
    → (results : List SearchResult) × (query index req ≡ some results)
      × (length results ≤ top_docs)
      × ((r : SearchResult)
          → Memᴰ r results ↔ (Memᴰ r (take top_docs docs) × IsWanted req.filters r))
unfolding query
query_exact index req docs h =
    let top = take top_docs docs in
    let p = passes req.filters in
    (
      filter p top,
      ap (kept req.filters) h,
      ground (arith, length-filter-le p top, length-take top_docs docs),
      λ r. (
        λ i. let (j, e) = (filter_iff p r top).0 i in (j, (passes_iff req.filters r).0 e),
        λ (j, w). (filter_iff p r top).1 (j, (passes_iff req.filters r).1 w),
      ),
    )
