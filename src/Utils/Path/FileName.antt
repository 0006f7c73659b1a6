-- ===== src/Utils/Path/FileName.antt =====
-- What a shortened path shows of the path.
use search_every.Prelude.{
  ℕ, ◌+◌, ◌-◌, zero, suc, ◌⊎◌, ◌≤◌, ◌<◌, List, [], ◌∷◌, ◌++◌, Text, ◌≡◌, ◌≢◌, refl, ap, ◌∙◌, sym,
  arith, length, length-append, split, before_first, inl, inr, take, drop, get_or, All, true, false,
  append_assoc,
}
use search_every.Prelude.Int.{pos}
use search_every.Prelude.Split.{split-append, split_whole, split-ne-nil}
use search_every.Utils.Path.{dots, shorten_path, candidate, center_cut, separator, is_separator}
use search_every.Utils.Path.Bounds.{head_length, tail_length, center_cut_wide}

-- A text that ends with the other one.
abbrev pub EndsWith : Text → Text → Type 0
EndsWith t r = (q : Text) × (r ≡ q ++ t)

get_or_behind {ℓ} : {A : Type ℓ} (xs : List A) (y d : A) → get_or (xs ++ y ∷ []) (length xs) d ≡ y
get_or_behind [] y d = refl
get_or_behind (x ∷ xs) y d = get_or_behind xs y d

get_or-last {ℓ} :
    {A : Type ℓ} (xs : List A) (y d : A) → get_or (xs ++ y ∷ []) (length (xs ++ y ∷ []) - 1) d ≡ y
get_or-last xs y d =
    let e : length (xs ++ y ∷ []) - 1 ≡ length xs = omega (arith, length-append xs (y ∷ [])) in
    rw e (get_or_behind xs y d)

drop-append {ℓ} :
    {A : Type ℓ} (n : ℕ) (xs ys : List A) → n ≤ length xs → drop n (xs ++ ys) ≡ drop n xs ++ ys
drop-append zero xs ys h = refl
drop-append (suc n) [] ys h = absurd (omega arith)
drop-append (suc n) (x ∷ xs) ys h = drop-append n xs ys (omega arith)

-- The parts of a path behind its last separator.
parts_of_file :
    (dir : Text) (c : ℕ) (name : Text)
    → is_separator c ≡ true
    → All (λ d. is_separator d ≡ false) name
    → split is_separator (dir ++ (c ∷ name)) ≡ split is_separator dir ++ name ∷ []
parts_of_file dir c name h k =
    split-append is_separator dir c name h
    ∙ ap (◌++◌ (split is_separator dir)) (split_whole is_separator name k)

candidate-EndsWith :
    (p : Text) (ps : List Text) (name : Text) → EndsWith name (candidate p (ps ++ name ∷ []))
unfolding candidate
candidate-EndsWith p ps name =
    let sep = separator p ∷ [] in
    let parts = ps ++ name ∷ [] in
    let first = get_or parts 0 [] in
    let before_last = get_or parts (length parts - 2) [] in
    (
      first ++ (sep ++ (dots ++ (sep ++ (before_last ++ sep)))),
      rw (get_or-last ps name []) (simp append_assoc),
    )

center_cut-EndsWith :
    (dir : Text) (c : ℕ) (name : Text) (m : ℕ)
    → 13 ≤ m
    → m < length (dir ++ (c ∷ name))
    → length name ≤ tail_length m
    → EndsWith name (center_cut (dir ++ (c ∷ name)) (pos m))
center_cut-EndsWith dir c name m h k fits =
    let p = dir ++ (c ∷ name) in
    let n = length p - tail_length m in
    let back = drop n (dir ++ c ∷ []) in
    (
      take (head_length m) p ++ (dots ++ back),
      center_cut_wide p m h k
          ∙ ap (λ d. take (head_length m) p ++ (dots ++ d)) (kept n (omega arith))
          ∙ sym (append_assoc (take (head_length m) p) (dots ++ back) name),
    )
  where
    kept :
        (n : ℕ)
        → n + length name ≤ length (dir ++ (c ∷ name))
        → drop n (dir ++ (c ∷ name)) ≡ drop n (dir ++ c ∷ []) ++ name
    kept n fit =
        ap (drop n) (sym (append_assoc dir (c ∷ []) name))
        ∙ drop-append n (dir ++ c ∷ []) name
            (omega (arith, length-append dir (c ∷ name), length-append dir (c ∷ [])))

-- The three ways in which a path of three or more parts is shown.
pub shorten_path-cases :
    (p : Text) (m : ℕ)
    → 3 ≤ length (split is_separator p)
    → (shorten_path p (pos m) ≡ p)
      ⊎ (shorten_path p (pos m) ≡ candidate p (split is_separator p))
      ⊎ ((m < length p) × (shorten_path p (pos m) ≡ center_cut p (pos m)))
unfolding shorten_path split
shorten_path-cases [] m h = absurd (omega arith)
shorten_path-cases (c ∷ s) m h = ground arith

-- The file name stands whole at the end of the shortened path, if the path has three or more parts
-- and the name is no longer than the kept end.
shorten_path-EndsWith :
    (dir : Text) (c : ℕ) (name : Text) (m : ℕ)
    → is_separator c ≡ true
    → All (λ d. is_separator d ≡ false) name
    → 2 ≤ length (split is_separator dir)
    → 13 ≤ m
    → length name ≤ tail_length m
    → EndsWith name (shorten_path (dir ++ (c ∷ name)) (pos m))
shorten_path-EndsWith dir c name m sep whole deep h fits =
    let p = dir ++ (c ∷ name) in
    let split_file = parts_of_file dir c name sep whole in
    let many = length-append (split is_separator dir) (name ∷ []) in
    elim (shorten_path-cases p m (omega (arith, ap length split_file, many))) [
      | inl e ↦ (dir ++ c ∷ [], e ∙ sym (append_assoc dir (c ∷ []) name))
      | inr (inl e) ↦
          let (q, e') = candidate-EndsWith p (split is_separator dir) name in
          (q, e ∙ ap (candidate p) split_file ∙ e')
      | inr (inr (long, e)) ↦
          let (q, e') = center_cut-EndsWith dir c name m h long fits in (q, e ∙ e')
    ]

-- Every part with its separator.
total_length : List Text → ℕ
total_length [] = 0
total_length (p ∷ ps) = suc (length p) + total_length ps

total_length-before_first :
    (c : ℕ) (ps : List Text) → ps ≢ [] → total_length (before_first c ps) ≡ suc (total_length ps)
unfolding total_length
total_length-before_first c [] h = absurd (h refl)
total_length-before_first c (p ∷ ps) h = omega arith

total_length-split : (s : Text) → total_length (split is_separator s) ≡ suc (length s)
unfolding total_length split
total_length-split [] = refl
total_length-split (c ∷ s) = ground (
  arith,
  total_length-split s,
  total_length-before_first c (split is_separator s) (split-ne-nil is_separator s),
)

length-candidate_three :
    (p : Text) (ps : List Text) → length ps ≡ 3 → length (candidate p ps) ≡ total_length ps + 3
unfolding candidate total_length
length-candidate_three p [] h = absurd (omega arith)
length-candidate_three p (a ∷ []) h = absurd (omega arith)
length-candidate_three p (a ∷ b ∷ []) h = absurd (omega arith)
length-candidate_three p (a ∷ b ∷ c ∷ d ∷ ps) h = absurd (omega arith)
length-candidate_three p (a ∷ b ∷ c ∷ []) h =
    let sep = separator p ∷ [] in simp length-append (omega arith)

-- A path of exactly three parts is never shown by its parts: with the dots it would be longer than
-- it is. The middle of the text is cut out.
pub shorten_path_three :
    (p : Text) (m : ℕ)
    → length (split is_separator p) ≡ 3
    → m < length p
    → shorten_path p (pos m) ≡ center_cut p (pos m)
unfolding shorten_path split
shorten_path_three [] m h k = absurd (omega arith)
shorten_path_three (c ∷ s) m h k = ground (
  arith,
  length-candidate_three (c ∷ s) (split is_separator (c ∷ s)) h,
  total_length-split (c ∷ s),
)
