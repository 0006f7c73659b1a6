-- ===== src/Utils/Path/Bounds.antt =====
-- How long a shortened path is.
use search_every.Prelude.{
  ℕ, ◌+◌, ◌-◌, ◌/◌, suc, ◌≤◌, ◌<◌, max, [], ◌∷◌, ◌++◌, Text, ◌≡◌, ap, arith, ltb, length,
  length-append, length-take, length-drop, slice, split, Bool-cases, inl, inr, take, drop,
}
use search_every.Prelude.Int.{pos, ◌-ℤ◌, max_ℤ, pos-ℤ_pos, pos-ℤ_neg, pos-ℤ_above}
use search_every.Prelude.Slice.{slice_front, slice_back, drop_all}
use search_every.Utils.Path.{dots, shorten_path, candidate, center_cut, is_separator}

-- The lengths of the two kept ends, where the limit leaves room for both.
abbrev pub head_length : ℕ → ℕ
head_length m = max 10 ((m - 3) / 2)

abbrev pub tail_length : ℕ → ℕ
tail_length m = m - 3 - head_length m

max_ℤ_pos : (a b : ℕ) → max_ℤ (pos a) (pos b) ≡ pos (max a b)
max_ℤ_pos a b = ground arith

pub center_cut_wide :
    (p : Text) (m : ℕ)
    → 13 ≤ m
    → m < length p
    → center_cut p (pos m) ≡ take (head_length m) p ++ (dots ++ drop (length p - tail_length m) p)
unfolding center_cut
center_cut_wide p m h k = rw (
  pos-ℤ_pos m 3 (omega arith),
  max_ℤ_pos 10 ((m - 3) / 2),
  pos-ℤ_pos (m - 3) (head_length m) (omega arith),
  pos-ℤ_pos (length p) (tail_length m) (omega arith),
  slice_front,
  slice_back,
)

-- Below thirteen the ten characters of the front leave no room for the end.
pub center_cut_narrow :
    (p : Text) (m : ℕ) → 3 ≤ m → m < 13 → center_cut p (pos m) ≡ take 10 p ++ (dots ++ [])
unfolding center_cut
center_cut_narrow p m h k =
    let ten : max 10 ((m - 3) / 2) ≡ 10 = omega arith in
    rw (
      pos-ℤ_pos m 3 h,
      max_ℤ_pos 10 ((m - 3) / 2),
      ten,
      pos-ℤ_above (m - 3) 10 (omega arith),
      pos-ℤ_neg,
      slice_front,
      slice_back,
      drop_all (length p + suc (10 - (m - 3) - 1)) p (omega arith),
    )

length_ends :
    (h t : ℕ) (p : Text) → length (take h p ++ (dots ++ drop (length p - t) p)) ≤ h + t + 3
length_ends h t p = omega (
  arith,
  length-append (take h p) (dots ++ drop (length p - t) p),
  length-append dots (drop (length p - t) p),
  length-take h p,
  length-drop (length p - t) p,
)

pub center_cut_bounds :
    (p : Text) (m : ℕ) → 3 ≤ m → m < length p → length (center_cut p (pos m)) ≤ max m 13
center_cut_bounds p m h k = elim (Bool-cases (ltb m 13)) [
  | inl e ↦
      rw (center_cut_narrow p m h (ground arith))
        (omega (arith, length-append (take 10 p) dots, length-take 10 p))
  | inr e ↦
      rw (center_cut_wide p m (ground arith) k)
        (ground (arith, length_ends (head_length m) (tail_length m) p))
]

front_bounds : (p : Text) (m : ℕ) → 3 ≤ m → length (slice p (pos 0) (pos m -ℤ pos 3) ++ dots) ≤ m
front_bounds p m h =
    rw (pos-ℤ_pos m 3 h, slice_front)
      (omega (arith, length-append (take (m - 3) p) dots, length-take (m - 3) p))

-- A limit of three or more is kept to, or exceeded up to thirteen characters only.
shorten_path_bounds : (p : Text) (m : ℕ) → 3 ≤ m → length (shorten_path p (pos m)) ≤ max m 13
unfolding shorten_path
shorten_path_bounds [] m h = omega arith
shorten_path_bounds (c ∷ s) m h =
    ground (arith, front_bounds (c ∷ s) m h, center_cut_bounds (c ∷ s) m h)

-- A limit below thirteen is not kept to: a longer path of ten or more characters, in three or more
-- parts, comes out as thirteen characters, unless its first and last two parts fit.
shorten_path_exceeds :
    (c : ℕ) (s : Text) (m : ℕ)
    → 3 ≤ m
    → m < 13
    → m < length (c ∷ s)
    → 10 ≤ length (c ∷ s)
    → 3 ≤ length (split is_separator (c ∷ s))
    → m < length (candidate (c ∷ s) (split is_separator (c ∷ s)))
    → length (shorten_path (c ∷ s) (pos m)) ≡ 13
unfolding shorten_path
shorten_path_exceeds c s m h k l t parts far = ground (
  arith,
  ap length (center_cut_narrow (c ∷ s) m h k),
  length-append (take 10 (c ∷ s)) dots,
  length-take 10 (c ∷ s),
)
