-- ===== src/Utils/Path.antt =====
-- src/utils/path.ts: a path is shortened for display. The length limit is a whole number.
pub mod Bounds
pub mod FileName
use search_every.Prelude.{
  ℕ, ◌-◌, List, [], ◌∷◌, ◌++◌, Text, Bool, codes, ◌==◌, ◌||◌, leb, if◌then◌else◌, any, get_or,
  length, split, slice,
}
use search_every.Prelude.Int.{ℤ, pos, ◌-ℤ◌, leb_ℤ, max_ℤ, div_floor}

abbrev pub slash : ℕ
slash = b'/'

abbrev pub backslash : ℕ
backslash = b'\\'

-- `/[\\/]/`
abbrev pub is_separator : ℕ → Bool
is_separator c = (c == backslash) || (c == slash)

abbrev pub dots : Text
dots = codes "..."

-- The separator of the shortened path: a backslash if the path holds one.
unfoldable pub separator : Text → ℕ
separator p = if any (λ c. c == backslash) p then backslash else slash

-- The first part, dots, and the last two parts.
unfoldable pub candidate : Text → List Text → Text
candidate p parts =
    let sep = separator p ∷ [] in
    let first = get_or parts 0 [] in
    let last = get_or parts (length parts - 1) [] in
    let before_last = get_or parts (length parts - 2) [] in
    first ++ (sep ++ (dots ++ (sep ++ (before_last ++ (sep ++ last)))))

-- The middle of the text is left out.
unfoldable pub center_cut : Text → ℤ → Text
center_cut p max_len =
    let keep = max_len -ℤ pos 3 in
    let head = max_ℤ (pos 10) (div_floor keep 2) in
    let tail = keep -ℤ head in
    let len = pos (length p) in slice p (pos 0) head ++ (dots ++ slice p (len -ℤ tail) len)

unfoldable pub shorten_path : Text → ℤ → Text
unfolding candidate center_cut separator
shorten_path [] max_len = []
shorten_path (c ∷ s) max_len =
    let p = c ∷ s in
    let parts = split is_separator p in
    if leb_ℤ (pos (length p)) max_len
    then p
    else if leb (length parts) 2
    then slice p (pos 0) (max_len -ℤ pos 3) ++ dots
    else if leb_ℤ (pos (length (candidate p parts))) max_len
    then candidate p parts
    else center_cut p max_len
