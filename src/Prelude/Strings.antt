-- ===== src/Prelude/Strings.antt =====
-- JavaScript strings: a string is the list of its UTF-16 code units.
use Prim.Native.Nat.{ℕ, suc, ◌-◌, min}
use Prim.Native.Char.{code}
use Prim.Native.String.{String}
use mathlib.Core.Path.{◌≡◌, refl}
use mathlib.Core.Logic.{◌↔◌}
use mathlib.Core.Bool.{Bool, true, false, ◌&&◌, ◌||◌}
use mathlib.Core.List.{List, [], ◌∷◌, ◌++◌}
use native.Mathlib.Omega.{arith}
use search_every.Prelude.Lists.{length, take, drop}
use search_every.Prelude.Int.{ℤ, pos, negsuc}
use search_every.Prelude.Tests.{◌==◌, leb, if◌then◌else◌}

abbrev pub Text : Type 0
Text = List ℕ

-- A literal of the source; every one of them lies in the basic plane, one code unit to a character.
abbrev pub codes : String → Text
codes String.[] = []
codes (String.◌∷◌ c s) = code c ∷ codes s

abbrev pub comma : ℕ
comma = b','

-- `a === b` on strings
unfoldable pub text_eq : Text → Text → Bool
text_eq [] [] = true
text_eq [] (d ∷ t) = false
text_eq (c ∷ s) [] = false
text_eq (c ∷ s) (d ∷ t) = (c == d) && text_eq s t

pub text_eq_sound : (s t : Text) → text_eq s t ≡ true → s ≡ t
unfolding text_eq
text_eq_sound [] [] h = refl
text_eq_sound [] (d ∷ t) h = ground arith
text_eq_sound (c ∷ s) [] h = ground arith
text_eq_sound (c ∷ s) (d ∷ t) h = ground (arith, text_eq_sound s t)

pub text_eq_refl : (s : Text) → text_eq s s ≡ true
unfolding text_eq
text_eq_refl [] = refl
text_eq_refl (c ∷ s) = ground (arith, text_eq_refl s)

pub text_eq_iff : (s t : Text) → (text_eq s t ≡ true) ↔ (s ≡ t)
text_eq_iff s t = (text_eq_sound s t, λ e. subst-eq e)
  where
    subst-eq : s ≡ t → text_eq s t ≡ true
    subst-eq e = rw e (text_eq_refl t)

pub text_eq_sym : (s t : Text) → text_eq s t ≡ text_eq t s
unfolding text_eq
text_eq_sym [] [] = refl
text_eq_sym [] (d ∷ t) = refl
text_eq_sym (c ∷ s) [] = refl
text_eq_sym (c ∷ s) (d ∷ t) = ground (arith, text_eq_sym s t)

-- The empty string is the falsy one: `Boolean(s)`, `s ? … : …`.
abbrev pub truthy : Text → Bool
truthy [] = false
truthy (c ∷ s) = true

-- White space and line ends, as `trim` and `\s` read them.
unfoldable pub is_space : ℕ → Bool
is_space c =
    (leb 9 c && leb c 13)
    || (c == 32)
    || (c == 0xa0)
    || (c == 0x1680)
    || (leb 0x2000 c && leb c 0x200a)
    || (c == 0x2028)
    || (c == 0x2029)
    || (c == 0x202f)
    || (c == 0x205f)
    || (c == 0x3000)
    || (c == 0xfeff)

unfoldable pub trim_start : Text → Text
trim_start [] = []
trim_start (c ∷ s) = if is_space c then trim_start s else c ∷ s

-- A character in front of a trimmed text.
abbrev pub before_trimmed : ℕ → Text → Text
before_trimmed c [] = if is_space c then [] else c ∷ []
before_trimmed c (d ∷ s) = c ∷ d ∷ s

unfoldable pub trim_end : Text → Text
trim_end [] = []
trim_end (c ∷ s) = before_trimmed c (trim_end s)

-- `s.trim()`
unfoldable pub trim : Text → Text
trim s = trim_end (trim_start s)

-- A character in front of the first part.
abbrev pub before_first : ℕ → List Text → List Text
before_first c [] = (c ∷ []) ∷ []
before_first c (p ∷ ps) = (c ∷ p) ∷ ps

-- `s.split(re)` for a separator of one code unit that passes the test
unfoldable pub split : (ℕ → Bool) → Text → List Text
split sep [] = [] ∷ []
split sep (c ∷ s) = if sep c then [] ∷ split sep s else before_first c (split sep s)

-- `parts.join(sep)`
unfoldable pub join : Text → List Text → Text
join sep [] = []
join sep (p ∷ []) = p
join sep (p ∷ q ∷ ps) = p ++ (sep ++ join sep (q ∷ ps))

-- Where a relative position of `slice` falls in a text of the given length.
abbrev pub slice_index : ℕ → ℤ → ℕ
slice_index len (pos n) = min n len
slice_index len (negsuc n) = len - suc n

-- `s.slice(start, end)`
unfoldable pub slice : Text → ℤ → ℤ → Text
slice s start end =
    let first = slice_index (length s) start in
    take (slice_index (length s) end - first) (drop first s)
