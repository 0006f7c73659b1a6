-- ===== src/Utils/Size.antt =====
-- src/utils/size.ts: sizes in bytes for display, and megabytes from the filter inputs.
pub mod Units
use search_every.Prelude.{
  ℕ, zero, suc, ◌+◌, ◌*◌, ◌^◌, List, [], ◌∷◌, ◌++◌, Text, Bool, codes, Option, none, some, ltb, leb,
  ◌==◌, if◌then◌else◌,
}
use search_every.Prelude.Decimal.{show_ℤ}
use search_every.Prelude.Int.{ℤ, pos, negsuc}
use search_every.Prelude.Number.{Number, nan, infinity, fin, abs, scale_ℤ, round, to_fixed}

-- The optional argument `opts`.
pub record Digits : Type 0 where
  pub digits_b : Option ℕ
  pub digits_kb : Option ℕ
  pub digits_mb : Option ℕ
  pub digits_gb : Option ℕ
  pub digits_tb : Option ℕ

-- `a ?? b`
abbrev pub or_default {ℓ} : {A : Type ℓ} → Option A → A → A
or_default none b = b
or_default (some a) b = a

-- No `opts` at all, and an object with none of the fields, read alike.
abbrev pub no_opts : Digits
no_opts = record {
  digits_b = none;
  digits_kb = none;
  digits_mb = none;
  digits_gb = none;
  digits_tb = none;
}

-- `units[idx]`
abbrev pub unit_name : ℕ → Text
unit_name zero = codes "KB"
unit_name (suc zero) = codes "MB"
unit_name (suc (suc zero)) = codes "GB"
unit_name (suc (suc (suc n))) = codes "TB"

-- The digits of the unit, from `cfg`.
abbrev pub unit_digits : Digits → ℕ → ℕ
unit_digits o zero = or_default o.digits_kb 0
unit_digits o (suc zero) = or_default o.digits_mb 2
unit_digits o (suc (suc zero)) = or_default o.digits_gb 2
unit_digits o (suc (suc (suc n))) = or_default o.digits_tb 2

-- `while (val >= 1024 && idx < units.length - 1)`, where `val` is m / 2 ^ s and `left` is
-- `units.length - 1 - idx`. The result holds the last `s` and `idx`.
unfoldable pub scale_unit : ℕ → ℕ → ℕ → ℕ → ℕ × ℕ
scale_unit zero m s idx = (s, idx)
scale_unit (suc left) m s idx =
    let rest = scale_unit left m (s + 10) (idx + 1) in
    if leb (1024 * 2 ^ s) m then rest else (s, idx)

abbrev pub sign : ℤ → Text
sign (pos n) = []
sign (negsuc n) = b'-' ∷ []

unfoldable pub format_bytes : Number → Digits → Text
unfolding scale_unit
format_bytes nan opts = codes "-"
format_bytes (infinity s) opts = codes "-"
format_bytes (fin m e) opts =
    let (s, idx) = scale_unit 3 (abs m) (e + 10) 0 in
    if ltb (abs m) (1024 * 2 ^ e)
    then show_ℤ (round m e) ++ codes " B"
    else sign m ++ (to_fixed (abs m) s (unit_digits opts idx) ++ (32 ∷ unit_name idx))

-- `Math.round(mb * 1024 * 1024)`
unfoldable pub to_bytes_mb : Number → Number
to_bytes_mb nan = nan
to_bytes_mb (infinity s) = infinity s
to_bytes_mb (fin m e) = fin (round (scale_ℤ m (1024 * 1024)) e) 0
