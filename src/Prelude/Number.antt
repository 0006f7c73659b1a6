-- ===== src/Prelude/Number.antt =====
-- JavaScript numbers. A finite double is a whole number divided by a power of two; the operations
-- here are the ones that are exact on it (a product with or a quotient by a power of two, rounding to
-- a whole number, decimal print).
use Prim.Native.Nat.{ℕ, zero, suc, ◌+◌, ◌-◌, ◌*◌, ◌/◌, ◌%◌, ◌^◌}
use mathlib.Core.Bool.{Bool, true, false}
use mathlib.Core.List.{[], ◌∷◌, ◌++◌}
use search_every.Prelude.Decimal.{show}
use search_every.Prelude.Int.{ℤ, pos, negsuc, sub_ℕ, div_floor}
use search_every.Prelude.Strings.{Text}

-- `fin m e` is m / 2 ^ e. An infinity has its sign, `true` for the positive one.
pub data Number : Type 0 where
  nan : Number
  infinity : Bool → Number
  fin : ℤ → ℕ → Number

-- A whole number.
abbrev pub whole : ℕ → Number
whole n = fin (pos n) 0

-- `Number.isFinite(x)`
abbrev pub is_finite : Number → Bool
is_finite nan = false
is_finite (infinity s) = false
is_finite (fin m e) = true

-- `Number.isNaN(x)`
abbrev pub is_nan : Number → Bool
is_nan nan = true
is_nan (infinity s) = false
is_nan (fin m e) = false

-- The absolute value of the numerator.
abbrev pub abs : ℤ → ℕ
abs (pos n) = n
abs (negsuc n) = suc n

-- m * k, for a positive k
abbrev pub scale_ℤ : ℤ → ℕ → ℤ
scale_ℤ (pos n) k = pos (n * k)
scale_ℤ (negsuc n) k = negsuc (suc n * k - 1)

-- m + k
abbrev pub shift_ℤ : ℤ → ℕ → ℤ
shift_ℤ (pos n) k = pos (n + k)
shift_ℤ (negsuc n) k = sub_ℕ k (suc n)

-- `Math.round(m / 2 ^ e)`: the nearest whole number, and the upper one of two.
unfoldable pub round : ℤ → ℕ → ℤ
round m e = div_floor (shift_ℤ (scale_ℤ m 2) (2 ^ e)) (2 * 2 ^ e)

-- The last `d` digits of a number, with leading zeros.
abbrev pub pad : ℕ → ℕ → Text
pad zero n = []
pad (suc d) n = pad d (n / 10) ++ (b'0' + n % 10) ∷ []

-- `(m / 2 ^ e).toFixed(d)`: the nearest multiple of 10 ^ -d, and the upper one of two.
unfoldable pub to_fixed : ℕ → ℕ → ℕ → Text
to_fixed m e zero = show ((m * 2 + 2 ^ e) / (2 * 2 ^ e))
to_fixed m e (suc d) =
    let n = (m * 10 ^ suc d * 2 + 2 ^ e) / (2 * 2 ^ e) in
    show (n / 10 ^ suc d) ++ (b'.' ∷ pad (suc d) n)
