-- ===== src/Prelude/Decimal.antt =====
-- Decimal print of whole numbers, as template strings write them.
use Prim.Native.Nat.{ℕ, zero, suc, ◌+◌, ◌-◌, ◌*◌, ◌/◌, ◌%◌, ◌<◌}
use mathlib.Core.List.{[], ◌∷◌}
use mathlib.Core.Path.{◌≡◌, refl}
use native.Mathlib.Omega.{arith}
use search_every.Prelude.Int.{ℤ, pos, negsuc}
use search_every.Prelude.Strings.{Text, codes}
use search_every.Prelude.Tests.{ltb, if◌then◌else◌}

-- The digits of `n` in front of `out`; each round divides by ten.
digits : ℕ → ℕ → Text → Text
digits zero n out = out
digits (suc fuel) n out =
    let out' = (b'0' + n % 10) ∷ out in
    let rest = digits fuel (n / 10) out' in if ltb n 10 then out' else rest

-- `${n}` for a whole number
unfoldable pub show : ℕ → Text
unfolding digits
show n = digits (suc n) n []

unfoldable pub show_ℤ : ℤ → Text
unfolding show
show_ℤ (pos n) = show n
show_ℤ (negsuc n) = b'-' ∷ show (suc n)

-- The number that digits spell behind `n`.
abbrev pub value : ℕ → Text → ℕ
value n [] = n
value n (c ∷ s) = value (n * 10 + (c - b'0')) s

value-digits : (fuel n : ℕ) (out : Text) → n < fuel → value 0 (digits fuel n out) ≡ value n out
unfolding digits
value-digits zero n out h = absurd (omega arith)
value-digits (suc fuel) n out h = ground (arith, value-digits fuel (n / 10) ((b'0' + n % 10) ∷ out))

-- The fuel is enough: the digits spell the number.
pub value-show : (n : ℕ) → value 0 (show n) ≡ n
unfolding show
value-show n = value-digits (suc n) n [] (omega arith)

big : show 9007199254740991 ≡ codes "9007199254740991"
unfolding show
big = refl
