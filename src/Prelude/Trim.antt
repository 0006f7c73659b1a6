-- ===== src/Prelude/Trim.antt =====
-- Laws of `trim`.
use mathlib.Core.Bool.{true, false}
use mathlib.Core.List.{[], ◌∷◌}
use mathlib.Core.Logic.{inl, inr, ◌⊎◌}
use mathlib.Core.Path.{◌≡◌, refl, ap}
use Prim.Native.Nat.{ℕ, ◌≤◌}
use native.Mathlib.Omega.{arith}
use search_every.Prelude.Lists.{All, length}
use search_every.Prelude.Strings.{Text, is_space, trim_start, trim_end, before_trimmed, trim}
use search_every.Prelude.Tests.{Bool-cases}

before_trimmed-cases :
    (c : ℕ) (s : Text)
    → ((s ≡ []) × (is_space c ≡ true) × (before_trimmed c s ≡ [])) ⊎ (before_trimmed c s ≡ c ∷ s)
before_trimmed-cases c [] = ground arith
before_trimmed-cases c (d ∷ s) = inr refl

trim_end-before_trimmed :
    (c : ℕ) (s : Text) → trim_end s ≡ s → trim_end (before_trimmed c s) ≡ before_trimmed c s
unfolding trim_end
trim_end-before_trimmed c [] h = ground arith
trim_end-before_trimmed c (d ∷ s) h = rw h

trim_end_idem : (s : Text) → trim_end (trim_end s) ≡ trim_end s
unfolding trim_end
trim_end_idem [] = refl
trim_end_idem (c ∷ s) = trim_end-before_trimmed c (trim_end s) (trim_end_idem s)

trim_start_idem : (s : Text) → trim_start (trim_start s) ≡ trim_start s
unfolding trim_start
trim_start_idem [] = refl
trim_start_idem (c ∷ s) = ground (arith, trim_start_idem s)

trim_start-le : (s : Text) → length (trim_start s) ≤ length s
unfolding trim_start
trim_start-le [] = omega arith
trim_start-le (c ∷ s) = ground (arith, trim_start-le s)

starts_solid : (c : ℕ) (s : Text) → trim_start (c ∷ s) ≡ c ∷ s → is_space c ≡ false
unfolding trim_start
starts_solid c s h = elim (Bool-cases (is_space c)) [
  | inl e ↦ absurd (omega (arith, ap length (rw e at h), trim_start-le s))
  | inr e ↦ e
]

-- Cutting the end off a text that begins with no white space leaves such a text.
trim_start-trim_end : (s : Text) → trim_start s ≡ s → trim_start (trim_end s) ≡ trim_end s
unfolding trim_start trim_end
trim_start-trim_end [] h = refl
trim_start-trim_end (c ∷ s) h =
    ground (arith, starts_solid c s h, before_trimmed-cases c (trim_end s))

pub trim_idem : (s : Text) → trim (trim s) ≡ trim s
unfolding trim
trim_idem s = rw (trim_start-trim_end (trim_start s) (trim_start_idem s)) (trim_end_idem _)

pub trim_space : (c : ℕ) (s : Text) → is_space c ≡ true → trim (c ∷ s) ≡ trim s
unfolding trim trim_start
trim_space c s h = rw h

module _ {κ} (P : ℕ → Type κ) where
  trim_start-All : (s : Text) → All P s → All P (trim_start s)
  unfolding trim_start
  trim_start-All [] h = tt
  trim_start-All (c ∷ s) h = ground (arith, trim_start-All s h.1)

  before_trimmed-All : (c : ℕ) (s : Text) → P c → All P s → All P (before_trimmed c s)
  before_trimmed-All c [] p h = ground arith
  before_trimmed-All c (d ∷ s) p h = (p, h)

  trim_end-All : (s : Text) → All P s → All P (trim_end s)
  unfolding trim_end
  trim_end-All [] h = tt
  trim_end-All (c ∷ s) h = before_trimmed-All c (trim_end s) h.0 (trim_end-All s h.1)

  pub trim-All : (s : Text) → All P s → All P (trim s)
  unfolding trim
  trim-All s h = trim_end-All (trim_start s) (trim_start-All s h)
