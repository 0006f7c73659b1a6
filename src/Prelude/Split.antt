-- ===== src/Prelude/Split.antt =====
-- Laws of `split`.
use mathlib.Core.Bool.{Bool, true, false}
use mathlib.Core.List.{List, [], ◌∷◌, ◌++◌}
use mathlib.Core.Logic.{inl, inr, ◌≢◌}
use mathlib.Core.Path.{◌≡◌, refl}
use Prim.Native.Nat.{ℕ}
use native.Mathlib.Omega.{arith}
use search_every.Prelude.Lists.{All}
use search_every.Prelude.Strings.{Text, split, before_first}
use search_every.Prelude.Tests.{Bool-cases}

before_first-ne-nil : (c : ℕ) (ps : List Text) → before_first c ps ≢ []
before_first-ne-nil c [] = cc
before_first-ne-nil c (p ∷ ps) = λ h. cc

before_first-append :
    (c : ℕ) (ps qs : List Text) → ps ≢ [] → before_first c (ps ++ qs) ≡ before_first c ps ++ qs
before_first-append c [] qs h = absurd (h refl)
before_first-append c (p ∷ ps) qs h = refl

before_first-All {κ} :
    (P : ℕ → Type κ) (c : ℕ) (ps : List Text)
    → P c
    → All (All P) ps
    → All (All P) (before_first c ps)
before_first-All P c [] p h = ((p, tt), tt)
before_first-All P c (q ∷ ps) p h = ((p, h.0), h.1)

module _ (sep : ℕ → Bool) where
  pub split-ne-nil : (s : Text) → split sep s ≢ []
  unfolding split
  split-ne-nil [] = λ h. cc
  split-ne-nil (c ∷ s) = ground (arith, before_first-ne-nil c (split sep s))

  -- A separator between two texts separates their parts.
  pub split-append :
      (p : Text) (c : ℕ) (s : Text)
      → sep c ≡ true
      → split sep (p ++ (c ∷ s)) ≡ split sep p ++ split sep s
  unfolding split
  split-append [] c s e = rw e
  split-append (d ∷ p) c s e = elim (Bool-cases (sep d)) [
    | inl h ↦ rw (h, split-append p c s e)
    | inr h ↦ rw (h, split-append p c s e) (before_first-append d (split sep p) _ (split-ne-nil p))
  ]

  -- A text without separators is one part.
  pub split_whole : (p : Text) → All (λ d. sep d ≡ false) p → split sep p ≡ p ∷ []
  unfolding split
  split_whole [] h = refl
  split_whole (d ∷ p) h = rw (h.0, split_whole p h.1)

  -- No part holds a separator.
  pub split-All : (s : Text) → All (All (λ d. sep d ≡ false)) (split sep s)
  unfolding split
  split-All [] = (tt, tt)
  split-All (c ∷ s) = elim (Bool-cases (sep c)) [
    | inl e ↦ rw e (tt, split-All s)
    | inr e ↦ rw e (before_first-All (λ d. sep d ≡ false) c (split sep s) e (split-All s))
  ]
