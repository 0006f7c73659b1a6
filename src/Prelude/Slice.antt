-- ===== src/Prelude/Slice.antt =====
-- Laws of `slice`, for the positions that the program computes.
use search_every.Prelude.Strings.{Text, slice}
use search_every.Prelude.Lists.{length, take, drop, length-drop}
use search_every.Prelude.Int.{pos}
use mathlib.Core.List.{List, [], ◌∷◌}
use mathlib.Core.Logic.{inl, inr}
use search_every.Prelude.Tests.{leb, Bool-cases}
use mathlib.Core.Path.{◌≡◌, refl, ap, ◌∙◌}
use Prim.Native.Nat.{ℕ, zero, suc, ◌-◌, ◌≤◌, min}
use native.Mathlib.Omega.{arith}

module _ {ℓ} {A : Type ℓ} where
  take_all : (n : ℕ) (xs : List A) → length xs ≤ n → take n xs ≡ xs
  take_all zero [] h = refl
  take_all zero (x ∷ xs) h = absurd (omega arith)
  take_all (suc n) [] h = refl
  take_all (suc n) (x ∷ xs) h = ap (◌∷◌ x) (take_all n xs (omega arith))

  take-min : (n : ℕ) (xs : List A) → take (min n (length xs)) xs ≡ take n xs
  take-min n xs = elim (Bool-cases (leb n (length xs))) [
    | inl h ↦ let e : min n (length xs) ≡ n = ground arith in ap (λ k. take k xs) e
    | inr h ↦
        let e : min n (length xs) ≡ length xs = ground arith in
        ap (λ k. take k xs) e
        ∙ rw (take_all (length xs) xs (omega arith), take_all n xs (ground arith))
  ]

  pub drop_all : (n : ℕ) (xs : List A) → length xs ≤ n → drop n xs ≡ []
  drop_all zero [] h = refl
  drop_all zero (x ∷ xs) h = absurd (omega arith)
  drop_all (suc n) [] h = refl
  drop_all (suc n) (x ∷ xs) h = drop_all n xs (omega arith)

module _ {ℓ} {A : Type ℓ} where
  drop-min : (n : ℕ) (xs : List A) → drop (min n (length xs)) xs ≡ drop n xs
  drop-min n xs = elim (Bool-cases (leb n (length xs))) [
    | inl h ↦ let e : min n (length xs) ≡ n = ground arith in ap (λ k. drop k xs) e
    | inr h ↦
        let e : min n (length xs) ≡ length xs = ground arith in
        ap (λ k. drop k xs) e
        ∙ rw (drop_all (length xs) xs (omega arith), drop_all n xs (ground arith))
  ]

pub slice_front : (s : Text) (n : ℕ) → slice s (pos 0) (pos n) ≡ take n s
unfolding slice
slice_front s n =
    let e : min n (length s) - min 0 (length s) ≡ min n (length s) = omega arith in
    let z : min 0 (length s) ≡ 0 = omega arith in rw (e, z) (take-min n s)

pub slice_back : (s : Text) (n : ℕ) → slice s (pos n) (pos (length s)) ≡ drop n s
unfolding slice
slice_back s n = rw (drop-min n s) (take_all _ (drop n s) (omega (arith, length-drop n s)))
