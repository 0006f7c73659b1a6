-- ===== src/App/Typing/Rate.antt =====
-- How often the effect searches.
use search_every.Prelude.{
  ℕ, ◌+◌, ◌*◌, ◌≤◌, List, [], ◌∷◌, Text, none, some, Option, length, length-append, sym, subst,
  arith, Bool-cases, inl, inr,
}
use search_every.Prelude.Number.{Number}
use search_every.App.State.{App}
use search_every.App.Search.{on_timer}
use search_every.App.Typing.{deps_of, same_deps, Render, debounce, one, goes_off, typed}
use search_every.App.Typing.Pauses.{pauses, searched, searches, typed-searches}

-- The time from the first render to the end.
abbrev pub total : List Render → ℕ → ℕ
total [] last = last
total (r ∷ rs) last = r.wait + total rs last

length-one {ℓ} : {A : Type ℓ} (o : Option A) → length (one o) ≤ 1
length-one none = omega arith
length-one (some a) = omega arith

module _ (number : Text → Number) where
  length-goes_off : (s : App) → length (goes_off number s) ≤ 1
  unfolding goes_off
  length-goes_off s = length-one (on_timer number s).1

  length-searched : (s : App) (n : ℕ) → length (searched number (s, n)) * 250 ≤ n
  unfolding searched
  length-searched s n = ground (arith, length-goes_off s)

  length-searches :
      (s : App) (n : ℕ) (rs : List Render) (last : ℕ)
      → length (searches number (pauses s n rs last)) * 250 ≤ n + total rs last
  unfolding searches
  length-searches s n [] last =
      omega (arith, length-append (searched number (s, n + last)) [], length-searched s (n + last))
  length-searches s n (r ∷ rs) last = elim (Bool-cases (same_deps (deps_of s) (deps_of r.app))) [
    | inl e ↦ rw e (omega (arith, length-searches s (n + r.wait) rs last))
    | inr e ↦ rw e (
        omega (
          arith,
          length-append (searched number (s, n + r.wait))
              (searches number (pauses r.app 0 rs last)),
          length-searched s (n + r.wait),
          length-searches r.app 0 rs last,
        ))
  ]

  -- However fast the user types, the effect sends no more than one search for each 250 ms that have
  -- passed since the first render.
  pub length-typed :
      (s : App) (rs : List Render) (last : ℕ)
      → length (typed number s rs last) * debounce ≤ total rs last
  length-typed s rs last =
      subst (λ cs. length cs * 250 ≤ total rs last) (sym (typed-searches number s rs last))
        (omega (arith, length-searches s 0 rs last))
