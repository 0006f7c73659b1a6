-- ===== src/Utils/Highlight/Marks.antt =====
-- Which parts `highlight` marks, for a query that is not a regular expression.
use search_every.Prelude.{
  ℕ, ◌&&◌, ◌==◌, zero, suc, ◌≤◌, List, [], ◌∷◌, ◌++◌, Text, Bool, true, false, map, if◌then◌else◌,
  any, ◌≡◌, refl, arith, append_assoc, ap, sym, ◌∙◌, Bool-cases, inl, inr, All, take, length, ◌⊎◌,
  truthy,
}
use search_every.Utils.Highlight.{
  CaseMap, Piece, plain, mark, match_here, match_length, split_matches, is_term, piece,
}

small-cases : (n : ℕ) → (n ≡ 0) ⊎ (n ≡ 1) ⊎ ((j : ℕ) × (n ≡ suc (suc j)))
small-cases zero = inl refl
small-cases (suc zero) = inr (inl refl)
small-cases (suc (suc j)) = inr (inr (j, refl))

module _ (u : CaseMap) where
  -- No term matches at any position of the text.
  abbrev pub Free : List Text → Text → Type 0
  Free terms [] = Unit
  Free terms (c ∷ s) = (any (λ t. match_here u t (c ∷ s)) terms ≡ false) × Free terms s

  -- No term matches at any position of `cur`, with `s` behind it.
  abbrev Quiet : List Text → Text → Text → Type 0
  Quiet alts [] s = Unit
  Quiet alts (c ∷ cur) s = (match_length u alts (c ∷ (cur ++ s)) ≡ 0) × Quiet alts cur s

  Quiet-snoc :
      (alts : List Text) (cur : Text) (c : ℕ) (s : Text)
      → match_length u alts (c ∷ s) ≡ 0
      → Quiet alts cur (c ∷ s)
      → Quiet alts (cur ++ c ∷ []) s
  Quiet-snoc alts [] c s m q = (m, tt)
  Quiet-snoc alts (d ∷ cur) c s m q =
      (rw (append_assoc cur (c ∷ []) s) q.0, Quiet-snoc alts cur c s m q.1)

  match_here-append :
      (t s rest : Text) → match_here u t s ≡ true → match_here u t (s ++ rest) ≡ true
  unfolding match_here
  match_here-append [] s rest h = refl
  match_here-append (t ∷ ts) [] rest h = absurd (cc)
  match_here-append (t ∷ ts) (c ∷ s) rest h = ground (arith, match_here-append ts s rest)

  -- Where no alternative matches with more text behind, none matches without.
  no_match :
      (alts : List Text) (s rest : Text)
      → All (λ t. truthy t ≡ true) alts
      → match_length u alts (s ++ rest) ≡ 0
      → any (λ t. match_here u t s) alts ≡ false
  unfolding match_length
  no_match [] s rest h m = refl
  no_match ([] ∷ ts) s rest h m = absurd (cc)
  no_match ((c ∷ t) ∷ ts) s rest h m =
      ground (arith, no_match ts s rest h.1, match_here-append (c ∷ t) s rest)

  Quiet-Free :
      (alts : List Text) (cur s : Text)
      → All (λ t. truthy t ≡ true) alts
      → Quiet alts cur s
      → Free alts cur
  Quiet-Free alts [] s h q = tt
  Quiet-Free alts (c ∷ cur) s h q = (no_match alts (c ∷ cur) s h q.0, Quiet-Free alts cur s h q.1)

  -- The text is a match of a term, all of it.
  abbrev pub is_match : List Text → Text → Bool
  is_match terms p = any (λ t. match_here u t p && length t == length p) terms

  -- What the shown piece says of the terms.
  abbrev pub Shows : List Text → Piece → Type 0
  Shows terms (plain p) = Free terms p ⊎ (is_match terms p ≡ true) × (is_term u terms p ≡ false)
  Shows terms (mark p) = is_term u terms p ≡ true

  abbrev GoodPart : List Text → Text → Type 0
  GoodPart terms p = (is_match terms p ≡ true) ⊎ Free terms p

  match_here-take :
      (t s : Text)
      → match_here u t s ≡ true
      → (length t ≤ length s)
        × (match_here u t (take (length t) s) ≡ true)
        × (length t ≡ length (take (length t) s))
  unfolding match_here
  match_here-take [] s h = (omega arith, refl, refl)
  match_here-take (t ∷ ts) [] h = absurd (cc)
  match_here-take (t ∷ ts) (c ∷ s) h = ground (arith, match_here-take ts s)

  -- A match of positive length is a match of a term.
  match_length-is_match :
      (alts : List Text) (s : Text) (k : ℕ)
      → match_length u alts s ≡ suc k
      → (suc k ≤ length s) × (is_match alts (take (suc k) s) ≡ true)
  unfolding match_length
  match_length-is_match [] s k h = absurd (omega arith)
  match_length-is_match (t ∷ ts) s k h = elim (Bool-cases (match_here u t s)) [
    | inl e ↦
        let n : length t ≡ suc k = rw e at h in
        let (fits, hit, long) = match_here-take t s e in
        let hit' = sym (ap (λ j. match_here u t (take j s)) n) ∙ hit in
        let long' : length t ≡ length (take (suc k) s) = long ∙ ap (λ j. length (take j s)) n in
        (omega (arith, fits, n), ground (arith, hit', long'))
    | inr e ↦
        let (fits, same) = match_length-is_match ts s k (rw e at h) in (fits, ground (arith, same))
  ]

  -- What is known inside the split: before a match the current part is quiet, and inside one the
  -- part will be a term.
  abbrev Inside : List Text → Text → ℕ → Text → Type 0
  Inside alts s zero cur = Quiet alts cur s
  Inside alts s (suc k) cur = (suc k ≤ length s) × (is_match alts (cur ++ take (suc k) s) ≡ true)

  split_matches_none :
      (alts : List Text) (c : ℕ) (s cur : Text)
      → match_length u alts (c ∷ s) ≡ 0
      → split_matches u alts (c ∷ s) 0 cur ≡ split_matches u alts s 0 (cur ++ c ∷ [])
  unfolding split_matches
  split_matches_none alts c s cur e = rw (e, split_matches)

  split_matches_one :
      (alts : List Text) (c : ℕ) (s cur : Text)
      → match_length u alts (c ∷ s) ≡ 1
      → split_matches u alts (c ∷ s) 0 cur ≡ cur ∷ (c ∷ []) ∷ split_matches u alts s 0 []
  unfolding split_matches
  split_matches_one alts c s cur e = rw (e, split_matches)

  split_matches_more :
      (alts : List Text) (c : ℕ) (s cur : Text) (j : ℕ)
      → match_length u alts (c ∷ s) ≡ suc (suc j)
      → split_matches u alts (c ∷ s) 0 cur ≡ cur ∷ split_matches u alts s (suc j) (c ∷ [])
  unfolding split_matches
  split_matches_more alts c s cur j e = rw (e, split_matches)

  split_matches-GoodPart :
      (alts : List Text)
      → All (λ t. truthy t ≡ true) alts
      → (s : Text) (skip : ℕ) (cur : Text) → Inside alts s skip cur
      → All (GoodPart alts) (split_matches u alts s skip cur)
  unfolding split_matches
  split_matches-GoodPart alts h [] zero cur i = (inr (Quiet-Free alts cur [] h i), tt)
  split_matches-GoodPart alts h [] (suc k) cur i = absurd (omega arith)
  split_matches-GoodPart alts h (c ∷ s) (suc (suc k)) cur i =
      split_matches-GoodPart alts h s (suc k) (cur ++ c ∷ [])
        (omega arith, rw (append_assoc cur (c ∷ []) (take (suc k) s)) i.1)
  split_matches-GoodPart alts h (c ∷ s) (suc zero) cur i =
      (inl i.1, split_matches-GoodPart alts h s 0 [] tt)
  split_matches-GoodPart alts h (c ∷ s) zero cur i =
      let quiet : GoodPart alts cur = inr (Quiet-Free alts cur (c ∷ s) h i) in
      elim (small-cases (match_length u alts (c ∷ s))) [
        | inl e ↦
            rw (split_matches_none alts c s cur e)
              (split_matches-GoodPart alts h s 0 (cur ++ c ∷ []) (Quiet-snoc alts cur c s e i))
        | inr (inl e) ↦
            let (fits, hit) = match_length-is_match alts (c ∷ s) 0 e in
            rw (split_matches_one alts c s cur e)
              (quiet, (inl hit, split_matches-GoodPart alts h s 0 [] tt))
        | inr (inr (j, e)) ↦
            let (fits, hit) = match_length-is_match alts (c ∷ s) (suc j) e in
            rw (split_matches_more alts c s cur j e)
              (quiet, split_matches-GoodPart alts h s (suc j) (c ∷ []) (omega arith, hit))
      ]

  pub pieces-Shows :
      (terms : List Text) (ps : List Text)
      → All (GoodPart terms) ps
      → All (Shows terms) (map (piece u terms) ps)
  pieces-Shows terms [] h = tt
  pieces-Shows terms (p ∷ ps) h = (shown (is_term u terms p) refl h.0, pieces-Shows terms ps h.1)
    where
      shown :
          (b : Bool)
          → is_term u terms p ≡ b
          → GoodPart terms p
          → Shows terms (if b then mark p else plain p)
      shown true e g = e
      shown false e (inl hit) = inr (hit, e)
      shown false e (inr free) = inl free

  pub split_matches-Shows :
      (alts : List Text)
      → All (λ t. truthy t ≡ true) alts
      → (s : Text) → All (Shows alts) (map (piece u alts) (split_matches u alts s 0 []))
  split_matches-Shows alts h s = pieces-Shows alts _ (split_matches-GoodPart alts h s 0 [] tt)
