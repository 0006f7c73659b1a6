-- ===== src/Utils/Highlight/Literal.antt =====
-- What `highlight` shows for a query that is not a regular expression.
use search_every.Prelude.{
  ℕ, zero, suc, List, [], ◌∷◌, ◌++◌, Text, map, none, some, codes, ◌≡◌, refl, arith, append_assoc,
  ◌∙◌, Option-cases, inl, inr, All, filter, truthy,
}
use search_every.Utils.Highlight.{
  CaseMap, Engine, Piece, plain, mark, Element, single, pieces, quoted, regex_query, match_length,
  split_matches, piece, by_union, by_terms, by_phrase, by_regex, highlight, terms_of, safe_flags,
}
use search_every.Utils.Highlight.Marks.{Shows}
use search_every.Utils.Highlight.Pattern.{read_union-union}

abbrev pub piece_text : Piece → Text
piece_text (plain p) = p
piece_text (mark p) = p

abbrev pub concat : List Text → Text
concat [] = []
concat (p ∷ ps) = p ++ concat ps

-- The text that an element shows.
abbrev pub shown_text : Element → Text
shown_text (single t) = t
shown_text (pieces ps) = concat (map piece_text ps)

module _ (u : CaseMap) where
  concat-split_matches :
      (alts : List Text) (s : Text) (skip : ℕ) (cur : Text)
      → concat (split_matches u alts s skip cur) ≡ cur ++ s
  unfolding split_matches
  concat-split_matches alts [] skip cur = refl
  concat-split_matches alts (c ∷ s) (suc (suc k)) cur =
      rw (concat-split_matches alts s (suc k) (cur ++ c ∷ [])) (append_assoc cur (c ∷ []) s)
  concat-split_matches alts (c ∷ s) (suc zero) cur =
      rw (concat-split_matches alts s 0 []) (append_assoc cur (c ∷ []) s)
  concat-split_matches alts (c ∷ s) zero cur =
      elim (match_length u alts (c ∷ s))
        as (λ k.
          concat (elim k [
            | zero ↦ split_matches u alts s 0 (cur ++ c ∷ [])
            | suc k ↦ elim k [
              | zero ↦ cur ∷ (c ∷ []) ∷ split_matches u alts s 0 []
              | suc j ↦ cur ∷ split_matches u alts s (suc j) (c ∷ [])
            ]
          ])
          ≡ cur ++ (c ∷ s)) [
            | zero ↦
                rw (concat-split_matches alts s 0 (cur ++ c ∷ [])) (append_assoc cur (c ∷ []) s)
            | suc zero ↦ rw (concat-split_matches alts s 0 [])
            | suc (suc j) ↦ rw (concat-split_matches alts s (suc j) (c ∷ []))
          ]

-- The texts that a query looks for, if it is not a regular expression.
abbrev pub search_terms : Text → List Text
search_terms [] = []
search_terms (c ∷ s) = elim (quoted (c ∷ s)) [
  | some phrase ↦ filter truthy (phrase ∷ [])
  | none ↦ terms_of (c ∷ s)
]

-- No regular expression of the user's own is run: the query has not the form of one, or the engine
-- refuses it.
abbrev pub RunsNoRegex : Engine → Text → Type 0
RunsNoRegex engine q = elim (regex_query q) [
  | none ↦ Unit
  | some (pattern, flags) ↦ engine (b'(' ∷ (pattern ++ codes ")")) (safe_flags flags) ≡ none
]

module _ (u : CaseMap) where
  concat-pieces :
      (terms ps : List Text) → concat (map piece_text (map (piece u terms) ps)) ≡ concat ps
  concat-pieces terms [] = refl
  concat-pieces terms (p ∷ ps) = ground (arith, concat-pieces terms ps)

  -- The element that the split gives, for terms that are not empty.
  pub matched : Text → List Text → Element
  matched text terms = pieces (map (piece u terms) (split_matches u terms text 0 []))

  by_union-matched :
      (text t : Text) (ts : List Text) → by_union u text (t ∷ ts) ≡ some (matched text (t ∷ ts))
  unfolding by_union matched
  by_union-matched text t ts = rw (by_union, read_union-union t ts)

  shown_text-matched : (text : Text) (terms : List Text) → shown_text (matched text terms) ≡ text
  unfolding matched
  shown_text-matched text terms =
      concat-pieces terms (split_matches u terms text 0 []) ∙ concat-split_matches u terms text 0 []

  abbrev pub for_terms : Text → List Text → Element
  for_terms text [] = single text
  for_terms text (t ∷ ts) = matched text (t ∷ ts)

  pub by_terms-for_terms :
      (text : Text) (terms : List Text) → by_terms u text terms ≡ some (for_terms text terms)
  unfolding by_terms
  by_terms-for_terms text [] = refl
  by_terms-for_terms text (t ∷ ts) = by_union-matched text t ts

  pub by_phrase-for_terms :
      (text phrase : Text)
      → by_phrase u text phrase ≡ some (for_terms text (filter truthy (phrase ∷ [])))
  unfolding by_phrase
  by_phrase-for_terms text [] = refl
  by_phrase-for_terms text (c ∷ s) = by_union-matched text (c ∷ s) []

  pub by_regex_refused :
      (engine : Engine) (text q pattern flags : Text)
      → engine (b'(' ∷ (pattern ++ codes ")")) (safe_flags flags) ≡ none
      → by_regex u engine text q pattern flags ≡ by_terms u text (terms_of q)
  unfolding by_regex
  by_regex_refused engine text q pattern flags h = rw (h, by_regex)

  pub highlight-for_terms :
      (engine : Engine) (text q : Text)
      → RunsNoRegex engine q
      → highlight u engine text q ≡ some (for_terms text (search_terms q))
  unfolding highlight
  highlight-for_terms engine text [] h = refl
  highlight-for_terms engine text (c ∷ s) h = elim (Option-cases (quoted (c ∷ s))) [
    | inr (phrase, e) ↦ rw (e, highlight, search_terms) (by_phrase-for_terms text phrase)
    | inl e ↦ elim (Option-cases (regex_query (c ∷ s))) [
      | inl e' ↦ rw (e, e', highlight, search_terms) (by_terms-for_terms text (terms_of (c ∷ s)))
      | inr ((pattern, flags), e') ↦
          rw (e, e', highlight, search_terms)
            (by_regex_refused engine text (c ∷ s) pattern flags (rw (e', RunsNoRegex) at h)
              ∙ by_terms-for_terms text (terms_of (c ∷ s)))
    ]
  ]

  -- The whole text is shown, in order, for every query that runs no regular expression of the user's
  -- own.
  pub shown_text-highlight :
      (engine : Engine) (text q : Text)
      → RunsNoRegex engine q
      → (e : Element) × (highlight u engine text q ≡ some e) × (shown_text e ≡ text)
  shown_text-highlight engine text q h =
      (for_terms text (search_terms q), highlight-for_terms engine text q h, shown (search_terms q))
    where
      shown : (terms : List Text) → shown_text (for_terms text terms) ≡ text
      shown [] = refl
      shown (t ∷ ts) = shown_text-matched text (t ∷ ts)

  -- What an element of pieces marks. A single span means that there is no term.
  abbrev pub MarksTerms : List Text → Element → Type 0
  MarksTerms terms (single t) = terms ≡ []
  MarksTerms terms (pieces ps) = All (Shows u terms) ps
