-- ===== src/Utils/Highlight/Total.antt =====
-- The errors of the regular expression engine, and what `highlight` does about them.
use search_every.Prelude.{
  [], ◌∷◌, ◌++◌, Text, some, codes, ◌≡◌, refl, ◌∙◌, Option-cases, inl, inr, filter, truthy,
}
use search_every.Utils.Highlight.{
  CaseMap, Engine, Element, single, pieces, quoted, regex_query, by_regex, highlight, terms_of,
  safe_flags, test_parts,
}
use search_every.Utils.Highlight.Literal.{
  for_terms, by_terms-for_terms, by_phrase-for_terms, by_regex_refused,
}

module _ (u : CaseMap) where
  by_regex_total :
      (engine : Engine) (text q pattern flags : Text)
      → (e : Element) × (by_regex u engine text q pattern flags ≡ some e)
  unfolding by_regex
  by_regex_total engine text q pattern flags =
      elim (Option-cases (engine (b'(' ∷ (pattern ++ codes ")")) (safe_flags flags))) [
        | inl r ↦ (
          for_terms u text (terms_of q),
          by_regex_refused u engine text q pattern flags r ∙ by_terms-for_terms u text (terms_of q),
        )
        | inr (re, r) ↦ (pieces (test_parts re 0 (re.split_by text)), rw (r, by_regex))
      ]

  -- No query makes the function throw: whatever its characters, and whether or not the engine takes
  -- it for a regular expression, there is an element.
  pub highlight_total :
      (engine : Engine) (text q : Text) → (e : Element) × (highlight u engine text q ≡ some e)
  unfolding highlight
  highlight_total engine text [] = (single text, refl)
  highlight_total engine text (c ∷ s) = elim (Option-cases (quoted (c ∷ s))) [
    | inr (phrase, e) ↦ (
      for_terms u text (filter truthy (phrase ∷ [])),
      rw (e, highlight) (by_phrase-for_terms u text phrase),
    )
    | inl e ↦ elim (Option-cases (regex_query (c ∷ s))) [
      | inl e' ↦ (
        for_terms u text (terms_of (c ∷ s)),
        rw (e, e', highlight) (by_terms-for_terms u text (terms_of (c ∷ s))),
      )
      | inr ((pattern, flags), e') ↦
          let (found, r) = by_regex_total engine text (c ∷ s) pattern flags in
          (found, rw (e, e', highlight) r)
    ]
  ]
