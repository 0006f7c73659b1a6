-- ===== src/Utils/Highlight.antt =====
-- src/utils/highlight.tsx: the parts of a text that match the query are marked.
-- `toLowerCase` is a parameter, a function of the whole text; so is the mapping by which a regular
-- expression with the flag `i`, and without `u`, compares two code units, and the engine that runs a
-- regular expression of the user's own.
pub mod Pattern
pub mod Literal
pub mod Marks
pub mod Total
use search_every.Prelude.{
  ℕ, zero, suc, List, [], ◌∷◌, ◌++◌, Text, Bool, true, false, not, ◌&&◌, ◌||◌, map, Option, none,
  some, codes, ◌==◌, if◌then◌else◌, any, filter, length, truthy, trim, is_space, before_first,
  text_eq,
}
use Pattern.{escape, union, read_union}

pub record CaseMap : Type 0 where
  pub lower : Text → Text
  pub canon : ℕ → ℕ

-- A compiled regular expression: `text.split(re)`, where an entry may be `undefined`, and `re.test`,
-- which reads and sets `lastIndex`.
pub record Regex : Type 0 where
  pub split_by : Text → List (Option Text)
  pub test : ℕ → Text → Bool × ℕ

-- `new RegExp(pattern, flags)`; `none` is a syntax error.
abbrev pub Engine : Type 0
Engine = Text → Text → Option Regex

-- `<span>` and `<mark>`
pub data Piece : Type 0 where
  plain : Text → Piece
  mark : Text → Piece

-- One span around the text, or a span of pieces.
pub data Element : Type 0 where
  single : Text → Element
  pieces : List Piece → Element

-- `/^"([\s\S]*)"$/`: the text between the quotes
abbrev pub without_last_quote : Text → Option Text
without_last_quote [] = none
without_last_quote (c ∷ []) = if c == b'"' then some [] else none
without_last_quote (c ∷ d ∷ s) = elim (without_last_quote (d ∷ s)) [
  | none ↦ none
  | some t ↦ some (c ∷ t)
]

unfoldable pub quoted : Text → Option Text
quoted [] = none
quoted (c ∷ s) = if c == b'"' then without_last_quote s else none

-- A character that the `.` of a regular expression does not match.
abbrev line_end : ℕ → Bool
line_end c = (c == 10) || (c == 13) || (c == 0x2028) || (c == 0x2029)

-- The texts before and behind the last slash.
abbrev pub at_last_slash : Text → Option (Text × Text)
at_last_slash [] = none
at_last_slash (c ∷ s) = elim (at_last_slash s) [
  | none ↦ if c == b'/' then some ([], s) else none
  | some (a, b) ↦ some (c ∷ a, b)
]

-- `/^\/(.*)\/(.*)$/`: the pattern and the flags
unfoldable pub regex_query : Text → Option (Text × Text)
regex_query [] = none
regex_query (c ∷ s) = if (c == b'/') && not (any line_end s) then at_last_slash s else none

abbrev or_i : Text → Text
or_i [] = codes "i"
or_i (c ∷ s) = c ∷ s

-- `[gimsuy]`
abbrev safe_flag : ℕ → Bool
safe_flag c = any (λ d. c == d) (codes "gimsuy")

unfoldable pub safe_flags : Text → Text
safe_flags flags = or_i (filter safe_flag (or_i flags))

-- `parts.map(p => re.test(p) ? mark : span)`; `lastIndex` goes from one test to the next, and
-- `undefined` is tested as the text of that name and shown as nothing.
unfoldable pub test_parts : Regex → ℕ → List (Option Text) → List Piece
test_parts re last [] = []
test_parts re last (none ∷ ps) =
    let (hit, next) = re.test last (codes "undefined") in
    (if hit then mark [] else plain []) ∷ test_parts re next ps
test_parts re last (some p ∷ ps) =
    let (hit, next) = re.test last p in (if hit then mark p else plain p) ∷ test_parts re next ps

-- `q.split(/\s+/)`; the flag says that the white space before is already cut.
abbrev pub split_spaces : Bool → Text → List Text
split_spaces cut [] = [] ∷ []
split_spaces true (c ∷ s) =
    let first = before_first c (split_spaces false s) in
    let more = split_spaces true s in if is_space c then more else first
split_spaces false (c ∷ s) =
    let first = before_first c (split_spaces false s) in
    let next = [] ∷ split_spaces true s in if is_space c then next else first

unfoldable pub terms_of : Text → List Text
terms_of q = filter truthy (map trim (split_spaces false q))

module _ (u : CaseMap) where
  -- The literal `t` matches at the front of `s`, whatever the case.
  unfoldable pub match_here : Text → Text → Bool
  match_here [] s = true
  match_here (t ∷ ts) [] = false
  match_here (t ∷ ts) (c ∷ s) = (u.canon t == u.canon c) && match_here ts s

  -- The length of the first alternative that matches at the front, and 0 for no match.
  unfoldable pub match_length : List Text → Text → ℕ
  match_length [] s = 0
  match_length (t ∷ ts) s = if match_here t s then length t else match_length ts s

  -- `text.split(/(a|b|…)/gi)` over literal alternatives: `skip` counts what is left of a match, and
  -- `cur` is the current part.
  unfoldable pub split_matches : List Text → Text → ℕ → Text → List Text
  split_matches alts [] skip cur = cur ∷ []
  split_matches alts (c ∷ s) (suc (suc k)) cur = split_matches alts s (suc k) (cur ++ c ∷ [])
  split_matches alts (c ∷ s) (suc zero) cur = (cur ++ c ∷ []) ∷ split_matches alts s 0 []
  split_matches alts (c ∷ s) zero cur = elim (match_length alts (c ∷ s)) [
    | zero ↦ split_matches alts s 0 (cur ++ c ∷ [])
    | suc k ↦ elim k [
      | zero ↦ cur ∷ (c ∷ []) ∷ split_matches alts s 0 []
      | suc j ↦ cur ∷ split_matches alts s (suc j) (c ∷ [])
    ]
  ]

  -- `terms.some(t => p.toLowerCase() === t.toLowerCase())`
  unfoldable pub is_term : List Text → Text → Bool
  is_term terms p = any (λ t. text_eq (u.lower p) (u.lower t)) terms

  abbrev pub piece : List Text → Text → Piece
  piece terms p = if is_term terms p then mark p else plain p

  -- The regular expression of the escaped terms, run on the text. `none`: the pattern is no
  -- alternation of literals.
  unfoldable pub by_union : Text → List Text → Option Element
  by_union text terms = elim (read_union (union terms) [] false) [
    | none ↦ none
    | some alts ↦ some (pieces (map (piece terms) (split_matches alts text 0 [])))
  ]

  unfoldable pub by_terms : Text → List Text → Option Element
  by_terms text [] = some (single text)
  by_terms text (t ∷ ts) = by_union text (t ∷ ts)

  unfoldable pub by_phrase : Text → Text → Option Element
  by_phrase text [] = some (single text)
  by_phrase text (c ∷ s) = by_union text ((c ∷ s) ∷ [])

  unfoldable pub by_regex : Engine → Text → Text → Text → Text → Option Element
  by_regex engine text q pattern flags =
      elim (engine (b'(' ∷ (pattern ++ codes ")")) (safe_flags flags)) [
        | none ↦ by_terms text (terms_of q)
        | some re ↦ some (pieces (test_parts re 0 (re.split_by text)))
      ]

  unfoldable pub highlight : Engine → Text → Text → Option Element
  highlight engine text [] = some (single text)
  highlight engine text (c ∷ s) =
      let q = c ∷ s in
      elim (quoted q) [
        | some phrase ↦ by_phrase text phrase
        | none ↦ elim (regex_query q) [
          | some (pattern, flags) ↦ by_regex engine text q pattern flags
          | none ↦ by_terms text (terms_of q)
        ]
      ]
