-- ===== src/Tests/Highlight.antt =====
-- Runs of src/utils/highlight.tsx, and its theorems at concrete inputs.
use search_every.Prelude.{
  ℕ, ◌+◌, [], ◌∷◌, Text, map, ◌==◌, some, none, Option, codes, ◌≡◌, refl, leb, ◌&&◌, if◌then◌else◌,
  is_space, trim, trim_start, trim_end, text_eq, join,
}
use search_every.Utils.Highlight.{
  CaseMap, Engine, Element, plain, mark, pieces, highlight, by_terms, by_phrase, by_union,
  match_here, match_length, split_matches, is_term, quoted, regex_query, terms_of,
}
use search_every.Utils.Highlight.Pattern.{union, read_union, is_special}
use search_every.Utils.Highlight.Literal.{shown_text, shown_text-highlight}

-- The letters of ASCII.
abbrev ascii_lower : ℕ → ℕ
ascii_lower c = if leb b'A' c && leb c b'Z' then c + 32 else c

abbrev ascii : CaseMap
ascii = record { lower = map ascii_lower; canon = ascii_lower }

-- An engine that refuses every pattern.
abbrev no_engine : Engine
no_engine pattern flags = none

-- The function with all that it calls, for the runs below.
run_with : CaseMap → Text → Text → Option Element
unfolding highlight by_terms by_phrase by_union quoted regex_query terms_of is_space trim trim_start
    trim_end union join read_union is_special match_length match_here split_matches is_term text_eq
run_with u text q = highlight u no_engine text q

run : Text → Text → Option Element
unfolding run_with
run text q = run_with ascii text q

two_words :
    run (codes "Annual Report") (codes "report an")
    ≡ some (
        pieces (
          plain []
          ∷ mark (codes "An")
          ∷ plain (codes "nual ")
          ∷ mark (codes "Report")
          ∷ plain []
          ∷ []))
unfolding run
two_words = refl

special_characters :
    run (codes "a.b (c++)") (codes "\"(C++)\"")
    ≡ some (pieces (plain (codes "a.b ") ∷ mark (codes "(c++)") ∷ plain [] ∷ []))
unfolding run
special_characters = refl

-- A small sigma at the end of a word is a sigma for the regular expression, and not in lower case.
abbrev sigmas : CaseMap
sigmas = record { lower = λ t. t; canon = λ c. if c == 0x3C2 then 0x3C3 else c }

final_sigma :
    run_with sigmas (0x3C2 ∷ []) (0x3C3 ∷ [])
    ≡ some (pieces (plain [] ∷ plain (0x3C2 ∷ []) ∷ plain [] ∷ []))
unfolding run_with
final_sigma = refl

shown_text-highlight_example :
    (e : Element) × (highlight ascii no_engine (codes "Report") (codes "po") ≡ some e)
    × (shown_text e ≡ codes "Report")
unfolding regex_query
shown_text-highlight_example = shown_text-highlight ascii no_engine (codes "Report") (codes "po") tt
