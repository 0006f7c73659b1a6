-- ===== src/Tests/Index.antt =====
-- A run of indexing a file again, and the theorem at that run.
use mathlib.Core.List.{Memᴰ}
use mathlib.Core.List.Memᴰ.{head, tail}
use search_every.Prelude.{
  List, [], ◌∷◌, ◌++◌, Text, false, not, any, filter, map, split, text_eq, none, codes, All, ◌≡◌,
  refl, subst, sym, arith,
}
use search_every.Prelude.Split.{split-All}
use search_every.Prelude.Int.{pos}
use search_every.Types.{FileMeta}
use search_every.Utils.Path.{is_separator}
use search_every.Services.Api.{IndexOpts}
use search_every.Backend.Index.{Document, Reader, document_of, index_files}
use search_every.Backend.Index.Grows.{IsIndex, stored-index_files}

-- An index that is the list of its documents, with the parts of a path as its words.
abbrev delete_word : Text → List Document → List Document
delete_word t ds = filter (λ d. not (any (text_eq t) (split is_separator d.path))) ds

abbrev append_document : Document → List Document → List Document
append_document d ds = ds ++ d ∷ []

All-any : (w : Text) → All (λ c. is_separator c ≡ false) w → any is_separator w ≡ false
All-any [] h = refl
All-any (c ∷ w) h = ground (arith, h.0, All-any w h.1)

part_free :
    (w : Text) (ws : List Text)
    → All (All (λ c. is_separator c ≡ false)) ws
    → Memᴰ w ws
    → any is_separator w ≡ false
part_free w [] h i = elim i [ ]
part_free w (v ∷ ws) h (head e) = subst (λ x. any is_separator x ≡ false) (sym e) (All-any v h.0)
part_free w (v ∷ ws) h (tail i) = part_free w ws h.1 i

listed-IsIndex : IsIndex delete_word append_document (split is_separator) (λ ds. ds)
listed-IsIndex = record {
  deletes = λ t i. refl;
  adds = λ d i. refl;
  splits = λ path w i. part_free w (split is_separator path) (split-All is_separator path) i;
}

abbrev nothing_read : Reader
nothing_read = record { read = λ p. none; chars_take = λ n t. t }

abbrev no_content : IndexOpts
no_content = record { index_dir = codes "index"; enable_content_parse = false }

abbrev slash_a : FileMeta
slash_a = record {
  path = codes "/a";
  file_name = codes "a";
  ext = [];
  size = 7;
  modified_ts = pos 940;
}

-- The index has the file before, and twice after it is indexed again.
stored-index_files_example :
    index_files nothing_read no_content delete_word append_document
      (slash_a ∷ [])
      (document_of nothing_read no_content slash_a ∷ [])
    ≡ (document_of nothing_read no_content slash_a ∷ [])
      ++ map (document_of nothing_read no_content) (slash_a ∷ [])
stored-index_files_example =
    stored-index_files nothing_read no_content (slash_a ∷ [])
      (document_of nothing_read no_content slash_a ∷ []) listed-IsIndex (refl, tt)
