-- ===== src/Backend/Query.antt =====
-- src-tauri/src/search.rs: the results of a query. The index is a parameter, which gives the documents
-- that match, best first, or an error; the log is left out.
pub mod Wanted
use search_every.Prelude.{
  ℕ, ◌+◌, List, [], ◌∷◌, Text, Bool, true, false, ◌&&◌, ◌||◌, not, Option, none, some, any, take,
  filter, map, ltb, leb, text_eq, if◌then◌else◌,
}
use search_every.Types.{SearchResult}
use search_every.Services.Api.Contract.{BackendFilters, QueryRequest}

-- A unit of a text, with a letter of ASCII in lower case
abbrev pub ascii_lower : ℕ → ℕ
ascii_lower c = if leb b'A' c && leb c b'Z' then c + 32 else c

-- `a.eq_ignore_ascii_case(&b)`
unfoldable pub eq_ignore_ascii_case : Text → Text → Bool
eq_ignore_ascii_case a b = text_eq (map ascii_lower a) (map ascii_lower b)

-- The tests of the loop, each of which may `continue`.
abbrev pub ext_passes : Option (List Text) → Text → Bool
ext_passes none ext = true
ext_passes (some []) ext = true
ext_passes (some (e ∷ es)) ext = any (λ x. eq_ignore_ascii_case x ext) (e ∷ es)

abbrev pub min_passes : Option ℕ → Option ℕ → Bool
min_passes (some least) (some size) = not (ltb size least)
min_passes (some least) none = true
min_passes none size = true

abbrev pub max_passes : Option ℕ → Option ℕ → Bool
max_passes (some most) (some size) = not (ltb most size)
max_passes (some most) none = true
max_passes none size = true

unfoldable pub passes : Option BackendFilters → SearchResult → Bool
passes none r = true
passes (some f) r =
    ext_passes f.ext r.ext && (min_passes f.min_size r.size && max_passes f.max_size r.size)

-- `TopDocs::with_limit(50)`
abbrev pub top_docs : ℕ
top_docs = 50

abbrev pub kept : Option BackendFilters → Option (List SearchResult) → Option (List SearchResult)
kept f none = none
kept f (some docs) = some (filter (passes f) (take top_docs docs))

-- The first argument is the index: its directory and the query give the documents.
unfoldable pub query :
    (Text → Text → Option (List SearchResult)) → QueryRequest → Option (List SearchResult)
query index req = kept req.filters (index req.index_dir req.query)
