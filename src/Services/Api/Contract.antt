-- ===== src/Services/Api/Contract.antt =====
-- The payloads of src/services/api.ts as the back end reads them (the argument structs of
-- src-tauri/src/search.rs and src-tauri/src/indexer.rs). Tauri hands a command its arguments under
-- camel-case names, and JSON writes a number that is not finite as null.
use search_every.Prelude.{
  ℕ, zero, ◌^◌, ◌<◌, List, [], ◌∷◌, Text, Bool, Option, none, some, ltb, if◌then◌else◌, ◌≡◌, refl,
  lt→ltb,
}
use mathlib.Core.Option
use search_every.Prelude.Int.{pos, negsuc}
use search_every.Prelude.Number.{Number, nan, infinity, fin, whole}
use search_every.Types.{SearchRequest, SearchFilters, FileMeta}
use search_every.Services.Value.{
  Value, undefined, null, boolean, number, string, array, object, Values, no_values, and_value, get,
  texts, optional,
}
use search_every.Services.Api.{
  filters_value, IndexOpts, search_query, scan_and_index_pipeline, build_inverted_index,
}

infixl 5 ◌>>=◌
abbrev pub ◌>>=◌ {ℓ κ} : {A : Type ℓ} {B : Type κ} → Option A → (A → Option B) → Option B
none >>= f = none
some a >>= f = f a

-- `struct SearchFilters`
pub record BackendFilters : Type 0 where
  pub ext : Option (List Text)
  pub min_size : Option ℕ
  pub max_size : Option ℕ

-- `struct QueryRequest`
pub record QueryRequest : Type 0 where
  pub query : Text
  pub filters : Option BackendFilters
  pub index_dir : Text

-- `String`
unfoldable pub read_string : Value → Option Text
read_string (string t) = some t
read_string _ = none

-- `bool`
unfoldable pub read_bool : Value → Option Bool
read_bool (boolean b) = some b
read_bool _ = none

-- `Vec<String>`
unfoldable pub read_values : Values → Option (List Text)
unfolding read_string
read_values no_values = some []
read_values (and_value v vs) =
    let rest = read_values vs in do t ← read_string v; ts ← rest; some (t ∷ ts)

-- `Vec<String>`, with its array
unfoldable pub read_list : Value → Option (List Text)
unfolding read_values
read_list (array vs) = read_values vs
read_list _ = none

-- `Option<Vec<String>>`
unfoldable pub read_list? : Value → Option (Option (List Text))
unfolding read_values
read_list? undefined = some none
read_list? null = some none
read_list? (array xs) = do ts ← read_values xs; some (some ts)
read_list? _ = none

-- `Option<u64>`
unfoldable pub read_u64? : Value → Option (Option ℕ)
read_u64? undefined = some none
read_u64? null = some none
read_u64? (number nan) = some none
read_u64? (number (infinity s)) = some none
read_u64? (number (fin (pos n) zero)) = if ltb n (2 ^ 64) then some (some n) else none
read_u64? _ = none

unfoldable pub read_filters : Value → Option (Option BackendFilters)
unfolding read_list? read_u64?
read_filters undefined = some none
read_filters null = some none
read_filters (object fs) = do
  ext ← read_list? (get "ext" (object fs))
  min_size ← read_u64? (get "min_size" (object fs))
  max_size ← read_u64? (get "max_size" (object fs))
  some (some (record { ext = ext; min_size = min_size; max_size = max_size }))
read_filters _ = none

unfoldable pub read_request : Value → Option QueryRequest
unfolding read_string read_filters
read_request v = do
  query ← read_string (get "query" v)
  filters ← read_filters (get "filters" v)
  index_dir ← read_string (get "index_dir" v)
  some (record { query = query; filters = filters; index_dir = index_dir })

-- `struct IndexOptions`
unfoldable pub read_index_options : Value → Option IndexOpts
unfolding read_string read_bool
read_index_options v = do
  index_dir ← read_string (get "index_dir" v)
  parse ← read_bool (get "enable_content_parse" v)
  some (record { index_dir = index_dir; enable_content_parse = parse })

-- The request as the front end writes it.
abbrev pub front_filters : BackendFilters → SearchFilters
front_filters f = record {
  ext = f.ext;
  min_size = Option.map whole f.min_size;
  max_size = Option.map whole f.max_size;
}

abbrev pub front_request : QueryRequest → SearchRequest
front_request r = record {
  query = r.query;
  filters = Option.map front_filters r.filters;
  index_dir = r.index_dir;
}

-- The size limits are 64-bit numbers.
abbrev pub Below64 : Option ℕ → Type 0
Below64 none = Unit
Below64 (some n) = n < 2 ^ 64

abbrev pub FiltersBelow64 : Option BackendFilters → Type 0
FiltersBelow64 none = Unit
FiltersBelow64 (some f) = Below64 f.min_size × Below64 f.max_size

pub read_values-texts : (xs : List Text) → read_values (texts xs) ≡ some xs
unfolding read_values
read_values-texts [] = refl
read_values-texts (x ∷ xs) = rw (read_values-texts xs)

read_u64?-whole :
    (o : Option ℕ) → Below64 o → read_u64? (optional number (Option.map whole o)) ≡ some o
unfolding read_u64?
read_u64?-whole none h = refl
read_u64?-whole (some n) h = rw (lt→ltb n (2 ^ 64) h)

read_list?-texts :
    (o : Option (List Text)) → read_list? (optional (λ xs. array (texts xs)) o) ≡ some o
unfolding read_list?
read_list?-texts none = refl
read_list?-texts (some xs) = rw (read_values-texts xs)

read_filters-front :
    (o : Option BackendFilters)
    → FiltersBelow64 o
    → read_filters (filters_value (Option.map front_filters o)) ≡ some o
unfolding read_filters
read_filters-front none h = refl
read_filters-front (some f) h =
    rw (read_list?-texts f.ext, read_u64?-whole f.min_size h.0, read_u64?-whole f.max_size h.1)

-- A search request with whole size limits arrives at the back end as it was.
pub read_request-search_query :
    (r : QueryRequest)
    → FiltersBelow64 r.filters
    → read_request (get "req" (search_query (front_request r)).payload) ≡ some r
unfolding read_request search_query
read_request-search_query r h = rw (read_filters-front r.filters h)

-- A negative size limit is refused by the back end: the search fails whatever else it asks for.
read_request_negative :
    (query index_dir : Text) (ext : Option (List Text)) (n e : ℕ) (max_size : Option Number)
    → read_request (
        get "req"
          (search_query (record {
            query = query;
            filters =
                some
                  (record { ext = ext; min_size = some (fin (negsuc n) e); max_size = max_size });
            index_dir = index_dir;
          })).payload)
      ≡ none
unfolding read_request search_query read_u64?
read_request_negative query index_dir ext n e max_size = rw (read_list?-texts ext)

-- The index options of the commands that take them arrive as they were, under the name by
-- which each command reads them.
pub read_index_options_lem :
    (roots exclude : List Text) (files : List FileMeta) (opts : IndexOpts)
    → (read_index_options (get "indexOpts" (scan_and_index_pipeline roots exclude opts).payload)
        ≡ some opts)
      × (read_index_options (get "opts" (build_inverted_index files opts).payload) ≡ some opts)
unfolding read_index_options scan_and_index_pipeline build_inverted_index
read_index_options_lem roots exclude files opts = (refl, refl)
