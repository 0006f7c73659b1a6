-- ===== src/App/Search/Request.antt =====
-- What a search asks of the back end: from the inputs of the search page to the request that the
-- back end reads.
use mathlib.Core.Option
use search_every.Prelude.{
  ℕ, ◌*◌, List, Text, true, false, Option, none, some, ◌≡◌, refl, ap, arith, truthy, trim, ◌∙◌,
}
use search_every.Prelude.Number.{Number, whole}
use search_every.Utils.Csv.{parse_csv}
use search_every.Utils.Size.Units.{to_bytes_mb-whole}
use search_every.Services.Value.{get}
use search_every.Services.Api.{Command, search_query}
use search_every.Services.Api.Contract.{
  BackendFilters, QueryRequest, FiltersBelow64, Below64, front_filters, front_request, read_request,
  read_request-search_query,
}
use search_every.App.State.{App}
use search_every.App.Search.{size_limit, non_empty, make_filters, filters_of, request_of, do_search}

-- The input is blank, or a whole number of megabytes.
abbrev pub Reads : (Text → Number) → Text → Option ℕ → Type 0
Reads number input none = truthy (trim input) ≡ false
Reads number input (some mb) = (truthy (trim input) ≡ true) × (number input ≡ whole mb)

abbrev pub bytes : Option ℕ → Option ℕ
bytes none = none
bytes (some mb) = some (mb * (1024 * 1024))

-- The filters that the inputs stand for: none where no input is filled in.
abbrev pub wanted : Option (List Text) → Option ℕ → Option ℕ → Option BackendFilters
wanted none none none = none
wanted ext lo hi = some (record { ext = ext; min_size = lo; max_size = hi })

size_limit-Reads :
    (number : Text → Number) (input : Text) (mb : Option ℕ)
    → Reads number input mb
    → size_limit number input ≡ Option.map whole (bytes mb)
unfolding size_limit
size_limit-Reads number input none h = rw h
size_limit-Reads number input (some mb) h = rw (h.0, h.1, to_bytes_mb-whole mb)

make_filters-wanted :
    (ext : Option (List Text)) (lo hi : Option ℕ)
    → make_filters ext (Option.map whole lo) (Option.map whole hi)
      ≡ Option.map front_filters (wanted ext lo hi)
make_filters-wanted none none none = refl
make_filters-wanted none none (some n) = refl
make_filters-wanted none (some n) hi = refl
make_filters-wanted (some e) lo hi = refl

filters_of-wanted :
    (number : Text → Number) (s : App) (lo hi : Option ℕ)
    → Reads number s.min_size lo
    → Reads number s.max_size hi
    → filters_of number s
      ≡ Option.map front_filters (wanted (non_empty (parse_csv s.ext_filter)) (bytes lo) (bytes hi))
unfolding filters_of
filters_of-wanted number s lo hi h k =
    rw (size_limit-Reads number s.min_size lo h, size_limit-Reads number s.max_size hi k)
      (make_filters-wanted (non_empty (parse_csv s.ext_filter)) (bytes lo) (bytes hi))

wanted-FiltersBelow64 :
    (ext : Option (List Text)) (lo hi : Option ℕ)
    → Below64 lo
    → Below64 hi
    → FiltersBelow64 (wanted ext lo hi)
wanted-FiltersBelow64 none none none h k = tt
wanted-FiltersBelow64 none none (some n) h k = (h, k)
wanted-FiltersBelow64 none (some n) hi h k = (h, k)
wanted-FiltersBelow64 (some e) lo hi h k = (h, k)

-- The request that the inputs of the search page stand for.
abbrev pub wanted_request : App → Option ℕ → Option ℕ → QueryRequest
wanted_request s lo hi = record {
  query = s.query;
  filters = wanted (non_empty (parse_csv s.ext_filter)) (bytes lo) (bytes hi);
  index_dir = s.index_dir;
}

do_search_sends :
    (number : Text → Number) (s : App)
    → s.in_tauri ≡ true
    → (do_search number s).1 ≡ some (search_query (request_of number s))
unfolding do_search
do_search_sends number s t = ground arith

-- In Tauri a search sends one command. If each size input is blank or a whole number of megabytes
-- that fits 64 bits as bytes, the back end reads from it the query and the index directory as they
-- stand, the extensions of the list, if there is any, and the sizes in bytes; and no filters at all
-- where nothing is filled in.
pub do_search_arrives :
    (number : Text → Number) (s : App) (lo hi : Option ℕ)
    → s.in_tauri ≡ true
    → Reads number s.min_size lo
    → Reads number s.max_size hi
    → Below64 (bytes lo)
    → Below64 (bytes hi)
    → (c : Command) × ((do_search number s).1 ≡ some c)
      × (read_request (get "req" c.payload) ≡ some (wanted_request s lo hi))
unfolding request_of
do_search_arrives number s lo hi t h k below below' = (
  search_query (front_request (wanted_request s lo hi)),
  do_search_sends number s t
      ∙ ap
          (λ f.
            some (search_query (record { query = s.query; filters = f; index_dir = s.index_dir })))
          (filters_of-wanted number s lo hi h k),
  read_request-search_query (wanted_request s lo hi) (
      wanted-FiltersBelow64 (non_empty (parse_csv s.ext_filter)) (bytes lo) (bytes hi) below
        below'),
)
