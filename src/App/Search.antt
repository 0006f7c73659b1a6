-- ===== src/App/Search.antt =====
-- `doSearch`, `clearQuery`, `resetFilters` and the search-as-you-type effect of src/App.tsx.
-- `Number(text)` is a parameter.
pub mod Request
use search_every.Prelude.{
  ℕ, List, [], ◌∷◌, ◌++◌, Text, Bool, true, false, ◌||◌, ◌&&◌, not, Option, none, some, codes,
  if◌then◌else◌, length, head?, truthy, trim,
}
use search_every.Prelude.Decimal.{show}
use search_every.Prelude.Number.{Number, is_nan}
use search_every.Types.{SearchResult, SearchFilters, SearchRequest, PageKey}
use search_every.Utils.Csv.{parse_csv}
use search_every.Utils.Size.{to_bytes_mb}
use search_every.Services.Api.{Command, search_query}
use search_every.App.State.{App, Answer, gives, throws, error_text, table, score, desc}

-- `minSize.trim() ? Number(minSize) : undefined`, and then the bytes if it is a number
unfoldable pub size_limit : (Text → Number) → Text → Option Number
size_limit number input =
    if truthy (trim input)
    then (if is_nan (number input) then none else some (to_bytes_mb (number input)))
    else none

abbrev given {ℓ} : {A : Type ℓ} → Option A → Bool
given none = false
given (some a) = true

-- `extArr.length ? extArr : undefined`
abbrev pub non_empty : List Text → Option (List Text)
non_empty [] = none
non_empty (x ∷ xs) = some (x ∷ xs)

-- No filters at all where none is given.
abbrev pub make_filters : Option (List Text) → Option Number → Option Number → Option SearchFilters
make_filters ext min_bytes max_bytes =
    if given ext || given min_bytes || given max_bytes
    then some (record { ext = ext; min_size = min_bytes; max_size = max_bytes })
    else none

unfoldable pub filters_of : (Text → Number) → App → Option SearchFilters
filters_of number s =
    make_filters (non_empty (parse_csv s.ext_filter)) (size_limit number s.min_size)
      (size_limit number s.max_size)

unfoldable pub request_of : (Text → Number) → App → SearchRequest
request_of number s = record {
  query = s.query;
  filters = filters_of number s;
  index_dir = s.index_dir;
}

-- `doSearch` up to its `await`.
unfoldable pub do_search : (Text → Number) → App → App × Option Command
do_search number s =
    if s.in_tauri
    then (record s { busy = true; msg = codes "检索中..." }, some (search_query (request_of number s)))
    else (s, none)

-- The rest, over the state that it finds then.
unfoldable pub on_search : Answer (List SearchResult) → App → App
on_search (gives res) s = record s {
  results = res;
  msg = codes "返回 " ++ (show (length res) ++ codes " 条结果");
  page = PageKey.search;
  selected = head? res;
  busy = false;
}
on_search (throws e) s = record s { msg = error_text e (codes "检索失败"); busy = false }

unfoldable pub clear_query : App → App
clear_query s = record s { query = []; results = []; selected = none; msg = codes "查询已清空" }

unfoldable pub reset_filters : App → App
reset_filters s = record s {
  ext_filter = [];
  min_size = [];
  max_size = [];
  sort_by = score;
  sort_dir = desc;
  view_mode = table;
  msg = codes "筛选与视图已重置为默认";
}

abbrev is_search_page : PageKey → Bool
is_search_page PageKey.search = true
is_search_page _ = false

-- The effect sets its timer for the search page only, and the timer searches for a query that is not
-- blank.
unfoldable pub sets_timer : App → Bool
sets_timer s = s.in_tauri && is_search_page s.page

unfoldable pub on_timer : (Text → Number) → App → App × Option Command
on_timer number s = if truthy (trim s.query) then do_search number s else (s, none)
