-- ===== src/Tests/App.antt =====
-- Runs of the handlers of the application, and its theorems at such runs.
use mathlib.Core.List.{Perm}
use search_every.Prelude.{
  ℕ, ◌<◌, List, [], ◌∷◌, Text, true, Option, none, some, codes, ◌≡◌, refl, arith, filter, length,
  trim, trim_start, trim_end, is_space, text_eq,
}
use search_every.Prelude.Int.{pos}
use search_every.Prelude.Number.{Number, whole}
use search_every.Types.{SearchResult, DupGroup, DupKind}
use search_every.Utils.Csv.RoundTrip.{IsItem}
use search_every.Services.Value.{get}
use search_every.Services.Api.{Command}
use search_every.Services.Api.Contract.{read_request}
use search_every.App.State.{App, initial, gives, size, asc}
use search_every.App.Search.{do_search}
use search_every.App.Search.Request.{wanted_request, bytes, do_search_arrives}
use search_every.App.Results.{sort, insert, sorted_results}
use search_every.App.Results.Order.{InOrder, same_key, sorted_results_lem}
use search_every.App.Dup.{without_file, remove_file, on_deleted}

abbrev fresh : App
fresh = initial true (pos 60)

-- An engine that reads one number.
abbrev reads_seven : Text → Number
reads_seven t = whole 7

-- The lower limit is filled in, the upper one is not.
abbrev seven_up : App
seven_up = record fresh { query = codes "tax"; min_size = codes "7"; ext_filter = codes "pdf, txt" }

do_search_arrives_example :
    (c : Command) × ((do_search reads_seven seven_up).1 ≡ some c)
    × (read_request (get "req" c.payload) ≡ some (wanted_request seven_up (some 7) none))
unfolding initial trim trim_start trim_end is_space
do_search_arrives_example =
    do_search_arrives reads_seven seven_up (some 7) none refl (refl, refl) refl (omega arith) tt

abbrev found : Text → Option ℕ → SearchResult
found name bytes = record {
  path = name;
  name = name;
  ext = [];
  score = pos 1;
  size = bytes;
  modified_ts = none;
  summary = none;
}

abbrev by_size : App
by_size = record fresh {
  results = found (codes "b") (some 9) ∷ found (codes "a") none ∷ found (codes "c") (some 0) ∷ [];
  sort_by = size;
  sort_dir = asc;
}

smallest_first :
    sorted_results by_size
    ≡ found (codes "a") none ∷ found (codes "c") (some 0) ∷ found (codes "b") (some 9) ∷ []
unfolding sorted_results sort insert
smallest_first = refl

sorted_results_lem_example :
    Perm (sorted_results by_size) by_size.results
    × InOrder by_size.sort_by by_size.sort_dir (sorted_results by_size)
    × ((a : SearchResult)
        → filter (same_key by_size.sort_by a) (sorted_results by_size)
          ≡ filter (same_key by_size.sort_by a) by_size.results)
sorted_results_lem_example = sorted_results_lem by_size

d_IsItem : IsItem (codes "D:/")
unfolding trim trim_start trim_end is_space
d_IsItem = record { nonempty = λ e. cc; trimmed = refl; no_comma = omega arith }

e_IsItem : IsItem (codes "E:/data")
unfolding trim trim_start trim_end is_space
e_IsItem = record { nonempty = λ e. cc; trimmed = refl; no_comma = omega arith }

windows-IsItem : IsItem (codes "\\Windows")
unfolding trim trim_start trim_end is_space
windows-IsItem = record { nonempty = λ e. cc; trimmed = refl; no_comma = omega arith }

fresh_in_tauri : fresh.in_tauri ≡ true
unfolding initial
fresh_in_tauri = refl

abbrev group : List Text → DupGroup
group files = record { kind = DupKind.hash; key = codes "k"; files = files }

abbrev two_groups : App
two_groups = record fresh {
  dup_groups =
      group (codes "x" ∷ codes "y" ∷ codes "z" ∷ []) ∷ group (codes "x" ∷ codes "w" ∷ []) ∷ [];
}

one_group_left :
    (on_deleted (codes "x") (gives tt) two_groups).dup_groups
    ≡ group (codes "y" ∷ codes "z" ∷ []) ∷ []
unfolding on_deleted remove_file text_eq
one_group_left = refl

abbrev three_files : DupGroup
three_files = group (codes "x" ∷ codes "y" ∷ codes "z" ∷ [])

two_others : 1 < length (without_file (codes "x") three_files).files
unfolding text_eq
two_others = omega arith
