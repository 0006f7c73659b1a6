-- ===== src/Tests/Daily.antt =====
-- Runs of the daily loop, of a scan that indexes and of a query, and their theorems at such runs.
use mathlib.Core.List.{Memᴰ}
use search_every.Prelude.{
  ℕ, ◌≤◌, List, [], ◌∷◌, Text, true, false, none, some, codes, length, take, ◌≡◌, ◌↔◌, refl,
  text_eq, if◌then◌else◌,
}
use search_every.Prelude.Int.{pos}
use search_every.Types.{FileMeta, SearchResult}
use search_every.Services.Api.Contract.{QueryRequest}
use search_every.App.State.{initial}
use search_every.App.Scan.{on_index_progress, on_index_done, on_scan_done}
use search_every.App.Events.{react}
use search_every.Backend.Pipeline.{
  no_state, Tick, Daily, round, run_daily, need_run, step, begin, Move, scan, announce, finish,
  report, run_pipe,
}
use search_every.Backend.Pipeline.Late.{
  react_all, after_walk, after_end, reports_in, any_report, run_pipe-late,
}
use search_every.Backend.Query.{top_docs, eq_ignore_ascii_case, passes, query}
use search_every.Backend.Query.Wanted.{IsWanted, query_exact}

abbrev monday : Text
monday = codes "2024-01-01"

abbrev idle_round : Tick
idle_round = record { enabled = some true; has_state = true; today = monday; idle = true }

abbrev never : Daily
never = record { state = no_state; started = 0 }

-- A round in the beginning starts a scan.
first_round : (run_daily (round idle_round ∷ []) never).started ≡ 1
unfolding run_daily need_run
first_round = refl

abbrev one_file : List FileMeta
one_file =
    (record {
      path = codes "D:/a.txt";
      file_name = codes "a.txt";
      ext = codes "txt";
      size = 7;
      modified_ts = pos 940;
    })
    ∷ []

-- The only thread reports after the end of the main loop.
abbrev late_moves : List Move
late_moves = scan ∷ announce ∷ finish ∷ report 0 ∷ []

late_moves-any_report : any_report after_end late_moves (begin one_file) ≡ true
unfolding any_report reports_in step
late_moves-any_report = refl

-- The thread reports between the two events of the main loop: the total is lost, but not the end.
total_lost :
    let t =
      react_all
        (run_pipe (scan ∷ announce ∷ report 0 ∷ finish ∷ []) (begin one_file)).1
        (initial true (pos 60)) in
    (t.idx_running ≡ false) × (t.idx_total ≡ 0)
unfolding run_pipe step react initial on_index_progress on_index_done on_scan_done
total_lost = (refl, refl)

run_pipe-late_example :
    let t = react_all (run_pipe late_moves (begin one_file)).1 (initial true (pos 60)) in
    (t.idx_running ≡ any_report after_end late_moves (begin one_file))
    × (t.idx_total
        ≡ (if any_report after_walk late_moves (begin one_file) then 0 else length one_file))
unfolding run_pipe step
run_pipe-late_example = run_pipe-late one_file late_moves (initial true (pos 60)) refl

abbrev doc : Text → Text → ℕ → SearchResult
doc name ext size = record {
  path = name;
  name = name;
  ext = ext;
  score = pos 1;
  size = some size;
  modified_ts = none;
  summary = none;
}

abbrev docs : List SearchResult
docs =
    doc (codes "a") (codes "txt") 7
    ∷ doc (codes "b") (codes "pdf") 7
    ∷ doc (codes "c") (codes "TXT") 3
    ∷ []

abbrev texts_of_four : QueryRequest
texts_of_four = record {
  query = codes "tax";
  filters = some (record { ext = some (codes "txt" ∷ []); min_size = some 4; max_size = none });
  index_dir = codes "index";
}

query_run : query (λ dir q. some docs) texts_of_four ≡ some (doc (codes "a") (codes "txt") 7 ∷ [])
unfolding query passes eq_ignore_ascii_case text_eq
query_run = refl

query_exact_example :
    (results : List SearchResult) × (query (λ dir q. some docs) texts_of_four ≡ some results)
    × (length results ≤ top_docs)
    × ((r : SearchResult)
        → Memᴰ r results ↔ (Memᴰ r (take top_docs docs) × IsWanted texts_of_four.filters r))
query_exact_example = query_exact (λ dir q. some docs) texts_of_four docs refl
