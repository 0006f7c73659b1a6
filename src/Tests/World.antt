-- ===== src/Tests/World.antt =====
-- Runs of several handlers, and the theorems about them at such runs.
use search_every.Prelude.{◌+◌, ◌≤◌, List, [], ◌∷◌, Text, true, false, any, none, codes, ◌≡◌, refl}
use search_every.Prelude.Int.{pos}
use search_every.Prelude.Number.{Number, whole}
use search_every.Types.{SearchResult, SearchRequest}
use search_every.App.State.{App, gives, throws, initial}
use search_every.Utils.Csv.{parse_csv}
use search_every.App.Search.{non_empty, request_of, do_search}
use search_every.App.World.{
  loading, saving, resetting, indexing, piping, scanning, detect_scanning, detecting, diagnosing,
  picking_roots, picking_index_dir, listening, detect_listening, deleting, Pending, searching,
  Result, resume, search, scan, begin, controls, mounts, apply_local, changes, World, add,
  put_between, starts, answers, Steps, done, more,
}
use search_every.App.World.Busy.{opened, holds, busy_falls}
use search_every.App.Scan.{scan_opts, do_scan, on_scan_listening}
use search_every.App.World.Listeners.{listeners, failed_scans, scans, listeners_left}
use search_every.App.World.Preview.{IsPreview, preview_lem}
use search_every.App.Controls.{set_query, Button, disabled}
use search_every.App.World.Rounds.{total, none_left, answer_all, idle_at_last}
use search_every.App.World.Filters.{by_extension, request_of-by_extension}
use search_every.App.World.Stale.{two_searches, answered, stale_results}

abbrev seven : Text → Number
seven t = whole 7

abbrev page : App
page = initial true (pos 60)

abbrev asked : SearchRequest
asked = request_of seven page

abbrev waiting : World
waiting = add [] (begin seven search page)

waiting-Steps : Steps seven (opened true (pos 60)) waiting
waiting-Steps = more (starts search (opened true (pos 60))) (done waiting)

abbrev failed_search : World
failed_search = put_between [] [] (resume (searching asked) (throws none) waiting.app)

failed_search-Steps : Steps seven (opened true (pos 60)) failed_search
unfolding begin do_search initial
failed_search-Steps =
    more (starts search (opened true (pos 60)))
      (more (answers [] (searching asked) [] (throws none) waiting.app) (done failed_search))

nothing_held : any holds failed_search.pending ≡ false
unfolding resume
nothing_held = refl

busy_falls_example : failed_search.app.busy ≡ false
busy_falls_example = busy_falls seven true (pos 60) failed_search failed_search-Steps nothing_held

-- Every answer is a failure without a text.
abbrev fails_all : (p : Pending) → App → Result p
fails_all (searching r) s = throws none
fails_all loading s = throws none
fails_all saving s = throws none
fails_all resetting s = throws none
fails_all indexing s = throws none
fails_all piping s = throws none
fails_all scanning s = throws none
fails_all detect_scanning s = throws none
fails_all detecting s = throws none
fails_all diagnosing s = throws none
fails_all picking_roots s = throws none
fails_all picking_index_dir s = throws none
fails_all (listening o) s = throws none
fails_all (detect_listening o) s = throws none
fails_all (deleting q) s = throws none

-- The search is answered, and nothing is left to wait for.
idle_at_last_example :
    let v = answer_all fails_all (total waiting.pending) waiting in
    (0 + total waiting.pending ≤ total waiting.pending) × (v.pending ≡ []) × (v.app.busy ≡ false)
idle_at_last_example =
    idle_at_last seven true (pos 60) waiting 0 waiting fails_all waiting-Steps (none_left waiting)

abbrev one_result : SearchRequest → List SearchResult
one_result r =
    record {
      path = r.query;
      name = r.query;
      ext = [];
      score = pos 1;
      size = none;
      modified_ts = none;
      summary = none;
    }
    ∷ []

page_in_tauri : page.in_tauri ≡ true
unfolding initial
page_in_tauri = refl

stale_results_example :
    let v = two_searches seven (codes "tax") page in
    let r = request_of seven page in
    let r' = request_of seven (record page { query = codes "tax" }) in
    Steps seven (record { app = page; pending = [] }) v
    × (v.pending ≡ searching r ∷ searching r' ∷ [])
    × ((answered one_result r' (answered one_result r v.app)).results ≡ one_result r')
    × ((answered one_result r (answered one_result r' v.app)).results ≡ one_result r)
    × ((answered one_result r (answered one_result r' v.app)).query ≡ codes "tax")
    × ((answered one_result r' v.app).busy ≡ false)
stale_results_example = stale_results seven (codes "tax") page one_result page_in_tauri

request_of-by_extension_example :
    (request_of seven failed_search.app).filters
    ≡ by_extension (non_empty (parse_csv failed_search.app.ext_filter))
request_of-by_extension_example =
    request_of-by_extension seven true (pos 60) failed_search failed_search-Steps

-- In a browser the page is opened, a query is typed, and a search is asked for.
abbrev preview : World
preview =
    let w = opened false (pos 60) in
    let m = record w { app = apply_local mounts w.app } in
    let t = record m { app = apply_local (controls (set_query (codes "tax"))) m.app } in
    add t.pending (begin seven search t.app)

preview-Steps : Steps seven (opened false (pos 60)) preview
preview-Steps =
    let w = opened false (pos 60) in
    let m = record w { app = apply_local mounts w.app } in
    let t = record m { app = apply_local (controls (set_query (codes "tax"))) m.app } in
    more (changes mounts w) (
      more (changes (controls (set_query (codes "tax"))) m) (more (starts search t) (done preview)))

preview_lem_example : IsPreview preview × ((b : Button) → disabled b preview.app ≡ true)
preview_lem_example = preview_lem seven (pos 60) preview preview-Steps

-- A scan whose listener is registered, and which fails.
abbrev listens : World
listens = add [] (begin seven scan page)

abbrev scans_files : World
scans_files = put_between [] [] (resume (listening (scan_opts page)) (gives tt) listens.app)

abbrev failed_scan : World
failed_scan = put_between [] [] (resume scanning (throws none) scans_files.app)

failed_scan-Steps : Steps seven (opened true (pos 60)) failed_scan
unfolding begin do_scan initial resume on_scan_listening
failed_scan-Steps = more (starts scan (opened true (pos 60))) (
    more (answers [] (listening (scan_opts page)) [] (gives tt) listens.app)
      (more (answers [] scanning [] (throws none) scans_files.app) (done failed_scan)))

listeners_left_example :
    listeners failed_scan-Steps 0 ≡ failed_scans failed_scan-Steps + scans failed_scan.pending
listeners_left_example = listeners_left seven true (pos 60) failed_scan failed_scan-Steps
