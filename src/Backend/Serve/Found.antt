-- ===== src/Backend/Serve/Found.antt =====
-- `runDetect` of src/App.tsx from the click to its end, with the back end.
use mathlib.Core.List.{Memᴰ}
use search_every.Prelude.{
  ℕ, All, ◌+◌, ◌<◌, List, [], Text, true, false, some, codes, map, ◌≡◌, ◌↔◌, refl, ap,
}
use search_every.Constants.{invoke_timeouts}
use search_every.Types.{FileMeta, DupGroup}
use search_every.Services.Value.{get}
use search_every.Services.Invoke.{resolves, fulfilled}
use search_every.Services.Api.{ScanOpts, scan_paths_progress, detect_duplicates}
use search_every.Services.Api.Contract.{read_list, read_values-texts}
use search_every.App.State.{App, gives}
use search_every.App.Scan.{scan_opts}
use search_every.App.Dup.{run_detect, on_detect_listening, on_detect_scanned, on_detected}
use search_every.App.Call.{After, call, run_duplicates}
use search_every.App.Call.Answered.{call_answered}
use search_every.Backend.Scanner
use search_every.Backend.Scanner.{options_of, read_scan_options, scan}
use search_every.Backend.Scanner.Found.{scan_paths_progress-scan}
use search_every.Backend.Scanner.Page.{page_opts}
use search_every.Backend.Dedup.{Table, Disk, detect}
use search_every.Backend.Dedup.Detect.{IsGroup, CanRead, detect_exact}
use search_every.Backend.Serve.{serve_scan, serve_detect}

-- The options arrive as they were, if the limit fits.
read_scan_options-scan_paths_progress :
    (opts : ScanOpts)
    → opts.max_file_size_mb ≡ 500
    → read_scan_options (get "opts" (scan_paths_progress opts).payload) ≡ some (options_of opts)
unfolding read_scan_options scan_paths_progress
read_scan_options-scan_paths_progress opts h =
    rw (read_values-texts opts.roots, read_values-texts opts.exclude_patterns, h) refl

read_list-detect_duplicates :
    (paths : List Text) → read_list (get "paths" (detect_duplicates paths).payload) ≡ some paths
unfolding read_list detect_duplicates
read_list-detect_duplicates paths = read_values-texts paths

-- The commands of the detection, where nothing was scanned before, and what they are answered.
module _ (host : Scanner.Host) (disk : Disk) (default_retries t u : ℕ) (unreadable failure : Text)
    (s : App) where
  abbrev files : List FileMeta
  files = scan host (page_opts s)

  abbrev paths : List Text
  paths = map (λ f. f.path) files

  scan_call :
      t < invoke_timeouts.scan_paths
      → call default_retries (serve_scan t unreadable host) (scan_paths_progress (scan_opts s))
        ≡ some (record { settled = fulfilled files; calls = 1; elapsed = t })
  unfolding scan_paths_progress serve_scan scan_opts
  scan_call h =
      call_answered default_retries (serve_scan t unreadable host)
        (scan_paths_progress (scan_opts s)) t files
        (rw (read_scan_options-scan_paths_progress (scan_opts s) refl)
          (ap (λ r. resolves t r.0) (scan_paths_progress-scan host (page_opts s))))
        h

  detect_call :
      (groups : List DupGroup)
      → u < invoke_timeouts.search_query
      → detect disk paths ≡ some groups
      → call default_retries (serve_detect u unreadable disk failure) (detect_duplicates paths)
        ≡ some (record { settled = fulfilled groups; calls = 1; elapsed = u })
  unfolding detect_duplicates serve_detect
  detect_call groups h d =
      call_answered default_retries (serve_detect u unreadable disk failure)
        (detect_duplicates paths) u groups (rw (read_list-detect_duplicates paths, d) refl) h

-- In Tauri, where nothing was scanned before, and the progress can be subscribed to: if the back end
-- answers both commands within their time limits, and each found path can be read or is no file, then
-- the detection comes to an end after both delays; the page then has the files of the scan that its
-- settings ask for, and the groups that it has are exactly those that are due of these files, by name
-- or by content, whatever the order of a table's entries.
pub run_duplicates_found :
    (host : Scanner.Host) (disk : Disk) (default_retries t u : ℕ) (unreadable failure : Text)
    (s : App)
    → ((m : Table) (e : Text × List Text) → Memᴰ e (disk.order m) ↔ Memᴰ e m)
    → s.in_tauri ≡ true
    → s.scanned ≡ []
    → t < invoke_timeouts.scan_paths
    → u < invoke_timeouts.search_query
    → All (CanRead disk) (map (λ f. f.path) (scan host (page_opts s)))
    → (a : After) × (run_duplicates default_retries
          (gives tt)
          (serve_scan t unreadable host)
          (serve_detect u unreadable disk failure)
          s
        ≡ some a)
      × (a.app.busy ≡ false)
      × (a.elapsed ≡ t + u)
      × (a.app.scanned ≡ scan host (page_opts s))
      × ((g : DupGroup)
          → Memᴰ g a.app.dup_groups ↔ IsGroup disk (map (λ f. f.path) a.app.scanned) g)
unfolding run_duplicates run_detect on_detect_listening on_detect_scanned on_detected scan_opts
    scan_paths_progress
run_duplicates_found host disk default_retries t u unreadable failure s iterates inside empty t_soon
      u_soon readable =
    let found = scan host (page_opts s) in
    let (groups, d, exact) = detect_exact disk (map (λ f. f.path) found) iterates readable in
    let waiting = record s { busy = true; msg = codes "正在分析重复..."; scanned = found } in
    (
      record { app = on_detected (gives groups) waiting; elapsed = t + u },
      rw
          (
            inside,
            empty,
            scan_call host disk default_retries t u unreadable failure s t_soon,
            detect_call host disk default_retries t u unreadable failure s groups u_soon d,
          )
          refl,
      refl,
      refl,
      refl,
      exact,
    )
