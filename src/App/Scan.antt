-- ===== src/App/Scan.antt =====
-- Scanning and indexing in src/App.tsx: `doScan`, `doIndex`, `doScanAndIndex`, the diagnostics, and
-- the handlers of the events that the back end sends meanwhile.
pub mod Folder
use search_every.Prelude.{
  ℕ, suc, ◌-◌, List, [], ◌∷◌, ◌++◌, Text, Bool, true, false, Option, none, some, codes,
  if◌then◌else◌, length, take, ltb, max,
}
use search_every.Prelude.Decimal.{show}
use search_every.Types.{FileMeta, IndexProgressPayload, DiagnosticsReport}
use search_every.Utils.Csv.{parse_csv}
use search_every.Utils.Path.{is_separator}
use search_every.Utils.Size.{or_default}
use search_every.Services.Api.{
  Command, ScanOpts, IndexOpts, scan_paths_progress, build_inverted_index, scan_and_index_pipeline,
  diagnostics_report,
}
use search_every.App.State.{App, Answer, gives, throws, error_text}

-- What every `catch` of these handlers shows, with the `finally` that follows.
abbrev pub failed : Option Text → Text → App → App
failed e fallback s = record s { msg = error_text e fallback; busy = false }

unfoldable pub scan_opts : App → ScanOpts
scan_opts s = record {
  roots = parse_csv s.roots;
  exclude_patterns = parse_csv s.exclude;
  max_file_size_mb = 500;
  follow_symlinks = false;
}

-- One more than the position of the last separator, and 0 where there is none.
unfoldable pub after_last_separator : Text → ℕ
after_last_separator [] = 0
after_last_separator (c ∷ s) =
    let rest = after_last_separator s in
    if ltb 0 rest then suc rest else if is_separator c then 1 else 0

-- `idx > 0 ? p.slice(0, idx) : p`
unfoldable pub folder : Text → Text
folder p = if ltb 1 (after_last_separator p) then take (after_last_separator p - 1) p else p

-- The payload of `scan_progress`.
pub record ScanProgress : Type 0 where
  pub current : Option ℕ
  pub path : Option Text

abbrev shown_folder : Option Text → Text → Text
shown_folder none old = old
shown_folder (some []) old = old
shown_folder (some (c ∷ p)) old = folder (c ∷ p)

unfoldable pub on_scan_progress : ScanProgress → App → App
on_scan_progress e s = record s {
  scan_count = or_default e.current s.scan_count;
  scan_dir = shown_folder e.path s.scan_dir;
}

-- `doScan` up to the subscription; the options are read here.
unfoldable pub do_scan : App → App × Option ScanOpts
do_scan s =
    if s.in_tauri
    then (
      record s { busy = true; msg = codes "扫描中..."; scan_count = 0; scan_dir = [] },
      some (scan_opts s),
    )
    else (s, none)

-- The subscription to the progress is there, or failed.
unfoldable pub on_scan_listening : ScanOpts → Answer (Unit {0}) → App → App × Option Command
on_scan_listening opts (gives u) s = (s, some (scan_paths_progress opts))
on_scan_listening opts (throws e) s = (failed e (codes "扫描失败") s, none)

unfoldable pub on_scanned : Answer (List FileMeta) → App → App
on_scanned (gives res) s = record s {
  scanned = res;
  last_scan_total = length res;
  msg = codes "扫描完成：" ++ (show (length res) ++ codes " 个文件");
  busy = false;
}
on_scanned (throws e) s = failed e (codes "扫描失败") s

unfoldable pub index_opts : App → IndexOpts
index_opts s = record { index_dir = s.index_dir; enable_content_parse = s.enable_content_parse }

unfoldable pub do_index : App → App × Option Command
do_index s =
    if s.in_tauri
    then (
      record s { busy = true; msg = codes "索引构建中..." },
      some (build_inverted_index s.scanned (index_opts s)),
    )
    else (s, none)

unfoldable pub on_index : Answer (Unit {0}) → App → App
on_index (gives u) s = record s { msg = codes "索引构建完成"; busy = false }
on_index (throws e) s = failed e (codes "索引失败") s

unfoldable pub do_scan_and_index : App → App × Option Command
do_scan_and_index s =
    if s.in_tauri
    then (
      record s {
        busy = true;
        idx_current = 0;
        idx_total = 0;
        idx_running = true;
        msg = codes "扫描并构建索引中...";
      },
      some (scan_and_index_pipeline (parse_csv s.roots) (parse_csv s.exclude) (index_opts s)),
    )
    else (s, none)

unfoldable pub on_scan_and_index : Answer (Unit {0}) → App → App
on_scan_and_index (gives u) s = record s { busy = false }
on_scan_and_index (throws e) s = record (failed e (codes "扫描索引失败") s) { idx_running = false }

unfoldable pub on_index_progress : IndexProgressPayload → App → App
on_index_progress e s = record s {
  idx_current = or_default e.current 0;
  idx_total = or_default e.total 0;
  idx_running = true;
  msg =
      codes "索引中："
      ++ (show (or_default e.current 0)
          ++ (codes "/" ++ (show (or_default e.total 0) ++ (codes " - " ++ or_default e.name []))));
}

unfoldable pub on_index_done : App → App
on_index_done s = record s { idx_running = false; msg = codes "索引构建完成" }

-- The payload's total, where it has one.
unfoldable pub on_scan_done : Option ℕ → App → App
on_scan_done none s = s
on_scan_done (some n) s = record s { idx_total = n; last_scan_total = n }

-- The payload's reason, where it has one.
unfoldable pub on_auto_scan_start : Option Text → App → App
on_auto_scan_start reason s = record s {
  msg = codes "已触发自动扫描（原因：" ++ (or_default reason (codes "未知") ++ codes "）");
}

unfoldable pub run_diagnostics : App → App × Option Command
run_diagnostics s =
    if s.in_tauri then (record s { msg = codes "运行诊断中..." }, some diagnostics_report) else (s, none)

abbrev is_given {ℓ} : {A : Type ℓ} → Option A → Bool
is_given none = false
is_given (some a) = true

-- The effect of the index page: it asks only where there is no report yet.
unfoldable pub on_index_page : App → App × Option Command
unfolding run_diagnostics
on_index_page s = if is_given s.diag then (s, none) else run_diagnostics s

unfoldable pub on_diagnostics : Answer DiagnosticsReport → App → App
on_diagnostics (gives r) s = record s { diag = some r; msg = codes "诊断完成" }
on_diagnostics (throws e) s = record s { msg = error_text e (codes "诊断失败") }
