-- ===== src/Tests/Pages.antt =====
-- Runs of the pages for the index, the diagnostics and the duplicates, and of the list of file types.
use search_every.Prelude.{
  [], ◌∷◌, true, false, none, some, codes, map, length, ◌≡◌, refl, split, trim, trim_end,
  trim_start, is_space,
}
use search_every.Prelude.Int.{pos}
use search_every.Prelude.Number.{fin, whole, round, to_fixed}
use search_every.Prelude.Decimal.{show}
use search_every.Types.{DiagnosticsReport}
use search_every.Utils.Csv.{parse_csv}
use search_every.App.State.{App, initial}
use search_every.App.Controls.{ext_options}
use search_every.App.View.Pages.{progress, scanned_count, sidebar, diagnostics_view, width_of}

abbrev start : App
start = initial true (pos 12)

-- 2 of 3 files
progress_building :
    progress (λ current total. fin (pos 4266) 6) (record start { idx_current = 2; idx_total = 3 })
    ≡ some
        (record { current = 2; total = 3; width = whole 67; pending = 1; cancel_disabled = true })
unfolding progress round initial
progress_building = refl

progress_late : width_of (whole 150) ≡ whole 100
unfolding round
progress_late = refl

progress_idle : progress (λ current total. whole 0) start ≡ none
unfolding progress initial
progress_idle = refl

scanned_count_last : scanned_count (record start { last_scan_total = 9 }) ≡ 9
unfolding scanned_count initial
scanned_count_last = refl

abbrev report : DiagnosticsReport
report = record {
  index_dir = codes "D:\\x";
  index_open_ok = true;
  index_doc_count = none;
  schema_fields = some (codes "path" ∷ codes "name" ∷ []);
  config_scan_roots_count = 3;
  config_auto_scan_enabled = false;
  pipeline_started = false;
  pipeline_completed = true;
  pipeline_last_day = some (codes "2024-01-02");
  sys_cpu_avg = some (fin (pos 25) 1);
  sys_total_mem_kib = some 1536;
  sys_free_mem_kib = none;
  warnings = [];
}

diagnostics_view_index : (diagnostics_view report).index ≡ codes "索引可打开：是 · 文档数：- · 字段：2"
unfolding diagnostics_view show
diagnostics_view_index = refl

diagnostics_view_system :
    (diagnostics_view report).system ≡ codes "系统：CPU 平均 12.5% · 内存 总 2 MiB / 可用 -"
unfolding diagnostics_view show to_fixed
diagnostics_view_system = refl

sidebar_active : map (λ i. i.active) (sidebar start) ≡ true ∷ false ∷ false ∷ false ∷ false ∷ []
unfolding sidebar initial
sidebar_active = refl

-- How many extensions a choice of the list of file types gives to the request.
ext_options_parsed :
    map (λ o. length (parse_csv o)) ext_options
    ≡ 0 ∷ 1 ∷ 1 ∷ 2 ∷ 2 ∷ 2 ∷ 1 ∷ 3 ∷ 2 ∷ 2 ∷ 3 ∷ 2 ∷ 3 ∷ 1 ∷ 2 ∷ 1 ∷ 2 ∷ 1 ∷ 1 ∷ 3 ∷ 1 ∷ []
unfolding parse_csv split trim trim_end trim_start is_space
ext_options_parsed = refl
