-- ===== src/App/World/Filters.antt =====
-- The size filters of the searches that the page can send.
use search_every.Prelude.{
  List, [], Text, Bool, true, false, Option, none, some, ◌≡◌, refl, arith, trim, trim_start,
  trim_end,
}
use search_every.Prelude.Int.{ℤ}
use search_every.Prelude.Number.{Number}
use search_every.Types.{SearchFilters}
use search_every.Utils.Csv.{parse_csv}
use search_every.App.State.{App, gives, throws, initial, on_mount}
use search_every.App.Search.{
  request_of, filters_of, make_filters, non_empty, size_limit, do_search, on_search, clear_query,
  reset_filters,
}
use search_every.App.Controls.{
  Control, copied, select, set_auto_scan, set_content_parse, set_dup_hash, set_dup_name,
  set_exclude, set_ext_filter, set_index_dir, set_lang, set_page, set_path_max_len, set_query,
  set_roots, set_sort, set_theme, set_view, toggle_dir, toggle_time, on_control,
}
use search_every.App.Settings.{
  many, one, cancelled, apply_config, on_config_loaded, do_save_config, on_save_config,
  do_reset_config, on_reset_config, on_pick_roots, on_pick_index_dir,
}
use search_every.App.Scan.{
  on_scan_progress, do_scan, on_scan_listening, on_scanned, do_index, on_index, do_scan_and_index,
  on_scan_and_index, on_index_progress, on_index_done, on_scan_done, on_auto_scan_start,
  run_diagnostics, on_index_page, on_diagnostics,
}
use search_every.App.Dup.{
  run_detect, on_detect_listening, on_detect_scanned, on_detected, handle_delete, on_deleted,
}
use search_every.App.World.{
  Pending, searching, loading, saving, resetting, indexing, piping, scanning, detect_scanning,
  detecting, diagnosing, picking_roots, picking_index_dir, listening, detect_listening, deleting,
  Result, resume, Handler, load_config, search, save_config, reset_config, scan, index,
  scan_and_index, detect, diagnose, open_index_page, pick_roots, pick_index_dir, delete, begin,
  Local, controls, mounts, clears, resets, index_done, index_progress, scan_progress, scan_done,
  auto_scan_start, apply_local, World, Step, starts, changes, answers, Steps, done, more,
}
use search_every.App.World.Busy.{opened}

-- No size limit is filled in.
abbrev pub IsOpen : App → Type 0
IsOpen s = (s.min_size ≡ []) × (s.max_size ≡ [])

resume-IsOpen : (p : Pending) (r : Result p) (s : App) → IsOpen s → IsOpen (resume p r s).0
unfolding resume on_search on_config_loaded apply_config on_save_config on_reset_config on_index
    on_scan_and_index on_scanned on_detect_scanned on_detected on_diagnostics on_pick_roots
    on_pick_index_dir on_scan_listening on_detect_listening on_deleted
resume-IsOpen (searching q) (gives a) s h = h
resume-IsOpen (searching q) (throws e) s h = h
resume-IsOpen loading (gives a) s h = h
resume-IsOpen loading (throws e) s h = h
resume-IsOpen saving (gives a) s h = h
resume-IsOpen saving (throws e) s h = h
resume-IsOpen resetting (gives a) s h = h
resume-IsOpen resetting (throws e) s h = h
resume-IsOpen indexing (gives a) s h = h
resume-IsOpen indexing (throws e) s h = h
resume-IsOpen piping (gives a) s h = h
resume-IsOpen piping (throws e) s h = h
resume-IsOpen scanning (gives a) s h = h
resume-IsOpen scanning (throws e) s h = h
resume-IsOpen detect_scanning (gives a) s h = h
resume-IsOpen detect_scanning (throws e) s h = h
resume-IsOpen detecting (gives a) s h = h
resume-IsOpen detecting (throws e) s h = h
resume-IsOpen diagnosing (gives a) s h = h
resume-IsOpen diagnosing (throws e) s h = h
resume-IsOpen picking_roots (gives (many ds)) s h = h
resume-IsOpen picking_roots (gives (one d)) s h = h
resume-IsOpen picking_roots (gives cancelled) s h = h
resume-IsOpen picking_roots (throws e) s h = h
resume-IsOpen picking_index_dir (gives (many ds)) s h = h
resume-IsOpen picking_index_dir (gives (one d)) s h = h
resume-IsOpen picking_index_dir (gives cancelled) s h = h
resume-IsOpen picking_index_dir (throws e) s h = h
resume-IsOpen (listening o) (gives a) s h = h
resume-IsOpen (listening o) (throws e) s h = h
resume-IsOpen (detect_listening o) (gives a) s h = h
resume-IsOpen (detect_listening o) (throws e) s h = h
resume-IsOpen (deleting p) (gives a) s h = h
resume-IsOpen (deleting p) (throws e) s h = h

begin-IsOpen :
    (number : Text → Number) (h : Handler) (s : App) → IsOpen s → IsOpen (begin number h s).0
unfolding begin do_search do_save_config do_reset_config do_scan do_index do_scan_and_index
    run_diagnostics on_index_page run_detect handle_delete
begin-IsOpen number load_config s k = ground arith
begin-IsOpen number search s k = ground arith
begin-IsOpen number save_config s k = ground arith
begin-IsOpen number reset_config s k = ground arith
begin-IsOpen number scan s k = ground arith
begin-IsOpen number index s k = ground arith
begin-IsOpen number scan_and_index s k = ground arith
begin-IsOpen number detect s k = ground arith
begin-IsOpen number diagnose s k = ground arith
begin-IsOpen number open_index_page s k = ground arith
begin-IsOpen number pick_roots s k = ground arith
begin-IsOpen number pick_index_dir s k = ground arith
begin-IsOpen number (delete confirmed path) s k = ground arith

on_control-IsOpen : (c : Control) (s : App) → IsOpen s → IsOpen (on_control c s)
unfolding on_control
on_control-IsOpen (set_query t) s h = h
on_control-IsOpen (set_ext_filter t) s h = h
on_control-IsOpen (set_roots t) s h = h
on_control-IsOpen (set_exclude t) s h = h
on_control-IsOpen (set_index_dir t) s h = h
on_control-IsOpen (set_view v) s h = h
on_control-IsOpen (set_sort b) s h = h
on_control-IsOpen toggle_dir s h = h
on_control-IsOpen toggle_time s h = h
on_control-IsOpen (set_page p) s h = h
on_control-IsOpen (set_theme t) s h = h
on_control-IsOpen (set_lang l) s h = h
on_control-IsOpen (set_content_parse b) s h = h
on_control-IsOpen (set_dup_hash b) s h = h
on_control-IsOpen (set_dup_name b) s h = h
on_control-IsOpen (set_auto_scan b) s h = h
on_control-IsOpen (set_path_max_len n) s h = h
on_control-IsOpen (select r) s h = h
on_control-IsOpen (copied true) s h = h
on_control-IsOpen (copied false) s h = h

apply_local-IsOpen : (l : Local) (s : App) → IsOpen s → IsOpen (apply_local l s)
unfolding apply_local on_mount clear_query reset_filters on_index_done on_index_progress
    on_scan_progress on_scan_done on_auto_scan_start
apply_local-IsOpen (controls c) s h = on_control-IsOpen c s h
apply_local-IsOpen mounts s h = ground arith
apply_local-IsOpen clears s h = h
apply_local-IsOpen resets s h = (refl, refl)
apply_local-IsOpen index_done s h = h
apply_local-IsOpen (index_progress e) s h = h
apply_local-IsOpen (scan_progress e) s h = h
apply_local-IsOpen (scan_done none) s h = h
apply_local-IsOpen (scan_done (some n)) s h = h
apply_local-IsOpen (auto_scan_start r) s h = h

Step-IsOpen : (number : Text → Number) (u v : World) → Step number u v → IsOpen u.app → IsOpen v.app
Step-IsOpen number u v (starts h w) o = begin-IsOpen number h w.app o
Step-IsOpen number u v (changes l w) o = apply_local-IsOpen l w.app o
Step-IsOpen number u v (answers before p after r s) o = resume-IsOpen p r s o

Steps-IsOpen :
    (number : Text → Number) (u v : World) → Steps number u v → IsOpen u.app → IsOpen v.app
Steps-IsOpen number u v (done w) o = o
Steps-IsOpen number u v (more {v = w} t ts) o =
    Steps-IsOpen number w v ts (Step-IsOpen number u w t o)

opened-IsOpen : (in_tauri : Bool) (limit : ℤ) → IsOpen (opened in_tauri limit).app
unfolding initial
opened-IsOpen in_tauri limit = (refl, refl)

-- The filters of a search by extensions alone.
abbrev pub by_extension : Option (List Text) → Option SearchFilters
by_extension none = none
by_extension (some exts) = some (record { ext = some exts; min_size = none; max_size = none })

size_limit-blank : (number : Text → Number) (t : Text) → t ≡ [] → size_limit number t ≡ none
unfolding size_limit trim trim_start trim_end
size_limit-blank number t e = rw e refl

make_filters-by_extension :
    (exts : Option (List Text)) → make_filters exts none none ≡ by_extension exts
make_filters-by_extension none = refl
make_filters-by_extension (some es) = refl

filters_of_open :
    (number : Text → Number) (s : App)
    → IsOpen s
    → filters_of number s ≡ by_extension (non_empty (parse_csv s.ext_filter))
unfolding filters_of
filters_of_open number s o =
    rw (size_limit-blank number s.min_size o.0, size_limit-blank number s.max_size o.1)
      (make_filters-by_extension (non_empty (parse_csv s.ext_filter)))

-- In every state that the page can reach, whatever the user does and the back end answers, a search
-- has no size limits: its filters are the extensions of the list alone, or nothing.
pub request_of-by_extension :
    (number : Text → Number) (in_tauri : Bool) (limit : ℤ) (w : World)
    → Steps number (opened in_tauri limit) w
    → (request_of number w.app).filters ≡ by_extension (non_empty (parse_csv w.app.ext_filter))
unfolding request_of
request_of-by_extension number in_tauri limit w t =
    filters_of_open number w.app
      (Steps-IsOpen number (opened in_tauri limit) w t (opened-IsOpen in_tauri limit))
