-- ===== src/App/World/Preview.antt =====
-- The page outside of Tauri, in the preview of a browser: no handler gets as far as a command.
use search_every.Prelude.{List, [], ◌∷◌, ◌++◌, Text, true, false, none, some, ◌≡◌, refl, arith}
use search_every.Prelude.Int.{ℤ}
use search_every.Prelude.Number.{Number}
use search_every.App.State.{App, initial, on_mount}
use search_every.App.Search.{do_search, clear_query, reset_filters}
use search_every.App.Controls.{
  Control, copied, select, set_auto_scan, set_content_parse, set_dup_hash, set_dup_name,
  set_exclude, set_ext_filter, set_index_dir, set_lang, set_page, set_path_max_len, set_query,
  set_roots, set_sort, set_theme, set_view, toggle_dir, toggle_time, on_control, Button, disabled,
}
use search_every.App.Settings.{do_save_config, do_reset_config}
use search_every.App.Scan.{
  on_scan_progress, do_scan, do_index, do_scan_and_index, on_index_progress, on_index_done,
  on_scan_done, on_auto_scan_start, run_diagnostics, on_index_page,
}
use search_every.App.Dup.{run_detect, handle_delete}
use search_every.App.World.{
  Pending, Handler, load_config, search, save_config, reset_config, scan, index, scan_and_index,
  detect, diagnose, open_index_page, pick_roots, pick_index_dir, delete, begin, Local, controls,
  mounts, clears, resets, index_done, index_progress, scan_progress, scan_done, auto_scan_start,
  apply_local, World, Step, starts, changes, answers, Steps, done, more,
}
use search_every.App.World.Busy.{opened}

-- Nothing that only an answer of the back end brings is there, and nothing waits for one.
abbrev pub Quiet : App → Type 0
Quiet s =
    (s.in_tauri ≡ false)
    × (s.busy ≡ false)
    × (s.results ≡ [])
    × (s.scanned ≡ [])
    × (s.dup_groups ≡ [])
    × (s.diag ≡ none)

-- Outside of Tauri a handler returns at once.
begin-outside :
    (number : Text → Number) (h : Handler) (s : App)
    → s.in_tauri ≡ false
    → begin number h s ≡ (s, [])
unfolding begin do_search do_save_config do_reset_config do_scan do_index do_scan_and_index
    run_diagnostics on_index_page run_detect handle_delete
begin-outside number load_config s off = ground arith
begin-outside number search s off = ground arith
begin-outside number save_config s off = ground arith
begin-outside number reset_config s off = ground arith
begin-outside number scan s off = ground arith
begin-outside number index s off = ground arith
begin-outside number scan_and_index s off = ground arith
begin-outside number detect s off = ground arith
begin-outside number diagnose s off = ground arith
begin-outside number open_index_page s off = ground arith
begin-outside number pick_roots s off = ground arith
begin-outside number pick_index_dir s off = ground arith
begin-outside number (delete confirmed path) s off = ground arith

on_control-Quiet : (c : Control) (s : App) → Quiet s → Quiet (on_control c s)
unfolding on_control
on_control-Quiet (set_query t) s q = q
on_control-Quiet (set_ext_filter t) s q = q
on_control-Quiet (set_roots t) s q = q
on_control-Quiet (set_exclude t) s q = q
on_control-Quiet (set_index_dir t) s q = q
on_control-Quiet (set_view v) s q = q
on_control-Quiet (set_sort b) s q = q
on_control-Quiet toggle_dir s q = q
on_control-Quiet toggle_time s q = q
on_control-Quiet (set_page p) s q = q
on_control-Quiet (set_theme t) s q = q
on_control-Quiet (set_lang l) s q = q
on_control-Quiet (set_content_parse b) s q = q
on_control-Quiet (set_dup_hash b) s q = q
on_control-Quiet (set_dup_name b) s q = q
on_control-Quiet (set_auto_scan b) s q = q
on_control-Quiet (set_path_max_len n) s q = q
on_control-Quiet (select r) s q = q
on_control-Quiet (copied true) s q = q
on_control-Quiet (copied false) s q = q

apply_local-Quiet : (l : Local) (s : App) → Quiet s → Quiet (apply_local l s)
unfolding apply_local on_mount clear_query reset_filters on_index_done on_index_progress
    on_scan_progress on_scan_done on_auto_scan_start
apply_local-Quiet (controls c) s q = on_control-Quiet c s q
apply_local-Quiet mounts s q = ground arith
apply_local-Quiet clears s q = ground arith
apply_local-Quiet resets s q = ground arith
apply_local-Quiet index_done s q = q
apply_local-Quiet (index_progress e) s q = q
apply_local-Quiet (scan_progress e) s q = q
apply_local-Quiet (scan_done none) s q = q
apply_local-Quiet (scan_done (some n)) s q = q
apply_local-Quiet (auto_scan_start r) s q = q

abbrev pub IsPreview : World → Type 0
IsPreview w = Quiet w.app × (w.pending ≡ [])

put_in_not_empty : (before after : List Pending) (p : Pending) → before ++ p ∷ after ≡ [] → ⊥
put_in_not_empty [] after p e = cc
put_in_not_empty (b ∷ before) after p e = cc

Step-IsPreview :
    (number : Text → Number) (u v : World) → Step number u v → IsPreview u → IsPreview v
Step-IsPreview number u v (starts h w) (q, e) = rw (begin-outside number h w.app q.0, e) (q, refl)
Step-IsPreview number u v (changes l w) (q, e) = (apply_local-Quiet l w.app q, e)
Step-IsPreview number u v (answers before p after r s) (q, e) =
    absurd (put_in_not_empty before after p e)

Steps-IsPreview :
    (number : Text → Number) (u v : World) → Steps number u v → IsPreview u → IsPreview v
Steps-IsPreview number u v (done w) h = h
Steps-IsPreview number u v (more {v = w} t ts) h =
    Steps-IsPreview number w v ts (Step-IsPreview number u w t h)

disabled_outside : (b : Button) (s : App) → s.in_tauri ≡ false → disabled b s ≡ true
unfolding disabled
disabled_outside Button.search_now s off = ground arith
disabled_outside Button.save s off = ground arith
disabled_outside Button.reset_defaults s off = ground arith
disabled_outside Button.scan_and_index s off = ground arith
disabled_outside Button.auto_scan s off = ground arith
disabled_outside Button.detect_duplicates s off = ground arith
disabled_outside Button.choose_roots s off = ground arith
disabled_outside Button.choose_index_dir s off = ground arith
disabled_outside Button.run_diagnostics s off = ground arith

-- In a preview outside of Tauri, whatever the user does, no handler ever waits for the back end, the
-- page is never busy, it has no results, no scanned files, no groups of duplicates and no report, and
-- each button that starts a search, a scan, the detection or the diagnosis, chooses a folder, or saves
-- or resets the configuration is disabled.
pub preview_lem :
    (number : Text → Number) (limit : ℤ) (w : World)
    → Steps number (opened false limit) w
    → IsPreview w × ((b : Button) → disabled b w.app ≡ true)
unfolding initial
preview_lem number limit w t =
    let p =
      Steps-IsPreview number (opened false limit) w t
        ((refl, refl, refl, refl, refl, refl), refl) in
    (p, λ b. disabled_outside b w.app p.0.0)
