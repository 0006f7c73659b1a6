-- ===== src/App/World/Busy.antt =====
-- `busy` and the answers that are still to come.
use search_every.Prelude.{
  List, [], ◌∷◌, ◌++◌, Text, Bool, true, false, ◌||◌, any, none, some, ◌≡◌, refl, ◌∙◌, ◌⊎◌, arith,
  if◌then◌else◌, Bool-cases, inl, inr,
}
use search_every.Prelude.Int.{ℤ}
use search_every.Prelude.Number.{Number}
use search_every.App.State.{App, gives, throws, initial, on_mount}
use search_every.App.Search.{do_search, on_search, clear_query, reset_filters}
use search_every.App.Controls.{
  Control, copied, select, set_auto_scan, set_content_parse, set_dup_hash, set_dup_name,
  set_exclude, set_ext_filter, set_index_dir, set_lang, set_page, set_path_max_len, set_query,
  set_roots, set_sort, set_theme, set_view, toggle_dir, toggle_time, on_control,
}
use search_every.App.Settings.{
  many, one, cancelled, apply_config, on_config_loaded, do_save_config, on_save_config,
  do_reset_config, on_reset_config, on_pick_roots, on_pick_index_dir,
}
use search_every.App.Scan.{
  on_scan_progress, do_scan, on_scan_listening, on_scanned, do_index, on_index, do_scan_and_index,
  on_scan_and_index, on_index_progress, on_index_done, on_scan_done, on_auto_scan_start,
  run_diagnostics, on_index_page, on_diagnostics,
}
use search_every.App.Dup.{
  run_detect, on_detect_listening, on_detect_scanned, on_detected, handle_delete, on_deleted,
}
use search_every.App.World.{
  Pending, searching, loading, saving, resetting, indexing, piping, scanning, detect_scanning,
  detecting, diagnosing, picking_roots, picking_index_dir, listening, detect_listening, deleting,
  Result, resume, Handler, load_config, search, save_config, reset_config, scan, index,
  scan_and_index, detect, diagnose, open_index_page, pick_roots, pick_index_dir, delete, begin,
  Local, controls, mounts, clears, resets, index_done, index_progress, scan_progress, scan_done,
  auto_scan_start, apply_local, World, Step, starts, changes, answers, Steps, done, more,
  put_between,
}

-- The handlers that set `busy` while they wait.
abbrev pub holds : Pending → Bool
holds loading = false
holds diagnosing = false
holds picking_roots = false
holds picking_index_dir = false
holds _ = true

-- A part of a handler that leaves nothing behind that holds `busy` has reset it, or found it so.
abbrev Settles : Bool → App → App × List Pending → Type 0
Settles held s (s', ps) = any holds ps ≡ false → s'.busy ≡ (if held then false else s.busy)

resume-Settles : (p : Pending) (r : Result p) (s : App) → Settles (holds p) s (resume p r s)
unfolding resume on_search on_config_loaded apply_config on_save_config on_reset_config on_index
    on_scan_and_index on_scanned on_detect_scanned on_detected on_diagnostics on_pick_roots
    on_pick_index_dir on_scan_listening on_detect_listening on_deleted
resume-Settles (searching q) (gives a) s h = refl
resume-Settles (searching q) (throws e) s h = refl
resume-Settles loading (gives a) s h = refl
resume-Settles loading (throws e) s h = refl
resume-Settles saving (gives a) s h = refl
resume-Settles saving (throws e) s h = refl
resume-Settles resetting (gives a) s h = refl
resume-Settles resetting (throws e) s h = refl
resume-Settles indexing (gives a) s h = refl
resume-Settles indexing (throws e) s h = refl
resume-Settles piping (gives a) s h = refl
resume-Settles piping (throws e) s h = refl
resume-Settles scanning (gives a) s h = refl
resume-Settles scanning (throws e) s h = refl
resume-Settles detect_scanning (gives a) s h = absurd (ground arith)
resume-Settles detect_scanning (throws e) s h = refl
resume-Settles detecting (gives a) s h = refl
resume-Settles detecting (throws e) s h = refl
resume-Settles diagnosing (gives a) s h = refl
resume-Settles diagnosing (throws e) s h = refl
resume-Settles picking_roots (gives (many ds)) s h = refl
resume-Settles picking_roots (gives (one d)) s h = refl
resume-Settles picking_roots (gives cancelled) s h = refl
resume-Settles picking_roots (throws e) s h = refl
resume-Settles picking_index_dir (gives (many ds)) s h = refl
resume-Settles picking_index_dir (gives (one d)) s h = refl
resume-Settles picking_index_dir (gives cancelled) s h = refl
resume-Settles picking_index_dir (throws e) s h = refl
resume-Settles (listening o) (gives a) s h = absurd (ground arith)
resume-Settles (listening o) (throws e) s h = refl
resume-Settles (detect_listening o) (gives a) s h = absurd (ground arith)
resume-Settles (detect_listening o) (throws e) s h = refl
resume-Settles (deleting p) (gives a) s h = refl
resume-Settles (deleting p) (throws e) s h = refl

begin-Settles :
    (number : Text → Number) (h : Handler) (s : App) → Settles false s (begin number h s)
unfolding begin do_search do_save_config do_reset_config do_scan do_index do_scan_and_index
    run_diagnostics on_index_page run_detect handle_delete
begin-Settles number load_config s k = ground arith
begin-Settles number search s k = ground arith
begin-Settles number save_config s k = ground arith
begin-Settles number reset_config s k = ground arith
begin-Settles number scan s k = ground arith
begin-Settles number index s k = ground arith
begin-Settles number scan_and_index s k = ground arith
begin-Settles number detect s k = ground arith
begin-Settles number diagnose s k = ground arith
begin-Settles number open_index_page s k = ground arith
begin-Settles number pick_roots s k = ground arith
begin-Settles number pick_index_dir s k = ground arith
begin-Settles number (delete confirmed path) s k = ground arith

on_control-busy : (c : Control) (s : App) → (on_control c s).busy ≡ s.busy
unfolding on_control
on_control-busy (set_query t) s = refl
on_control-busy (set_ext_filter t) s = refl
on_control-busy (set_roots t) s = refl
on_control-busy (set_exclude t) s = refl
on_control-busy (set_index_dir t) s = refl
on_control-busy (set_view v) s = refl
on_control-busy (set_sort b) s = refl
on_control-busy toggle_dir s = refl
on_control-busy toggle_time s = refl
on_control-busy (set_page p) s = refl
on_control-busy (set_theme t) s = refl
on_control-busy (set_lang l) s = refl
on_control-busy (set_content_parse b) s = refl
on_control-busy (set_dup_hash b) s = refl
on_control-busy (set_dup_name b) s = refl
on_control-busy (set_auto_scan b) s = refl
on_control-busy (set_path_max_len n) s = refl
on_control-busy (select r) s = refl
on_control-busy (copied true) s = refl
on_control-busy (copied false) s = refl

apply_local-busy : (l : Local) (s : App) → (apply_local l s).busy ≡ s.busy
unfolding apply_local on_mount clear_query reset_filters on_index_done on_index_progress
    on_scan_progress on_scan_done on_auto_scan_start
apply_local-busy (controls c) s = on_control-busy c s
apply_local-busy mounts s = ground arith
apply_local-busy clears s = refl
apply_local-busy resets s = refl
apply_local-busy index_done s = refl
apply_local-busy (index_progress e) s = refl
apply_local-busy (scan_progress e) s = refl
apply_local-busy (scan_done none) s = refl
apply_local-busy (scan_done (some n)) s = refl
apply_local-busy (auto_scan_start r) s = refl

module _ {A : Type 0} (p : A → Bool) where
  any-append : (xs ys : List A) → any p (xs ++ ys) ≡ (any p xs || any p ys)
  any-append [] ys = refl
  any-append (x ∷ xs) ys = ground (arith, any-append xs ys)

  any_none : (xs ys : List A) → any p (xs ++ ys) ≡ false → (any p xs ≡ false) × (any p ys ≡ false)
  any_none xs ys h = ground (arith, any-append xs ys)

-- Where nothing that is pending holds `busy`, it is false.
abbrev pub IsIdle : World → Type 0
IsIdle w = any holds w.pending ≡ false → w.app.busy ≡ false

pub answer-IsIdle :
    (before after : List Pending) (p : Pending) (r : Result p) (s : App)
    → IsIdle (record { app = s; pending = before ++ p ∷ after })
    → IsIdle (put_between before after (resume p r s))
answer-IsIdle before after p r s i k =
    let (a, bc) = any_none holds before ((resume p r s).1 ++ after) k in
    let (b, c) = any_none holds (resume p r s).1 after bc in
    resume-Settles p r s b ∙ left (Bool-cases (holds p)) a c
  where
    left :
        (holds p ≡ true) ⊎ (holds p ≡ false)
        → any holds before ≡ false
        → any holds after ≡ false
        → (if holds p then false else s.busy) ≡ false
    left (inl e) a c = rw e refl
    left (inr e) a c = rw e (i (ground (arith, any-append holds before (p ∷ after))))

Step-IsIdle : (number : Text → Number) (u v : World) → Step number u v → IsIdle u → IsIdle v
Step-IsIdle number u v (starts h w) i = λ k.
    let (a, b) = any_none holds u.pending (begin number h u.app).1 k in
    begin-Settles number h u.app b ∙ i a
Step-IsIdle number u v (changes l w) i = λ k. apply_local-busy l u.app ∙ i k
Step-IsIdle number u v (answers before p after r s) i = answer-IsIdle before after p r s i

pub Steps-IsIdle : (number : Text → Number) (u v : World) → Steps number u v → IsIdle u → IsIdle v
Steps-IsIdle number u v (done w) i = i
Steps-IsIdle number u v (more {v = w} t ts) i =
    Steps-IsIdle number w v ts (Step-IsIdle number u w t i)

-- The state of the page when it opens.
abbrev pub opened : Bool → ℤ → World
opened in_tauri path_max_len = record { app = initial in_tauri path_max_len; pending = [] }

pub opened-IsIdle : (in_tauri : Bool) (limit : ℤ) → IsIdle (opened in_tauri limit)
unfolding initial
opened-IsIdle in_tauri limit k = refl

-- Whatever handlers run, in whichever order their answers come, and whatever they are: once no answer
-- is pending that a handler waits for with `busy` set, `busy` is false.
pub busy_falls :
    (number : Text → Number) (in_tauri : Bool) (limit : ℤ) (w : World)
    → Steps number (opened in_tauri limit) w
    → any holds w.pending ≡ false
    → w.app.busy ≡ false
busy_falls number in_tauri limit w t k =
    Steps-IsIdle number (opened in_tauri limit) w t (opened-IsIdle in_tauri limit) k
