-- ===== src/App/World/Listeners.antt =====
-- The listeners for `scan_progress` that `doScan` and `runDetect` of src/App.tsx register by `onEvent`
-- before they scan, and remove by `unlisten()` where the scan has succeeded.
use search_every.Prelude.{ℕ, suc, ◌+◌, ◌-◌, List, [], ◌∷◌, ◌++◌, Text, Bool, ◌≡◌, refl, arith}
use search_every.Prelude.Int.{ℤ}
use search_every.Prelude.Number.{Number}
use search_every.App.State.{App, gives, throws}
use search_every.App.Search.{do_search}
use search_every.App.Settings.{do_save_config, do_reset_config}
use search_every.App.Scan.{
  do_scan, do_index, do_scan_and_index, run_diagnostics, on_index_page, on_scan_listening,
}
use search_every.App.Dup.{run_detect, handle_delete, on_detect_listening, on_detect_scanned}
use search_every.App.World.{
  Pending, searching, loading, saving, resetting, indexing, piping, scanning, detect_scanning,
  detecting, diagnosing, picking_roots, picking_index_dir, listening, detect_listening, deleting,
  Result, resume, Handler, load_config, search, save_config, reset_config, scan, index,
  scan_and_index, detect, diagnose, open_index_page, pick_roots, pick_index_dir, delete, begin,
  World, Step, starts, changes, answers, Steps, done, more,
}
use search_every.App.World.Busy.{opened}

-- How many listeners are registered after a part of a handler, of those that were before.
unfoldable pub registered : (p : Pending) → Result p → ℕ → ℕ
registered (searching q) r n = n
registered loading r n = n
registered saving r n = n
registered resetting r n = n
registered indexing r n = n
registered piping r n = n
registered scanning (gives files) n = n - 1
registered scanning (throws e) n = n
registered detect_scanning (gives files) n = n - 1
registered detect_scanning (throws e) n = n
registered detecting r n = n
registered diagnosing r n = n
registered picking_roots r n = n
registered picking_index_dir r n = n
registered (listening o) (gives u) n = suc n
registered (listening o) (throws e) n = n
registered (detect_listening o) (gives u) n = suc n
registered (detect_listening o) (throws e) n = n
registered (deleting p) r n = n

-- Whether the answer is that of a scan that has failed.
unfoldable pub failures : (p : Pending) → Result p → ℕ
failures (searching q) r = 0
failures loading r = 0
failures saving r = 0
failures resetting r = 0
failures indexing r = 0
failures piping r = 0
failures scanning (gives files) = 0
failures scanning (throws e) = 1
failures detect_scanning (gives files) = 0
failures detect_scanning (throws e) = 1
failures detecting r = 0
failures diagnosing r = 0
failures picking_roots r = 0
failures picking_index_dir r = 0
failures (listening o) r = 0
failures (detect_listening o) r = 0
failures (deleting p) r = 0

-- The scans that are running.
abbrev pub scans : List Pending → ℕ
scans [] = 0
scans (scanning ∷ ps) = suc (scans ps)
scans (detect_scanning ∷ ps) = suc (scans ps)
scans (_ ∷ ps) = scans ps

module _ {number : Text → Number} where
  -- The listeners after all the steps, and the scans that have failed meanwhile.
  abbrev pub step_listeners : {u v : World} → Step number u v → ℕ → ℕ
  step_listeners (starts h w) n = n
  step_listeners (changes l w) n = n
  step_listeners (answers before p after r s) n = registered p r n

  abbrev pub listeners : {u v : World} → Steps number u v → ℕ → ℕ
  listeners (done w) n = n
  listeners (more t ts) n = listeners ts (step_listeners t n)

  abbrev pub step_failures : {u v : World} → Step number u v → ℕ
  step_failures (starts h w) = 0
  step_failures (changes l w) = 0
  step_failures (answers before p after r s) = failures p r

  abbrev pub failed_scans : {u v : World} → Steps number u v → ℕ
  failed_scans (done w) = 0
  failed_scans (more t ts) = step_failures t + failed_scans ts

scans-append : (ps qs : List Pending) → scans (ps ++ qs) ≡ scans ps + scans qs
scans-append [] qs = omega arith
scans-append (searching q ∷ ps) qs = omega (arith, scans-append ps qs)
scans-append (loading ∷ ps) qs = omega (arith, scans-append ps qs)
scans-append (saving ∷ ps) qs = omega (arith, scans-append ps qs)
scans-append (resetting ∷ ps) qs = omega (arith, scans-append ps qs)
scans-append (indexing ∷ ps) qs = omega (arith, scans-append ps qs)
scans-append (piping ∷ ps) qs = omega (arith, scans-append ps qs)
scans-append (scanning ∷ ps) qs = omega (arith, scans-append ps qs)
scans-append (detect_scanning ∷ ps) qs = omega (arith, scans-append ps qs)
scans-append (detecting ∷ ps) qs = omega (arith, scans-append ps qs)
scans-append (diagnosing ∷ ps) qs = omega (arith, scans-append ps qs)
scans-append (picking_roots ∷ ps) qs = omega (arith, scans-append ps qs)
scans-append (picking_index_dir ∷ ps) qs = omega (arith, scans-append ps qs)
scans-append (listening o ∷ ps) qs = omega (arith, scans-append ps qs)
scans-append (detect_listening o ∷ ps) qs = omega (arith, scans-append ps qs)
scans-append (deleting p ∷ ps) qs = omega (arith, scans-append ps qs)

-- A handler does not scan before its first `await`.
begin-scans : (number : Text → Number) (h : Handler) (s : App) → scans (begin number h s).1 ≡ 0
unfolding begin do_search do_save_config do_reset_config do_scan do_index do_scan_and_index
    run_diagnostics on_index_page run_detect handle_delete
begin-scans number load_config s = ground arith
begin-scans number search s = ground arith
begin-scans number save_config s = ground arith
begin-scans number reset_config s = ground arith
begin-scans number scan s = ground arith
begin-scans number index s = ground arith
begin-scans number scan_and_index s = ground arith
begin-scans number detect s = ground arith
begin-scans number diagnose s = ground arith
begin-scans number open_index_page s = ground arith
begin-scans number pick_roots s = ground arith
begin-scans number pick_index_dir s = ground arith
begin-scans number (delete confirmed path) s = ground arith

resume-scans :
    (p : Pending) (r : Result p) (s : App) (n k : ℕ)
    → n ≡ k + scans (p ∷ [])
    → registered p r n ≡ (k + failures p r) + scans (resume p r s).1
unfolding registered failures resume on_scan_listening on_detect_listening on_detect_scanned
resume-scans (searching q) r s n k h = omega arith
resume-scans loading r s n k h = omega arith
resume-scans saving r s n k h = omega arith
resume-scans resetting r s n k h = omega arith
resume-scans indexing r s n k h = omega arith
resume-scans piping r s n k h = omega arith
resume-scans scanning (gives a) s n k h = omega arith
resume-scans scanning (throws e) s n k h = omega arith
resume-scans detect_scanning (gives a) s n k h = omega arith
resume-scans detect_scanning (throws e) s n k h = omega arith
resume-scans detecting r s n k h = omega arith
resume-scans diagnosing r s n k h = omega arith
resume-scans picking_roots r s n k h = omega arith
resume-scans picking_index_dir r s n k h = omega arith
resume-scans (listening o) (gives a) s n k h = omega arith
resume-scans (listening o) (throws e) s n k h = omega arith
resume-scans (detect_listening o) (gives a) s n k h = omega arith
resume-scans (detect_listening o) (throws e) s n k h = omega arith
resume-scans (deleting p) r s n k h = omega arith

Step-listeners :
    {number : Text → Number} {u v : World} (t : Step number u v) (n k : ℕ)
    → n ≡ k + scans u.pending
    → step_listeners t n ≡ (k + step_failures t) + scans v.pending
Step-listeners {number} (starts h w) n k e =
    omega (arith, scans-append w.pending (begin number h w.app).1, begin-scans number h w.app)
Step-listeners (changes l w) n k e = omega arith
Step-listeners (answers before p after r s) n k e =
    let whole_list = scans-append before (p ∷ after) in
    let first = scans-append (p ∷ []) after in
    omega (
      arith,
      resume-scans p r s n (k + (scans before + scans after)) (omega (arith, whole_list, first)),
      scans-append before ((resume p r s).1 ++ after),
      scans-append (resume p r s).1 after,
    )

Steps-listeners :
    {number : Text → Number} {u v : World} (t : Steps number u v) (n k : ℕ)
    → n ≡ k + scans u.pending
    → listeners t n ≡ (k + failed_scans t) + scans v.pending
Steps-listeners (done w) n k e = omega arith
Steps-listeners (more t ts) n k e =
    omega (
      arith,
      Steps-listeners ts (step_listeners t n) (k + step_failures t) (Step-listeners t n k e),
    )

-- Whatever handlers run from the opened page, in whichever order their answers come, and whatever they
-- are: the listeners for the progress of a scan that are registered are one for each scan that is
-- running and one for each scan that has failed.
pub listeners_left :
    (number : Text → Number) (in_tauri : Bool) (limit : ℤ) (w : World)
    → (t : Steps number (opened in_tauri limit) w)
    → listeners t 0 ≡ failed_scans t + scans w.pending
listeners_left number in_tauri limit w t = omega (arith, Steps-listeners t 0 0 refl)
