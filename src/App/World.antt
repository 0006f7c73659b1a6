-- ===== src/App/World.antt =====
-- The handlers of src/App.tsx together: JavaScript runs one part of a handler at a time, and what
-- happens between the parts is any sequence of other parts, inputs and events.
pub mod Busy
pub mod Filters
pub mod Rounds
pub mod Listeners
pub mod Preview
pub mod Stale
use search_every.Prelude.{
  ℕ, List, [], ◌∷◌, ◌++◌, Text, Bool, Option, none, some, if◌then◌else◌, ◌≡◌,
}
use search_every.Prelude.Number.{Number}
use search_every.Types.{
  FileMeta, SearchResult, SearchRequest, AppConfig, DupGroup, DiagnosticsReport,
  IndexProgressPayload, PageKey,
}
use search_every.Services.Api.{Command, ScanOpts}
use search_every.App.State.{App, Answer, on_mount}
use search_every.App.Search.{request_of, do_search, on_search, clear_query, reset_filters}
use search_every.App.Controls.{Control, on_control}
use search_every.App.Settings.{
  Selection, on_config_loaded, do_save_config, on_save_config, do_reset_config, on_reset_config,
  on_pick_roots, on_pick_index_dir,
}
use search_every.App.Scan.{
  ScanProgress, on_scan_progress, do_scan, on_scan_listening, on_scanned, do_index, on_index,
  do_scan_and_index, on_scan_and_index, on_index_progress, on_index_done, on_scan_done,
  on_auto_scan_start, run_diagnostics, on_index_page, on_diagnostics,
}
use search_every.App.Dup.{
  Detect, ask, scan_first, run_detect, on_detect_listening, on_detect_scanned, on_detected,
  handle_delete, on_deleted,
}

-- The `await` at which a handler stands, with what it has read before.
pub data Pending : Type 0 where
  searching : SearchRequest → Pending
  loading saving resetting indexing piping scanning detect_scanning detecting diagnosing : Pending
  picking_roots picking_index_dir : Pending
  listening : ScanOpts → Pending
  detect_listening : ScanOpts → Pending
  deleting : Text → Pending

-- What it waits for.
abbrev pub Result : Pending → Type 0
Result (searching r) = Answer (List SearchResult)
Result loading = Answer AppConfig
Result saving = Answer (Unit {0})
Result resetting = Answer AppConfig
Result indexing = Answer (Unit {0})
Result piping = Answer (Unit {0})
Result scanning = Answer (List FileMeta)
Result detect_scanning = Answer (List FileMeta)
Result detecting = Answer (List DupGroup)
Result diagnosing = Answer DiagnosticsReport
Result picking_roots = Answer Selection
Result picking_index_dir = Answer Selection
Result (listening o) = Answer (Unit {0})
Result (detect_listening o) = Answer (Unit {0})
Result (deleting p) = Answer (Unit {0})

-- A command that is sent is waited for.
abbrev pub waits : Pending → App × Option Command → App × List Pending
waits p (s, none) = (s, [])
waits p (s, some c) = (s, p ∷ [])

-- The handler goes on with the answer, up to its next `await` or its end.
unfoldable pub resume : (p : Pending) → Result p → App → App × List Pending
resume (searching r) a s = (on_search a s, [])
resume loading a s = (on_config_loaded a s, [])
resume saving a s = (on_save_config a s, [])
resume resetting a s = (on_reset_config a s, [])
resume indexing a s = (on_index a s, [])
resume piping a s = (on_scan_and_index a s, [])
resume scanning a s = (on_scanned a s, [])
resume detect_scanning a s = waits detecting (on_detect_scanned a s)
resume detecting a s = (on_detected a s, [])
resume diagnosing a s = (on_diagnostics a s, [])
resume picking_roots a s = (on_pick_roots a s, [])
resume picking_index_dir a s = (on_pick_index_dir a s, [])
resume (listening o) a s = waits scanning (on_scan_listening o a s)
resume (detect_listening o) a s = waits detect_scanning (on_detect_listening o a s)
resume (deleting p) a s = (on_deleted p a s, [])

pub data Handler : Type 0 where
  load_config search save_config reset_config scan index scan_and_index detect : Handler
  diagnose open_index_page pick_roots pick_index_dir : Handler
  delete : Bool → Text → Handler

abbrev opens : Pending → App → App × List Pending
opens p s = if s.in_tauri then (s, p ∷ []) else (s, [])

abbrev begin_scan : App × Option ScanOpts → App × List Pending
begin_scan (s, none) = (s, [])
begin_scan (s, some o) = (s, listening o ∷ [])

abbrev begin_detect : App × Option Detect → App × List Pending
begin_detect (s, none) = (s, [])
begin_detect (s, some (ask c)) = (s, detecting ∷ [])
begin_detect (s, some (scan_first o)) = (s, detect_listening o ∷ [])

-- The handler up to its first `await`. A control that is disabled while `busy` is not relied on: the
-- timer of the search and the effects call their handlers all the same.
unfoldable pub begin : (Text → Number) → Handler → App → App × List Pending
begin number load_config s = opens loading s
begin number search s = waits (searching (request_of number s)) (do_search number s)
begin number save_config s = waits saving (do_save_config s)
begin number reset_config s = waits resetting (do_reset_config s)
begin number scan s = begin_scan (do_scan s)
begin number index s = waits indexing (do_index s)
begin number scan_and_index s = waits piping (do_scan_and_index s)
begin number detect s = begin_detect (run_detect s)
begin number diagnose s = waits diagnosing (run_diagnostics s)
begin number open_index_page s = waits diagnosing (on_index_page s)
begin number pick_roots s = opens picking_roots s
begin number pick_index_dir s = opens picking_index_dir s
begin number (delete confirmed path) s = waits (deleting path) (handle_delete confirmed path s)

-- What changes the state at once: inputs, and the events of the back end.
pub data Local : Type 0 where
  controls : Control → Local
  mounts clears resets index_done : Local
  index_progress : IndexProgressPayload → Local
  scan_progress : ScanProgress → Local
  scan_done : Option ℕ → Local
  auto_scan_start : Option Text → Local

unfoldable pub apply_local : Local → App → App
apply_local (controls c) s = on_control c s
apply_local mounts s = on_mount s
apply_local clears s = clear_query s
apply_local resets s = reset_filters s
apply_local index_done s = on_index_done s
apply_local (index_progress e) s = on_index_progress e s
apply_local (scan_progress e) s = on_scan_progress e s
apply_local (scan_done n) s = on_scan_done n s
apply_local (auto_scan_start r) s = on_auto_scan_start r s

pub record World : Type 0 where
  pub app : App
  pub pending : List Pending

abbrev pub add : List Pending → App × List Pending → World
add ps (s, qs) = record { app = s; pending = ps ++ qs }

abbrev pub put_between : List Pending → List Pending → App × List Pending → World
put_between before after (s, qs) = record { app = s; pending = before ++ (qs ++ after) }

-- Any handler may start, and any of the pending answers may come next.
pub data Step (number : Text → Number) : World → World → Type 0 where
  starts : (h : Handler) (w : World) → Step number w (add w.pending (begin number h w.app))
  changes : (l : Local) (w : World) → Step number w (record w { app = apply_local l w.app })
  answers :
      (before : List Pending) (p : Pending) (after : List Pending) (r : Result p) (s : App)
      → Step number
          (record { app = s; pending = before ++ p ∷ after })
          (put_between before after (resume p r s))

pub data Steps (number : Text → Number) : World → World → Type 0 where
  done : (w : World) → Steps number w w
  more : {u v w : World} → Step number u v → Steps number v w → Steps number u w
