-- ===== src/App/Call.antt =====
-- The calls of src/App.tsx carried out: a handler, `safeInvoke` with the back end's answers, and the
-- rest of the handler.
pub mod Search
pub mod Limits
pub mod Scans
pub mod Jobs
pub mod Answered
use search_every.Prelude.{ℕ, ◌+◌, List, Text, true, Option, none, some, codes}
use search_every.Prelude.Number.{Number}
use search_every.Types.{FileMeta, SearchResult, AppConfig, DupGroup, DiagnosticsReport}
use search_every.Utils.Size.{or_default}
use search_every.Services.Invoke.{Reply, Settled, fulfilled, thrown, Outcome, safe_invoke}
use search_every.Services.Api.{Command, ScanOpts}
use search_every.App.State.{App, Answer, gives, throws}
use search_every.App.Search.{do_search, on_search}
use search_every.App.Settings.{do_save_config, on_save_config, do_reset_config, on_reset_config}
use search_every.App.Scan.{
  do_scan, on_scan_listening, on_scanned, do_index, on_index, do_scan_and_index, on_scan_and_index,
  run_diagnostics, on_diagnostics,
}
use search_every.App.Dup.{
  Detect, ask, scan_first, run_detect, on_detect_listening, on_detect_scanned, on_detected,
  handle_delete, on_deleted,
}

-- What an `await` of the call gives.
abbrev pub answer_of {ℓ} : {A : Type ℓ} → Settled A → Answer A
answer_of (fulfilled a) = gives a
answer_of (thrown e) = throws e

-- The state after a handler, and the time that its calls took.
pub record After : Type 0 where
  pub app : App
  pub elapsed : ℕ

abbrev pub after_call {ℓ} :
    {A : Type ℓ} → (Answer A → App → App) → App → Option (Outcome A) → Option After
after_call on_answer s none = none
after_call on_answer s (some o) =
    some (record { app = on_answer (answer_of o.settled) s; elapsed = o.elapsed })

module _ {ℓ} {A : Type ℓ} (default_retries : ℕ) (replies : Command → ℕ → Reply A) where
  -- The arguments that each function of the api module gives to `safeInvoke`.
  unfoldable pub call : Command → Option (Outcome A)
  call c = safe_invoke (codes c.cmd) c.timeout_ms (or_default c.retries default_retries) (replies c)

  -- A handler that sends one command, if it sends any.
  unfoldable pub carry_out : (Answer A → App → App) → App × Option Command → Option After
  unfolding call
  carry_out on_answer (s, none) = some (record { app = s; elapsed = 0 })
  carry_out on_answer (s, some c) = after_call on_answer s (call c)

-- `doSearch`, from the click to its end, if nothing else happens meanwhile.
unfoldable pub run_search :
    (Text → Number) → ℕ → (Command → ℕ → Reply (List SearchResult)) → App → Option After
unfolding carry_out
run_search number default_retries replies s =
    carry_out default_retries replies on_search (do_search number s)

-- The other handlers that send one command and wait for its answer, each from the click to its end.
module _ (default_retries : ℕ) (replies : Command → ℕ → Reply (Unit {0})) where
  unfoldable pub run_save_config : App → Option After
  run_save_config s = carry_out default_retries replies on_save_config (do_save_config s)

  unfoldable pub run_index : App → Option After
  run_index s = carry_out default_retries replies on_index (do_index s)

  unfoldable pub run_scan_and_index : App → Option After
  run_scan_and_index s = carry_out default_retries replies on_scan_and_index (do_scan_and_index s)

  -- `handleDelete`, where the deletion is confirmed
  unfoldable pub run_delete : Text → App → Option After
  run_delete path s =
      carry_out default_retries replies (on_deleted path) (handle_delete true path s)

unfoldable pub run_reset_config : ℕ → (Command → ℕ → Reply AppConfig) → App → Option After
run_reset_config default_retries replies s =
    carry_out default_retries replies on_reset_config (do_reset_config s)

-- `runDiagnostics`
unfoldable pub run_diagnosis : ℕ → (Command → ℕ → Reply DiagnosticsReport) → App → Option After
run_diagnosis default_retries replies s =
    carry_out default_retries replies on_diagnostics (run_diagnostics s)

-- The call before took that time.
abbrev pub later : ℕ → Option After → Option After
later t none = none
later t (some a) = some (record a { elapsed = t + a.elapsed })

-- The handlers that scan: `listening` is how the subscription to the progress ends.
module _ (default_retries : ℕ) (listening : Answer (Unit {0}))
    (files : Command → ℕ → Reply (List FileMeta)) where
  abbrev pub scan_with : App × Option ScanOpts → Option After
  scan_with (s, none) = some (record { app = s; elapsed = 0 })
  scan_with (s, some opts) =
      carry_out default_retries files on_scanned (on_scan_listening opts listening s)

  -- `doScan`
  unfoldable pub run_scan : App → Option After
  unfolding carry_out
  run_scan s = scan_with (do_scan s)

  module _ (groups : Command → ℕ → Reply (List DupGroup)) where
    abbrev pub detect_scanned : App → Option (Outcome (List FileMeta)) → Option After
    detect_scanned s none = none
    detect_scanned s (some o) =
        later o.elapsed
          (carry_out default_retries groups on_detected (on_detect_scanned (answer_of o.settled) s))

    abbrev pub detect_listening : App × Option Command → Option After
    detect_listening (s, none) = some (record { app = s; elapsed = 0 })
    detect_listening (s, some c) = detect_scanned s (call default_retries files c)

    abbrev pub detect_from : App × Option Detect → Option After
    detect_from (s, none) = some (record { app = s; elapsed = 0 })
    detect_from (s, some (ask c)) = carry_out default_retries groups on_detected (s, some c)
    detect_from (s, some (scan_first opts)) =
        detect_listening (on_detect_listening opts listening s)

    -- `runDetect`
    unfoldable pub run_duplicates : App → Option After
    unfolding carry_out call
    run_duplicates s = detect_from (run_detect s)
