-- ===== src/Backend/Diagnostics/Card.antt =====
-- `runDiagnostics` of src/App.tsx from the click to the card that it shows, with the back end.
use search_every.Prelude.{ℕ, ◌<◌, [], Text, true, some, codes, ◌≡◌, ◌↔◌, refl, ap}
use search_every.Constants.{invoke_timeouts}
use search_every.Types.{DiagnosticsReport}
use search_every.Services.Invoke.{Reply}
use search_every.Services.Api.{Command, diagnostics_report}
use search_every.App.State.{App}
use search_every.App.Scan.{run_diagnostics, on_diagnostics}
use search_every.App.Call.{carry_out, run_diagnosis}
use search_every.App.Call.Answered.{call_answered}
use search_every.App.View.Pages.{diagnostics_view}
use search_every.Backend.Config
use search_every.Backend.Config.{Store, default_config}
use search_every.Backend.Config.Stored.{IsSane}
use search_every.Backend.Diagnostics
use search_every.Backend.Diagnostics.{Machine, answered, serve_diagnostics}
use search_every.Backend.Diagnostics.Shown.{index_warnings, diagnostics_report_warnings}

-- The state with the report.
abbrev pub reports : DiagnosticsReport → App → App
reports r s = record s { diag = some r; msg = codes "诊断完成" }

run_diagnosis_answered :
    (default_retries delay : ℕ) (replies : Command → ℕ → Reply DiagnosticsReport) (s : App)
    (r : DiagnosticsReport)
    → s.in_tauri ≡ true
    → delay < invoke_timeouts.diagnostics_report
    → replies diagnostics_report 0 ≡ Reply.resolves delay r
    → run_diagnosis default_retries replies s ≡ some (record { app = reports r s; elapsed = delay })
unfolding run_diagnosis run_diagnostics carry_out on_diagnostics diagnostics_report
run_diagnosis_answered default_retries delay replies s r inside soon answer =
    rw (inside, call_answered default_retries replies diagnostics_report delay r answer soon) refl

-- In Tauri, if the defaults of the configuration can be worked with, and the back end can make a report
-- and gives it within the time limit, then the diagnosis comes to an end after that time; nothing else
-- of the page is changed than its report and message, and the card never warns of the configuration: it
-- warns that the directory of the index is not there, or else that the index cannot be opened, or of
-- nothing, and of nothing exactly if the report says that the index can be opened.
pub run_diagnosis_lem :
    (host : Config.Host) (m : Machine) (default_retries delay : ℕ) (failure : Text) (s : App)
    (store store' : Store) (r : DiagnosticsReport)
    → s.in_tauri ≡ true
    → IsSane host (default_config host)
    → Diagnostics.diagnostics_report host m store ≡ (some r, store')
    → delay < invoke_timeouts.diagnostics_report
    → (run_diagnosis default_retries (serve_diagnostics host m delay failure store) s
        ≡ some (record { app = reports r s; elapsed = delay }))
      × ((diagnostics_view r).warnings ≡ index_warnings m r.index_dir)
      × ((r.index_open_ok ≡ true) ↔ ((diagnostics_view r).warnings ≡ []))
unfolding diagnostics_view serve_diagnostics
run_diagnosis_lem host m default_retries delay failure s store store' r inside defaults made soon =
    let (warns, opens) = diagnostics_report_warnings host m store store' r defaults made in
    (
      run_diagnosis_answered default_retries delay (serve_diagnostics host m delay failure store) s
          r inside soon (ap (λ p. answered delay failure p.0) made),
      warns,
      opens,
    )
