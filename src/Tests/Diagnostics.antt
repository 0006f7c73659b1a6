-- ===== src/Tests/Diagnostics.antt =====
-- Runs of the report of the back end, and its theorems at such runs.
use search_every.Prelude.{
  ◌*◌, [], ◌∷◌, true, none, some, codes, arith, split, trim, trim_end, trim_start, is_space, ◌≡◌,
  ◌↔◌, refl,
}
use search_every.Prelude.Number.{whole}
use search_every.Utils.Csv.{parse_csv}
use search_every.App.State.{initial}
use search_every.Backend.Scanner.{contains}
use search_every.Backend.Config.{BackendConfig, read_config}
use search_every.Backend.Config.Saved.{got}
use search_every.Backend.Diagnostics.{
  refused, Machine, warnings_of, report, diagnostics_report, serve_diagnostics,
}
use search_every.Backend.Diagnostics.Shown.{index_warnings}
use search_every.Backend.Diagnostics.Card.{reports, run_diagnosis_lem}
use search_every.App.Call.{run_diagnosis}
use search_every.App.View.Pages.{diagnostics_view}
use search_every.Tests.Settings.{opened, host, defaults-IsSane}

-- The directory of the index is there, and holds no index.
abbrev no_index : Machine
no_index = record {
  exists = λ t. true;
  open_in_dir = λ t. refused (codes "no index");
  state = none;
  cpu_avg = some (whole 5);
  total_memory = 8192 * 1048576;
  free_memory = 2048 * 1048576;
}

-- The configuration that is read from an empty file.
abbrev mended : BackendConfig
mended = record (got opened 60) { index_dir = codes "index" }

warned : (report host no_index mended).warnings ≡ codes "open index failed: no index" ∷ []
unfolding report warnings_of contains parse_csv split initial trim trim_end trim_start is_space
warned = refl

run_diagnosis_lem_example :
    (run_diagnosis 1 (serve_diagnostics host no_index 700 (codes "no") (some [])) opened
      ≡ some (record { app = reports (report host no_index mended) opened; elapsed = 700 }))
    × ((diagnostics_view (report host no_index mended)).warnings
        ≡ index_warnings no_index (report host no_index mended).index_dir)
    × (((report host no_index mended).index_open_ok ≡ true)
        ↔ ((diagnostics_view (report host no_index mended)).warnings ≡ []))
unfolding diagnostics_report report read_config contains parse_csv split initial trim trim_end
    trim_start is_space
run_diagnosis_lem_example =
    run_diagnosis_lem host no_index 1 700 (codes "no") opened (some []) (some [])
      (report host no_index mended) refl defaults-IsSane refl (omega arith)
