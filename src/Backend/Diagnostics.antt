-- ===== src/Backend/Diagnostics.antt =====
-- src-tauri/src/diagnostics.rs: the report on the configuration, the pipeline, the system and the index.
-- What the system measures and what the library of the index answers are parameters; the log is left
-- out.
pub mod Shown
pub mod Card
use search_every.Prelude.{
  ℕ, zero, suc, List, [], ◌∷◌, ◌++◌, Text, Bool, true, false, ◌&&◌, not, Option, none, some, codes,
  length, if◌then◌else◌,
}
use search_every.Prelude.Number.{Number}
use search_every.Types.{DiagnosticsReport}
use search_every.Services.Invoke.{Reply, resolves, rejects}
use search_every.Services.Api.{Command}
use search_every.Backend.Config
use search_every.Backend.Config.{BackendConfig, Store, read_config}
use search_every.Backend.Pipeline.{PipelineState, no_state}

-- `Index::open_in_dir`: the error, or the fields and, where it can be counted, the number of documents.
pub data Opened : Type 0 where
  refused : Text → Opened
  opened : List Text → Option ℕ → Opened

-- What the report finds. The state of the pipeline is `none` where it cannot be read.
pub record Machine : Type 0 where
  pub exists : Text → Bool
  pub open_in_dir : Text → Opened
  pub state : Option PipelineState
  pub cpu_avg : Option Number
  pub total_memory : ℕ
  pub free_memory : ℕ

abbrev no_items : List Text → Bool
no_items [] = true
no_items (x ∷ xs) = false

-- `warnings.push(…)`, where it is due
abbrev pub warn_if : Bool → Text → List Text
warn_if true text = text ∷ []
warn_if false text = []

-- `open_ok`, the number of documents, the fields and the warnings
pub record IndexStatus : Type 0 where
  pub open_ok : Bool
  pub doc_count : Option ℕ
  pub fields : Option (List Text)
  pub failures : List Text

abbrev pub not_there : IndexStatus
not_there = record { open_ok = false; doc_count = none; fields = none; failures = [] }

abbrev pub status_of : Opened → IndexStatus
status_of (opened names count) = record {
  open_ok = true;
  doc_count = count;
  fields = some names;
  failures = [];
}
status_of (refused e) = record {
  open_ok = false;
  doc_count = none;
  fields = none;
  failures = (codes "open index failed: " ++ e) ∷ [];
}

abbrev pub index_status : Machine → Text → IndexStatus
index_status m dir = if m.exists dir then status_of (m.open_in_dir dir) else not_there

abbrev pub or_no_state : Option PipelineState → PipelineState
or_no_state none = no_state
or_no_state (some st) = st

abbrev is_some {ℓ} : {A : Type ℓ} → Option A → Bool
is_some none = false
is_some (some a) = true

-- The answer to the command, after some time. The text of the error is a parameter.
abbrev pub answered : ℕ → Text → Option DiagnosticsReport → Reply DiagnosticsReport
answered delay failure none = rejects delay failure
answered delay failure (some r) = resolves delay r

module _ (host : Config.Host) (m : Machine) where
  unfoldable pub warnings_of : BackendConfig → List Text
  warnings_of cfg =
      warn_if (no_items cfg.scan_roots) (codes "config.scan_roots is empty")
      ++ (warn_if (host.is_blank cfg.index_dir) (codes "config.index_dir is empty")
          ++ (warn_if (not (m.exists cfg.index_dir)) (codes "index_dir does not exist")
              ++ (index_status m cfg.index_dir).failures))

  unfoldable pub report : BackendConfig → DiagnosticsReport
  unfolding warnings_of
  report cfg = record {
    index_dir = cfg.index_dir;
    index_open_ok = (index_status m cfg.index_dir).open_ok;
    index_doc_count = (index_status m cfg.index_dir).doc_count;
    schema_fields = (index_status m cfg.index_dir).fields;
    config_scan_roots_count = length cfg.scan_roots;
    config_auto_scan_enabled = cfg.auto_scan_enabled;
    pipeline_started =
        is_some (or_no_state m.state).last_day && not (or_no_state m.state).completed;
    pipeline_completed = (or_no_state m.state).completed;
    pipeline_last_day = (or_no_state m.state).last_day;
    sys_cpu_avg = m.cpu_avg;
    sys_total_mem_kib = some m.total_memory;
    sys_free_mem_kib = some m.free_memory;
    warnings = warnings_of cfg;
  }

  abbrev pub reported : Option BackendConfig × Store → Option DiagnosticsReport × Store
  reported (none, store) = (none, store)
  reported (some cfg, store) = (some (report cfg), store)

  -- `none` is the error of the configuration.
  unfoldable pub diagnostics_report : Store → Option DiagnosticsReport × Store
  unfolding report
  diagnostics_report store = reported (read_config host store)

  -- The command as the front end meets it: a further attempt finds what the one before has left.
  abbrev pub store_at : Store → ℕ → Store
  store_at store zero = store
  store_at store (suc k) = (diagnostics_report (store_at store k)).1

  unfoldable pub serve_diagnostics : ℕ → Text → Store → Command → ℕ → Reply DiagnosticsReport
  serve_diagnostics delay failure store c attempt =
      answered delay failure (diagnostics_report (store_at store attempt)).0
