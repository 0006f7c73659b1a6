-- ===== src/Constants.antt =====
-- src/constants/runtime.ts and src/constants/ui.ts: defaults that the environment may override. The
-- argument is `Number(value)` of the environment variable, NaN where it is not set.
use search_every.Prelude.{ℕ, ◌*◌, ◌^◌, Bool, ltb, if◌then◌else◌, true, false}
use search_every.Prelude.Int.{pos, negsuc}
use search_every.Prelude.Number.{Number, nan, infinity, fin, whole}

-- `k < x`, for a finite x
abbrev pub above : ℕ → Number → Bool
above k nan = false
above k (infinity s) = false
above k (fin (pos n) e) = ltb (k * 2 ^ e) n
above k (fin (negsuc n) e) = false

-- `x >= 0`, for a finite x; the model has no negative zero.
abbrev pub not_negative : Number → Bool
not_negative nan = false
not_negative (infinity s) = false
not_negative (fin (pos n) e) = true
not_negative (fin (negsuc n) e) = false

pub record InvokeDefaults : Type 0 where
  pub timeout_ms : Number
  pub retries : Number

unfoldable pub invoke_defaults : Number → Number → InvokeDefaults
invoke_defaults env_timeout env_retries = record {
  timeout_ms = if above 0 env_timeout then env_timeout else whole 60000;
  retries = if not_negative env_retries then env_retries else whole 0;
}

pub record InvokeTimeouts : Type 0 where
  pub read_config : ℕ
  pub write_config : ℕ
  pub scan_paths : ℕ
  pub build_index : ℕ
  pub search_query : ℕ
  pub open_location : ℕ
  pub pipeline_start : ℕ
  pub start_auto_scan_now : ℕ
  pub diagnostics_report : ℕ

abbrev pub invoke_timeouts : InvokeTimeouts
invoke_timeouts = record {
  read_config = 30000;
  write_config = 30000;
  scan_paths = 120000;
  build_index = 300000;
  search_query = 60000;
  open_location = 30000;
  pipeline_start = 600000;
  start_auto_scan_now = 60000;
  diagnostics_report = 45000;
}

-- `PATH_MAX_LEN`
unfoldable pub path_max_len_default : Number → Number
path_max_len_default env_len = if above 10 env_len then env_len else whole 80
