-- ===== src/Services/Api.antt =====
-- src/services/api.ts: the command, the payload, the time limit and the retries of each call that
-- the front end makes of the back end.
pub mod Contract
use Prim.Native.String.{String}
use search_every.Prelude.{ℕ, List, [], ◌∷◌, Text, Bool, false, Option, none, some}
use search_every.Prelude.Int.{ℤ, pos}
use search_every.Prelude.Number.{Number, fin, whole}
use search_every.Types.{AppConfig, FileMeta, SearchRequest, SearchFilters}
use search_every.Constants.{invoke_timeouts}
use search_every.Services.Value.{
  Value, undefined, null, boolean, number, string, array, object, Values, no_values, and_value,
  Members, no_members, member, texts, optional,
}

-- The arguments of `safeInvoke`; no retries means `INVOKE_DEFAULTS.retries`.
pub record Command : Type 0 where
  pub cmd : String
  pub payload : Value
  pub timeout_ms : ℕ
  pub retries : Option ℕ

pub record ScanOpts : Type 0 where
  pub roots : List Text
  pub exclude_patterns : List Text
  pub max_file_size_mb : ℕ
  pub follow_symlinks : Bool

pub record IndexOpts : Type 0 where
  pub index_dir : Text
  pub enable_content_parse : Bool

abbrev integer : ℤ → Value
integer n = number (fin n 0)

abbrev config_value : AppConfig → Value
config_value cfg = object (
    member "search_mode" (string cfg.search_mode) (
      member "scan_roots" (array (texts cfg.scan_roots)) (
        member "exclude_patterns" (array (texts cfg.exclude_patterns)) (
          member "index_dir" (string cfg.index_dir) (
            member "path_max_len" (optional integer cfg.path_max_len)
              (member "auto_scan_enabled" (optional boolean cfg.auto_scan_enabled) no_members))))))

abbrev scan_value : ScanOpts → Value
scan_value opts = object (
    member "roots" (array (texts opts.roots)) (
      member "exclude_patterns" (array (texts opts.exclude_patterns)) (
        member "max_file_size_mb" (number (whole opts.max_file_size_mb))
          (member "follow_symlinks" (boolean opts.follow_symlinks) no_members))))

-- The names of the back end, which are not those of the front end's object.
abbrev rust_index_opts : IndexOpts → Value
rust_index_opts opts = object (
    member "index_dir" (string opts.index_dir)
      (member "enable_content_parse" (boolean opts.enable_content_parse) no_members))

abbrev file_value : FileMeta → Value
file_value f = object (
    member "path" (string f.path) (
      member "file_name" (string f.file_name) (
        member "ext" (string f.ext) (
          member "size" (number (whole f.size))
            (member "modified_ts" (integer f.modified_ts) no_members)))))

abbrev file_values : List FileMeta → Values
file_values [] = no_values
file_values (f ∷ fs) = and_value (file_value f) (file_values fs)

unfoldable pub read_config : Command
read_config = record {
  cmd = "read_config";
  payload = undefined;
  timeout_ms = invoke_timeouts.read_config;
  retries = none;
}

unfoldable pub write_config : AppConfig → Command
write_config cfg = record {
  cmd = "write_config";
  payload = object (member "cfg" (config_value cfg) no_members);
  timeout_ms = invoke_timeouts.write_config;
  retries = none;
}

unfoldable pub reset_config : Command
reset_config = record {
  cmd = "reset_config";
  payload = undefined;
  timeout_ms = invoke_timeouts.read_config;
  retries = none;
}

unfoldable pub scan_paths : ScanOpts → Command
scan_paths opts = record {
  cmd = "scan_paths";
  payload = object (member "opts" (scan_value opts) no_members);
  timeout_ms = invoke_timeouts.scan_paths;
  retries = none;
}

unfoldable pub scan_paths_progress : ScanOpts → Command
scan_paths_progress opts = record {
  cmd = "scan_paths_progress";
  payload = object (member "opts" (scan_value opts) no_members);
  timeout_ms = invoke_timeouts.scan_paths;
  retries = none;
}

unfoldable pub build_inverted_index : List FileMeta → IndexOpts → Command
build_inverted_index files opts = record {
  cmd = "build_inverted_index";
  payload = object (
      member "files" (array (file_values files)) (member "opts" (rust_index_opts opts) no_members));
  timeout_ms = invoke_timeouts.build_index;
  retries = none;
}

unfoldable pub build_inverted_index_progress : List FileMeta → IndexOpts → Command
build_inverted_index_progress files opts = record {
  cmd = "build_inverted_index_progress";
  payload = object (
      member "files" (array (file_values files)) (member "opts" (rust_index_opts opts) no_members));
  timeout_ms = invoke_timeouts.build_index;
  retries = none;
}

-- The index options go under two names.
unfoldable pub scan_and_index_pipeline : List Text → List Text → IndexOpts → Command
scan_and_index_pipeline roots exclude_patterns opts = record {
  cmd = "scan_and_index_pipeline";
  payload = object (
      member "opts"
        (scan_value (record {
          roots = roots;
          exclude_patterns = exclude_patterns;
          max_file_size_mb = 500;
          follow_symlinks = false;
        }))
        (member "index_opts" (rust_index_opts opts)
          (member "indexOpts" (rust_index_opts opts) no_members)));
  timeout_ms = invoke_timeouts.pipeline_start;
  retries = none;
}

unfoldable pub start_auto_scan_now : Command
start_auto_scan_now = record {
  cmd = "start_auto_scan_now";
  payload = undefined;
  timeout_ms = invoke_timeouts.start_auto_scan_now;
  retries = none;
}

abbrev pub filters_value : Option SearchFilters → Value
filters_value none = null
filters_value (some f) = object (
    member "ext" (optional (λ xs. array (texts xs)) f.ext) (
      member "min_size" (optional number f.min_size)
        (member "max_size" (optional number f.max_size) no_members)))

-- The only call with a retry of its own.
unfoldable pub search_query : SearchRequest → Command
search_query req = record {
  cmd = "search_query";
  payload = object (
      member "req"
        (object (
          member "query" (string req.query) (
            member "filters" (filters_value req.filters)
              (member "index_dir" (string req.index_dir) no_members))))
        no_members);
  timeout_ms = invoke_timeouts.search_query;
  retries = some 1;
}

unfoldable pub open_location : Text → Command
open_location path = record {
  cmd = "open_location";
  payload = object (member "path" (string path) no_members);
  timeout_ms = invoke_timeouts.open_location;
  retries = none;
}

unfoldable pub detect_duplicates : List Text → Command
detect_duplicates paths = record {
  cmd = "detect_duplicates";
  payload = object (member "paths" (array (texts paths)) no_members);
  timeout_ms = invoke_timeouts.search_query;
  retries = none;
}

-- The index directory goes under two names.
unfoldable pub delete_file_and_index : Text → Text → Command
delete_file_and_index path index_dir = record {
  cmd = "delete_file_and_index";
  payload = object (
      member "path" (string path)
        (member "index_dir" (string index_dir) (member "indexDir" (string index_dir) no_members)));
  timeout_ms = invoke_timeouts.build_index;
  retries = none;
}

unfoldable pub diagnostics_report : Command
diagnostics_report = record {
  cmd = "diagnostics_report";
  payload = undefined;
  timeout_ms = invoke_timeouts.diagnostics_report;
  retries = none;
}
