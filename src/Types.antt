-- ===== src/Types.antt =====
-- src/types.ts: the data that the front end and the back end exchange.
use search_every.Prelude.{ℕ, List, Text, Bool, Option}
use search_every.Prelude.Int.{ℤ}
use search_every.Prelude.Number.{Number}

pub record FileMeta : Type 0 where
  pub path : Text
  pub file_name : Text
  pub ext : Text
  pub size : ℕ
  pub modified_ts : ℤ

-- The score is a 32-bit float of the back end, here in units of 2 ^ -149, of which every such float
-- is a whole multiple.
pub record SearchResult : Type 0 where
  pub path : Text
  pub name : Text
  pub ext : Text
  pub score : ℤ
  pub size : Option ℕ
  pub modified_ts : Option ℤ
  pub summary : Option Text

-- The length limit of paths is a whole number.
pub record AppConfig : Type 0 where
  pub search_mode : Text
  pub scan_roots : List Text
  pub exclude_patterns : List Text
  pub index_dir : Text
  pub path_max_len : Option ℤ
  pub auto_scan_enabled : Option Bool

pub data PageKey : Type 0 where
  search index dup settings about : PageKey

pub data ThemeKey : Type 0 where
  light dark eye tech sky purple gray : ThemeKey

pub data DupKind : Type 0 where
  hash name : DupKind

pub record DupGroup : Type 0 where
  pub kind : DupKind
  pub key : Text
  pub files : List Text

pub record IndexProgressPayload : Type 0 where
  pub current : Option ℕ
  pub total : Option ℕ
  pub name : Option Text
  pub path : Option Text
  pub skipped : Option Bool

pub record SearchFilters : Type 0 where
  pub ext : Option (List Text)
  pub min_size : Option Number
  pub max_size : Option Number

pub record SearchRequest : Type 0 where
  pub query : Text
  pub filters : Option SearchFilters
  pub index_dir : Text

pub record DiagnosticsReport : Type 0 where
  pub index_dir : Text
  pub index_open_ok : Bool
  pub index_doc_count : Option ℕ
  pub schema_fields : Option (List Text)
  pub config_scan_roots_count : ℕ
  pub config_auto_scan_enabled : Bool
  pub pipeline_started : Bool
  pub pipeline_completed : Bool
  pub pipeline_last_day : Option Text
  pub sys_cpu_avg : Option Number
  pub sys_total_mem_kib : Option ℕ
  pub sys_free_mem_kib : Option ℕ
  pub warnings : List Text
