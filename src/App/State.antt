-- ===== src/App/State.antt =====
-- The `useState` variables of src/App.tsx, and what the handlers share.
use search_every.Prelude.{
  ℕ, List, [], Text, Bool, true, false, Option, none, some, codes, if◌then◌else◌,
}
use search_every.Prelude.Int.{ℤ}
use search_every.Types.{FileMeta, SearchResult, PageKey, ThemeKey, DupGroup, DiagnosticsReport}

pub data ViewMode : Type 0 where
  table card : ViewMode

pub data SortBy : Type 0 where
  score time size : SortBy

pub data SortDir : Type 0 where
  asc desc : SortDir

pub data Lang : Type 0 where
  zh en : Lang

pub record App : Type 0 where
  pub in_tauri : Bool
  pub index_dir : Text
  pub roots : Text
  pub exclude : Text
  pub scanned : List FileMeta
  pub scan_count : ℕ
  pub scan_dir : Text
  pub query : Text
  pub results : List SearchResult
  pub busy : Bool
  pub msg : Text
  pub enable_content_parse : Bool
  pub page : PageKey
  pub theme : ThemeKey
  pub auto_scan_enabled : Bool
  pub view_mode : ViewMode
  pub selected : Option SearchResult
  pub ext_filter : Text
  pub min_size : Text
  pub max_size : Text
  pub sort_by : SortBy
  pub sort_dir : SortDir
  pub lang : Lang
  pub idx_current : ℕ
  pub idx_total : ℕ
  pub idx_running : Bool
  pub last_scan_total : ℕ
  pub dup_groups : List DupGroup
  pub dup_include_hash : Bool
  pub dup_include_name : Bool
  pub diag : Option DiagnosticsReport
  pub show_relative_time : Bool
  pub path_max_len : ℤ

-- The state at the first render; the arguments are `isTauri()` and `PATH_MAX_LEN`.
unfoldable pub initial : Bool → ℤ → App
initial in_tauri path_max_len = record {
  in_tauri = in_tauri;
  index_dir = codes "indexes/main";
  roots = codes "D:/";
  exclude = codes "\\Windows, \\Program Files, \\AppData";
  scanned = [];
  scan_count = 0;
  scan_dir = [];
  query = [];
  results = [];
  busy = false;
  msg = [];
  enable_content_parse = false;
  page = PageKey.search;
  theme = ThemeKey.eye;
  auto_scan_enabled = true;
  view_mode = table;
  selected = none;
  ext_filter = [];
  min_size = [];
  max_size = [];
  sort_by = score;
  sort_dir = desc;
  lang = zh;
  idx_current = 0;
  idx_total = 0;
  idx_running = false;
  last_scan_total = 0;
  dup_groups = [];
  dup_include_hash = true;
  dup_include_name = true;
  diag = none;
  show_relative_time = false;
  path_max_len = path_max_len;
}

-- The effect that tells of the preview in a browser.
unfoldable pub on_mount : App → App
on_mount s =
    if s.in_tauri then s else record s { msg = codes "当前在浏览器预览模式。后端命令不可用，请使用 Tauri 开发模式进行端到端联调。" }

-- What an `await` gives: a value, or what was thrown, by its `toString()` (`none` where it has none).
pub data Answer {ℓ} (A : Type ℓ) : Type ℓ where
  gives : A → Answer A
  throws : Option Text → Answer A

-- `e?.toString?.() ?? fallback`
abbrev pub error_text : Option Text → Text → Text
error_text none fallback = fallback
error_text (some t) fallback = t
