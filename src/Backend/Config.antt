-- ===== src/Backend/Config.antt =====
-- src-tauri/src/config.rs: the configuration file. `serde_json`, the default roots and the default
-- directory of the index, the letters in lower case and `trim().is_empty()` are parameters, as is what
-- the system allows; the log is left out.
pub mod Stored
pub mod Saved
use search_every.Prelude.{
  ℕ, zero, ◌^◌, List, [], ◌∷◌, Text, Bool, true, false, Option, none, some, codes, ltb, ◌==◌,
  if◌then◌else◌,
}
use search_every.Prelude.Int.{pos}
use search_every.Prelude.Number.{Number, fin}
use search_every.Types.{AppConfig}
use search_every.Services.Value.{
  Value, undefined, null, number, string, boolean, array, object, get,
}
use search_every.Services.Api.Contract.{read_string, read_bool, read_list, ◌>>=◌}
use search_every.Backend.Scanner.{contains}

-- `struct AppConfig`
pub record BackendConfig : Type 0 where
  pub search_mode : Text
  pub scan_roots : List Text
  pub exclude_patterns : List Text
  pub index_dir : Text
  pub path_max_len : ℕ
  pub auto_scan_enabled : Bool

pub record Host : Type 0 where
  pub default_scan_roots : List Text
  pub default_index_dir : Text
  pub lower : Text → Text
  pub is_blank : Text → Bool
  pub print : BackendConfig → Text
  pub parse : Text → Option BackendConfig
  pub has_dir : Bool
  pub can_read : Bool
  pub can_write : Bool
  pub can_remove : Bool

-- The content of config.json, where it exists.
abbrev pub Store : Type 0
Store = Option Text

abbrev pub default_exclude_patterns : List Text
default_exclude_patterns =
    codes "\\Windows"
    ∷ codes "\\Program Files"
    ∷ codes "\\Program Files (x86)"
    ∷ codes "\\AppData"
    ∷ codes "\\ProgramData"
    ∷ codes "\\Temp"
    ∷ codes "\\$Recycle.Bin"
    ∷ codes "\\System Volume Information"
    ∷ codes "\\node_modules"
    ∷ []

abbrev pub default_config : Host → BackendConfig
default_config host = record {
  search_mode = codes "inverted";
  scan_roots = host.default_scan_roots;
  exclude_patterns = default_exclude_patterns;
  index_dir = host.default_index_dir;
  path_max_len = 80;
  auto_scan_enabled = true;
}

-- `v.is_empty()`
abbrev or_if_empty : List Text → List Text → List Text
or_if_empty [] default = default
or_if_empty (x ∷ xs) default = x ∷ xs

module _ (host : Host) where
  -- `cfg.index_dir.to_lowercase().contains("src-tauri")`
  abbrev pub in_source : Text → Bool
  in_source dir = contains (host.lower dir) (codes "src-tauri")

  unfoldable pub redirect : BackendConfig → BackendConfig
  redirect cfg =
      if in_source cfg.index_dir then record cfg { index_dir = host.default_index_dir } else cfg

  -- The repairs of what was read, in order.
  unfoldable pub fill : BackendConfig → BackendConfig
  fill cfg = record cfg {
    search_mode = if host.is_blank cfg.search_mode then codes "inverted" else cfg.search_mode;
    scan_roots = or_if_empty cfg.scan_roots host.default_scan_roots;
    exclude_patterns = or_if_empty cfg.exclude_patterns default_exclude_patterns;
    index_dir = if host.is_blank cfg.index_dir then host.default_index_dir else cfg.index_dir;
    path_max_len = if cfg.path_max_len == 0 then 80 else cfg.path_max_len;
  }

  unfoldable pub repair : BackendConfig → BackendConfig
  unfolding fill redirect
  repair cfg = redirect (fill cfg)

  -- Whether the file was written, and the file then.
  unfoldable pub write_config : BackendConfig → Store → Bool × Store
  unfolding redirect
  write_config cfg store =
      if host.has_dir
      then if host.can_write then (true, some (host.print (redirect cfg))) else (false, store)
      else (false, store)

  abbrev pub read_text : Option BackendConfig → Option BackendConfig
  read_text none = none
  read_text (some cfg) = some (repair cfg)

  abbrev pub written : BackendConfig → Bool × Store → Option BackendConfig × Store
  written cfg (true, store) = (some cfg, store)
  written cfg (false, store) = (none, store)

  -- `none` is an error. A file that is not there is made from the defaults.
  abbrev read_store : Store → Option BackendConfig × Store
  read_store none = written (default_config host) (write_config (default_config host) none)
  read_store (some text) =
      if host.can_read then (read_text (host.parse text), some text) else (none, some text)

  unfoldable pub read_config : Store → Option BackendConfig × Store
  unfolding write_config repair
  read_config store = if host.has_dir then read_store store else (none, store)

  -- A file that cannot be removed is left as it is, without an error.
  abbrev pub removed : Store → Store
  removed none = none
  removed (some text) = if host.can_remove then none else some text

  unfoldable pub reset_config : Store → Option BackendConfig × Store
  reset_config store = if host.has_dir then read_config (removed store) else (none, store)

-- `u32`
unfoldable pub read_u32 : Value → Option ℕ
read_u32 (number (fin (pos n) zero)) = if ltb n (2 ^ 32) then some n else none
read_u32 _ = none

-- `#[serde(default = "…")]`
abbrev pub or_default_value {ℓ} : {A : Type ℓ} → (Value → Option A) → A → Value → Option A
or_default_value read default undefined = some default
or_default_value read default null = read null
or_default_value read default (number x) = read (number x)
or_default_value read default (string t) = read (string t)
or_default_value read default (boolean b) = read (boolean b)
or_default_value read default (array vs) = read (array vs)
or_default_value read default (object ms) = read (object ms)

-- The argument `cfg` of the command, read as the struct.
unfoldable pub read_app_config : Host → Value → Option BackendConfig
unfolding read_string read_bool read_list read_u32
read_app_config host v = do
  mode ← or_default_value read_string (codes "inverted") (get "search_mode" v)
  roots ← or_default_value read_list host.default_scan_roots (get "scan_roots" v)
  patterns ← or_default_value read_list default_exclude_patterns (get "exclude_patterns" v)
  dir ← or_default_value read_string host.default_index_dir (get "index_dir" v)
  len ← or_default_value read_u32 80 (get "path_max_len" v)
  auto ← or_default_value read_bool true (get "auto_scan_enabled" v)
  some (record {
    search_mode = mode;
    scan_roots = roots;
    exclude_patterns = patterns;
    index_dir = dir;
    path_max_len = len;
    auto_scan_enabled = auto;
  })

-- The answer as the front end reads it.
abbrev pub sent_config : BackendConfig → AppConfig
sent_config cfg = record {
  search_mode = cfg.search_mode;
  scan_roots = cfg.scan_roots;
  exclude_patterns = cfg.exclude_patterns;
  index_dir = cfg.index_dir;
  path_max_len = some (pos cfg.path_max_len);
  auto_scan_enabled = some cfg.auto_scan_enabled;
}
