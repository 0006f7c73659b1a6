-- ===== src/App/Settings.antt =====
-- The configuration in src/App.tsx: loading, saving and resetting it, and the folder dialogs.
pub mod RoundTrip
use search_every.Prelude.{
  ℕ, List, [], ◌∷◌, Text, Bool, true, false, Option, none, some, codes, if◌then◌else◌, join,
}
use search_every.Prelude.Int.{ℤ}
use search_every.Types.{AppConfig}
use search_every.Utils.Csv.{parse_csv}
use search_every.Utils.Size.{or_default}
use search_every.Services.Api.{Command, write_config, reset_config}
use search_every.App.State.{App, Answer, gives, throws, error_text}

-- `cfg.index_dir || 'indexes/main'`
abbrev pub or_main : Text → Text
or_main [] = codes "indexes/main"
or_main (c ∷ s) = c ∷ s

-- The assignments that loading and resetting share.
unfoldable pub apply_config : AppConfig → App → App
apply_config cfg s = record s {
  index_dir = or_main cfg.index_dir;
  roots = join (codes ", ") cfg.scan_roots;
  exclude = join (codes ", ") cfg.exclude_patterns;
  path_max_len = or_default cfg.path_max_len s.path_max_len;
  auto_scan_enabled = or_default cfg.auto_scan_enabled s.auto_scan_enabled;
}

-- The effect that reads the configuration at the start; a failure is ignored.
unfoldable pub on_config_loaded : Answer AppConfig → App → App
unfolding apply_config
on_config_loaded (gives cfg) s = record (apply_config cfg s) { msg = codes "已加载默认配置" }
on_config_loaded (throws e) s = s

-- The object that `doSaveConfig` writes.
unfoldable pub config_of : App → AppConfig
config_of s = record {
  search_mode = codes "inverted";
  scan_roots = parse_csv s.roots;
  exclude_patterns = parse_csv s.exclude;
  index_dir = s.index_dir;
  path_max_len = some s.path_max_len;
  auto_scan_enabled = some s.auto_scan_enabled;
}

unfoldable pub do_save_config : App → App × Option Command
do_save_config s =
    if s.in_tauri
    then (record s { busy = true; msg = codes "保存配置中..." }, some (write_config (config_of s)))
    else (s, none)

unfoldable pub on_save_config : Answer (Unit {0}) → App → App
on_save_config (gives u) s = record s { msg = codes "默认配置已保存"; busy = false }
on_save_config (throws e) s = record s { msg = error_text e (codes "保存失败"); busy = false }

unfoldable pub do_reset_config : App → App × Option Command
do_reset_config s =
    if s.in_tauri
    then (record s { busy = true; msg = codes "恢复默认配置中..." }, some reset_config)
    else (s, none)

unfoldable pub on_reset_config : Answer AppConfig → App → App
unfolding apply_config
on_reset_config (gives cfg) s = record (apply_config cfg s) { msg = codes "已恢复默认配置"; busy = false }
on_reset_config (throws e) s = record s { msg = error_text e (codes "恢复默认失败"); busy = false }

-- What the dialog returns: a list of folders, one folder, or nothing.
pub data Selection : Type 0 where
  many : List Text → Selection
  one : Text → Selection
  cancelled : Selection

unfoldable pub on_pick_roots : Answer Selection → App → App
on_pick_roots (gives (many dirs)) s = record s {
  roots = join (codes ", ") dirs;
  msg = codes "已选择目录根";
}
on_pick_roots (gives (one dir)) s = record s { roots = dir; msg = codes "已选择目录根" }
on_pick_roots (gives cancelled) s = record s { msg = codes "已选择目录根" }
on_pick_roots (throws e) s = record s { msg = error_text e (codes "选择目录根失败") }

unfoldable pub on_pick_index_dir : Answer Selection → App → App
on_pick_index_dir (gives (one dir)) s = record s { index_dir = dir; msg = codes "已选择索引目录" }
on_pick_index_dir (gives (many dirs)) s = s
on_pick_index_dir (gives cancelled) s = s
on_pick_index_dir (throws e) s = record s { msg = error_text e (codes "选择索引目录失败") }
