-- ===== src/App/View/Forms.antt =====
-- The pages of src/App.tsx as wholes: the values of their inputs, their buttons with what disables
-- them, and the page that `renderContent` chooses.
use search_every.Prelude.{
  ℕ, List, [], ◌∷◌, ◌++◌, Text, Bool, Option, none, some, codes, map, truthy, if◌then◌else◌,
}
use search_every.Prelude.Decimal.{show}
use search_every.Prelude.Int.{ℤ}
use search_every.Prelude.Number.{Number}
use search_every.Types.{PageKey, ThemeKey, DiagnosticsReport}
use search_every.Utils.Path.{shorten_path}
use search_every.Components.ThemeDropdown.{settings_themes}
use search_every.App.State.{App, Lang}
use search_every.App.Controls.{Button}
use search_every.App.View.About.{AboutView, about_view}
use search_every.App.View.Bar.{button_view, SearchBar, search_bar}
use search_every.App.View.{Browser, SearchView, search_view}
use search_every.App.View.Pages.{
  Progress, DiagnosticsView, GroupView, progress, scanned_count, scanning_folder, group_views,
  diagnostics_view,
}

pub record IndexView : Type 0 where
  pub status : Text
  pub roots : Text
  pub exclude : Text
  pub index_dir : Text
  pub content_parse : Bool
  pub buttons : List (Button × Bool)
  pub progress : Option Progress
  pub scanned : Text
  pub diag : Option DiagnosticsView

-- ` · 正在扫描：…`, where it is there
abbrev with_folder : Text → Option Text → Text
with_folder label none = []
with_folder label (some d) = label ++ d

abbrev shown_diag : Option DiagnosticsReport → Option DiagnosticsView
shown_diag none = none
shown_diag (some d) = some (diagnostics_view d)

unfoldable pub index_view : (ℕ → ℕ → Number) → App → IndexView
index_view quotient s = record {
  status = s.msg;
  roots = s.roots;
  exclude = s.exclude;
  index_dir = s.index_dir;
  content_parse = s.enable_content_parse;
  buttons = map (button_view s) (
      Button.choose_roots ∷ Button.choose_index_dir ∷ Button.scan_and_index ∷ Button.save
      ∷ Button.reset_defaults ∷ Button.auto_scan ∷ Button.run_diagnostics ∷ []);
  progress = progress quotient s;
  scanned =
      codes "已扫描文件："
      ++ (show (scanned_count s) ++ with_folder (codes " · 正在扫描：") (scanning_folder s));
  diag = shown_diag s.diag;
}

pub record DupView : Type 0 where
  pub status : Text
  pub by_hash : Bool
  pub by_name : Bool
  pub detect : Button × Bool
  pub waiting : Option Text
  pub groups : List GroupView

-- `msg || '重复文件'`
abbrev or_title : Text → Text
or_title [] = codes "重复文件"
or_title (c ∷ t) = c ∷ t

-- `scanDir ? shortenPath(scanDir, pathMaxLen) : ''`
abbrev current_folder : App → Option Text
current_folder s = if truthy s.scan_dir then some (shorten_path s.scan_dir s.path_max_len) else none

abbrev waiting_text : App → Option Text
waiting_text s =
    if s.busy
    then some (
        codes "正在扫描重复文件，请稍候… 已扫描："
        ++ (show s.scan_count ++ with_folder (codes " · 当前目录：") (current_folder s)))
    else none

-- No group is the text that there is none.
unfoldable pub dup_view : App → DupView
dup_view s = record {
  status = or_title s.msg;
  by_hash = s.dup_include_hash;
  by_name = s.dup_include_name;
  detect = button_view s Button.detect_duplicates;
  waiting = waiting_text s;
  groups = group_views s;
}

pub record SettingsView : Type 0 where
  pub theme : ThemeKey
  pub themes : List ThemeKey
  pub lang : Lang
  pub path_max_len : ℤ
  pub save : Button × Bool
  pub preview : Text
  pub auto_scan : Bool

unfoldable pub settings_view : App → SettingsView
settings_view s = record {
  theme = s.theme;
  themes = settings_themes;
  lang = s.lang;
  path_max_len = s.path_max_len;
  save = button_view s Button.save;
  preview =
      shorten_path (codes "D:/very/long/example/path/with/many/subfolders/file.txt") s.path_max_len;
  auto_scan = s.auto_scan_enabled;
}

pub data PageView : Type 0 where
  search_page : SearchBar → SearchView → PageView
  index_page : IndexView → PageView
  dup_page : DupView → PageView
  settings_page : SettingsView → PageView
  about_page : AboutView → PageView

abbrev pub on_search_page : SearchBar → Option SearchView → Option PageView
on_search_page bar none = none
on_search_page bar (some v) = some (search_page bar v)

-- `none` is an exception, which the search page alone could throw.
abbrev pub content : (ℕ → ℕ → Number) → Browser → Text → App → PageKey → Option PageView
content quotient b last_focus s PageKey.search =
    on_search_page (search_bar last_focus s) (search_view b s)
content quotient b last_focus s PageKey.index = some (index_page (index_view quotient s))
content quotient b last_focus s PageKey.dup = some (dup_page (dup_view s))
content quotient b last_focus s PageKey.settings = some (settings_page (settings_view s))
content quotient b last_focus s PageKey.about = some (about_page about_view)

unfoldable pub render_content : (ℕ → ℕ → Number) → Browser → Text → App → Option PageView
render_content quotient b last_focus s = content quotient b last_focus s s.page
