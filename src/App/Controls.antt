-- ===== src/App/Controls.antt =====
-- The controls of src/App.tsx: keys, buttons and inputs, and when a button is disabled.
use search_every.Prelude.{
  List, [], ◌∷◌, Text, Bool, true, false, not, ◌||◌, Option, none, some, codes, map, if◌then◌else◌,
}
use search_every.Prelude.Int.{ℤ}
use search_every.Prelude.Number.{Number}
use search_every.Types.{PageKey, ThemeKey, SearchResult}
use search_every.Services.Api.{Command, open_location, start_auto_scan_now}
use search_every.App.State.{App, ViewMode, table, card, SortBy, SortDir, asc, desc, Lang}
use search_every.App.Search.{do_search}

pub data Key : Type 0 where
  enter arrow_left arrow_right home end other : Key

-- `onKeyDown` of the query input
unfoldable pub on_query_key : (Text → Number) → Key → App → App × Option Command
on_query_key number enter s = do_search number s
on_query_key number arrow_left s = (s, none)
on_query_key number arrow_right s = (s, none)
on_query_key number home s = (s, none)
on_query_key number end s = (s, none)
on_query_key number other s = (s, none)

abbrev other_view : ViewMode → ViewMode
other_view table = card
other_view card = table

-- `onKeyDown` of the tabs that choose the view
unfoldable pub on_view_key : Key → App → App
on_view_key arrow_left s = record s { view_mode = other_view s.view_mode }
on_view_key arrow_right s = record s { view_mode = other_view s.view_mode }
on_view_key home s = record s { view_mode = table }
on_view_key end s = record s { view_mode = card }
on_view_key enter s = s
on_view_key other s = s

abbrev other_dir : SortDir → SortDir
other_dir asc = desc
other_dir desc = asc

-- The inputs and buttons that set one variable. No input sets `minSize` or `maxSize`.
pub data Control : Type 0 where
  set_query set_ext_filter set_roots set_exclude set_index_dir : Text → Control
  set_view : ViewMode → Control
  set_sort : SortBy → Control
  toggle_dir toggle_time : Control
  set_page : PageKey → Control
  set_theme : ThemeKey → Control
  set_lang : Lang → Control
  set_content_parse set_dup_hash set_dup_name set_auto_scan : Bool → Control
  set_path_max_len : ℤ → Control
  select : SearchResult → Control
  copied : Bool → Control

unfoldable pub on_control : Control → App → App
on_control (set_query t) s = record s { query = t }
on_control (set_ext_filter t) s = record s { ext_filter = t }
on_control (set_roots t) s = record s { roots = t }
on_control (set_exclude t) s = record s { exclude = t }
on_control (set_index_dir t) s = record s { index_dir = t }
on_control (set_view v) s = record s { view_mode = v }
on_control (set_sort b) s = record s { sort_by = b }
on_control toggle_dir s = record s { sort_dir = other_dir s.sort_dir }
on_control toggle_time s = record s { show_relative_time = not s.show_relative_time }
on_control (set_page p) s = record s { page = p }
on_control (set_theme t) s = record s { theme = t }
on_control (set_lang l) s = record s { lang = l }
on_control (set_content_parse b) s = record s { enable_content_parse = b }
on_control (set_dup_hash b) s = record s { dup_include_hash = b }
on_control (set_dup_name b) s = record s { dup_include_name = b }
on_control (set_auto_scan b) s = record s { auto_scan_enabled = b }
on_control (set_path_max_len n) s = record s { path_max_len = n }
on_control (select r) s = record s { selected = some r }
on_control (copied true) s = record s { msg = codes "已复制路径" }
on_control (copied false) s = record s { msg = codes "复制失败" }

-- The values of the select element that fills in the list of extensions.
abbrev pub ext_options : List Text
ext_options = map codes (
    "" ∷ "pdf" ∷ "ofd" ∷ "doc,docx" ∷ "xls,xlsx" ∷ "ppt,pptx" ∷ "txt" ∷ "png,jpg,jpeg" ∷ "mp3,wav"
    ∷ "mp4,mkv" ∷ "gif,bmp,svg" ∷ "flac,m4a" ∷ "avi,mov,webm" ∷ "csv" ∷ "md,markdown" ∷ "rtf"
    ∷ "html,htm" ∷ "json" ∷ "xml" ∷ "zip,rar,7z" ∷ "log" ∷ [])

-- The buttons that are disabled outside of Tauri; the one that saves stands on two pages.
pub data Button : Type 0 where
  search_now save reset_defaults scan_and_index auto_scan detect_duplicates : Button
  choose_roots choose_index_dir run_diagnostics : Button

-- `disabled={busy || !inTauri}`, and `disabled={!inTauri}` for the last three
unfoldable pub disabled : Button → App → Bool
disabled choose_roots s = not s.in_tauri
disabled choose_index_dir s = not s.in_tauri
disabled run_diagnostics s = not s.in_tauri
disabled search_now s = s.busy || not s.in_tauri
disabled save s = s.busy || not s.in_tauri
disabled reset_defaults s = s.busy || not s.in_tauri
disabled scan_and_index s = s.busy || not s.in_tauri
disabled auto_scan s = s.busy || not s.in_tauri
disabled detect_duplicates s = s.busy || not s.in_tauri

-- The button of the detail panel.
unfoldable pub on_open_selected : App → Option SearchResult → Option Command
on_open_selected s none = none
on_open_selected s (some r) = if s.in_tauri then some (open_location r.path) else none

-- `if (inTauri) startAutoScanNow()`
unfoldable pub on_auto_scan : App → Option Command
on_auto_scan s = if s.in_tauri then some start_auto_scan_now else none
