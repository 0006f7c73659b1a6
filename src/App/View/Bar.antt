-- ===== src/App/View/Bar.antt =====
-- What stands above the results on the search page of src/App.tsx: the query, the list of file types
-- and the tabs.
use search_every.Prelude.{List, [], ◌∷◌, ◌++◌, Text, Bool, true, false, codes}
use search_every.App.State.{App, ViewMode, table, card, SortBy, SortDir, asc, desc}
use search_every.App.Controls.{Button, disabled, ext_options}

-- A button, and whether it is disabled.
abbrev pub button_view : App → Button → Button × Bool
button_view s b = (b, disabled b s)

-- A tab, and whether it is the active one, which alone takes the focus.
pub record Tab : Type 0 where
  pub label : Text
  pub active : Bool

abbrev same_view : ViewMode → ViewMode → Bool
same_view table table = true
same_view card card = true
same_view _ _ = false

abbrev same_sort : SortBy → SortBy → Bool
same_sort SortBy.score SortBy.score = true
same_sort SortBy.time SortBy.time = true
same_sort SortBy.size SortBy.size = true
same_sort _ _ = false

abbrev dir_label : SortDir → Text
dir_label asc = codes "升序"
dir_label desc = codes "降序"

abbrev time_label : Bool → Text
time_label true = codes "时间显示：相对"
time_label false = codes "时间显示：绝对"

-- `lastFocus || '未知'`
abbrev focus_text : Text → Text
focus_text [] = codes "焦点：未知"
focus_text (c ∷ t) = codes "焦点：" ++ (c ∷ t)

-- What stands above the results; the first argument of `search_bar` is the trace of the focus.
pub record SearchBar : Type 0 where
  pub query : Text
  pub search_button : Button × Bool
  pub status : Text
  pub focus : Text
  pub ext_filter : Text
  pub ext_filters : List Text
  pub views : List Tab
  pub sorts : List Tab
  pub direction : Text
  pub time_shown : Text

unfoldable pub search_bar : Text → App → SearchBar
search_bar last_focus s = record {
  query = s.query;
  search_button = button_view s Button.search_now;
  status = s.msg;
  focus = focus_text last_focus;
  ext_filter = s.ext_filter;
  ext_filters = ext_options;
  views =
      (record { label = codes "表格"; active = same_view s.view_mode table })
      ∷ (record { label = codes "卡片"; active = same_view s.view_mode card })
      ∷ [];
  sorts =
      (record { label = codes "综合"; active = same_sort s.sort_by SortBy.score })
      ∷ (record { label = codes "时间"; active = same_sort s.sort_by SortBy.time })
      ∷ (record { label = codes "大小"; active = same_sort s.sort_by SortBy.size })
      ∷ [];
  direction = dir_label s.sort_dir;
  time_shown = time_label s.show_relative_time;
}
