-- ===== src/App/View.antt =====
-- The search page of src/App.tsx: what it shows of the state. The table and the cards show the same
-- fields of each result. `none` is an exception that ends the rendering.
pub mod Results
pub mod Pages
pub mod Bar
pub mod About
pub mod Forms
pub mod Shown
pub mod Shell
pub mod HookCalls
use search_every.Prelude.{
  ℕ, List, [], ◌∷◌, ◌++◌, Text, Bool, true, false, Option, none, some, codes, text_eq,
  if◌then◌else◌,
}
use search_every.Prelude.Int.{ℤ}
use search_every.Prelude.Number.{whole, abs, to_fixed}
use search_every.Types.{SearchResult}
use search_every.Utils.Highlight.{CaseMap, Engine, Element, highlight}
use search_every.Utils.Path.{shorten_path}
use search_every.Utils.Size.{format_bytes, no_opts, sign}
use search_every.Utils.Date.{Locale, Timestamp, missing, at, format_ts, format_relative_ts}
use search_every.App.State.{App, ViewMode}
use search_every.App.Results.{sorted_results}

-- What the host gives: the case mappings, the engine of regular expressions, the print of dates, and
-- the present time.
pub record Browser : Type 0 where
  pub case_map : CaseMap
  pub engine : Engine
  pub locale : Locale
  pub now : ℤ

infixl 5 ◌>>=◌
abbrev ◌>>=◌ : {A B : Type 0} → Option A → (A → Option B) → Option B
none >>= f = none
some a >>= f = f a

-- A row of the table, or a card; `title` is the tooltip.
pub record ResultView : Type 0 where
  pub name : Element
  pub summary : Option Element
  pub title : Text
  pub path : Text
  pub ext : Text
  pub score : Text
  pub size : Text
  pub time : Text
  pub selected : Bool

abbrev timestamp : Option ℤ → Timestamp
timestamp none = missing
timestamp (some ts) = at ts

abbrev pub shown_time : Browser → App → Option ℤ → Text
shown_time b s ts =
    if s.show_relative_time
    then format_relative_ts b.locale b.now (timestamp ts)
    else format_ts b.locale (timestamp ts)

abbrev pub shown_size : Option ℕ → Text
shown_size none = codes "-"
shown_size (some n) = format_bytes (whole n) no_opts

-- `score.toFixed(4)`
abbrev pub shown_score : ℤ → Text
shown_score score = sign score ++ to_fixed (abs score) 149 4

-- `selected?.path === path`
abbrev pub has_path : Option SearchResult → Text → Bool
has_path none path = false
has_path (some r) path = text_eq r.path path

-- `r.summary && highlight(r.summary, query)`
abbrev pub shown_summary : Browser → Text → Option Text → Option (Option Element)
shown_summary b query none = some none
shown_summary b query (some []) = some none
shown_summary b query (some (c ∷ text)) = do
  e ← highlight b.case_map b.engine (c ∷ text) query
  some (some e)

-- The row, from its highlighted texts.
abbrev pub row_of : Browser → App → SearchResult → Element → Option Element → ResultView
row_of b s r name summary = record {
  name = name;
  summary = summary;
  title = r.path;
  path = shorten_path r.path s.path_max_len;
  ext = r.ext;
  score = shown_score r.score;
  size = shown_size r.size;
  time = shown_time b s r.modified_ts;
  selected = has_path s.selected r.path;
}

unfoldable pub result_view : Browser → App → SearchResult → Option ResultView
result_view b s r = do
  name ← highlight b.case_map b.engine r.name s.query
  summary ← shown_summary b s.query r.summary
  some (row_of b s r name summary)

unfoldable pub result_views : Browser → App → List SearchResult → Option (List ResultView)
unfolding result_view
result_views b s [] = some []
result_views b s (r ∷ rs) = do
  row ← result_view b s r
  rows ← result_views b s rs
  some (row ∷ rows)

-- The panel beside the results; no preview is the placeholder.
pub record Detail : Type 0 where
  pub name : Text
  pub ext : Text
  pub title : Text
  pub path : Text
  pub score : Text
  pub size : Text
  pub time : Text
  pub preview : Option Element

abbrev pub detail_of : Browser → App → SearchResult → Option Element → Detail
detail_of b s r preview = record {
  name = r.name;
  ext = r.ext;
  title = r.path;
  path = shorten_path r.path s.path_max_len;
  score = shown_score r.score;
  size = shown_size r.size;
  time = shown_time b s r.modified_ts;
  preview = preview;
}

unfoldable pub detail_view : Browser → App → Option SearchResult → Option (Option Detail)
detail_view b s none = some none
detail_view b s (some r) = do
  preview ← shown_summary b s.query r.summary
  some (some (detail_of b s r preview))

pub record SearchView : Type 0 where
  pub mode : ViewMode
  pub rows : List ResultView
  pub no_results : Bool
  pub detail : Option Detail

-- `results.length === 0`
abbrev is_empty : List SearchResult → Bool
is_empty [] = true
is_empty (r ∷ rs) = false

abbrev pub view_of : App → List ResultView → Option Detail → SearchView
view_of s rows detail = record {
  mode = s.view_mode;
  rows = rows;
  no_results = is_empty s.results;
  detail = detail;
}

unfoldable pub search_view : Browser → App → Option SearchView
unfolding result_views detail_view
search_view b s = do
  rows ← result_views b s (sorted_results s)
  detail ← detail_view b s s.selected
  some (view_of s rows detail)
