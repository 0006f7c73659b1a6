-- ===== src/Tests/Views.antt =====
-- Runs of the pages and the menu, and the theorems about them at such runs.
use mathlib.Core.List.{Memᴰ, Perm}
use search_every.Prelude.{
  ℕ, zero, suc, ◌+◌, ◌*◌, ◌≤◌, List, [], ◌∷◌, Text, Bool, ◌==◌, arith, true, false, none, some,
  codes, map, filter, length, ◌≡◌, ◌↔◌, ◌⊎◌, refl, All,
}
use search_every.Prelude.Int.{pos}
use search_every.Prelude.Number.{Number, whole}
use search_every.Types.{FileMeta, DupGroup, SearchResult, ThemeKey, AppConfig, PageKey}
use search_every.Services.Invoke.{Reply, resolves, rejects, silent}
use search_every.Services.Api.{Command, search_query}
use search_every.App.State.{App, initial, gives}
use search_every.App.Search.{request_of, on_search}
use search_every.App.Call.{
  After, run_search, run_save_config, run_index, run_scan_and_index, run_delete, run_reset_config,
  run_scan, run_duplicates,
}
use search_every.App.Call.Search.{SearchEnds, search_limit, run_search_ends}
use search_every.App.Call.Limits.{EndsWithin, attempts}
use search_every.App.Call.Jobs.{jobs_end}
use search_every.App.View.{Browser, SearchView, search_view}
use search_every.App.View.Results.{search_view_found}
use search_every.App.View.Pages.{same_page}
use search_every.App.View.HookCalls.{HookCall, hooks_of, app_hooks, hooks_iff}
use search_every.App.View.Shown.{key_of}
use search_every.App.View.Shell.{
  ShellView, ShellEvent, clicked, rendered, opened_shell, render, run_shell, shell_step,
}
use search_every.App.View.Shell.Menu.{marked_themes, render_total}
use search_every.Components.ThemeDropdown.{
  ThemeOption, theme_options, settings_themes, same_theme, on_click, button, item, option,
}
use search_every.Components.ThemeDropdown.Menu.{marked, opened, on_click-marked}

abbrev seven : Text → Number
seven t = whole 7

abbrev page : App
page = initial true (pos 60)

abbrev result : Text → SearchResult
result name = record {
  path = name;
  name = name;
  ext = [];
  score = pos 1;
  size = none;
  modified_ts = none;
  summary = none;
}

page_in_tauri : page.in_tauri ≡ true
unfolding initial
page_in_tauri = refl

-- The first attempt is lost, the second is answered.
abbrev at_second_try : Command → ℕ → Reply (List SearchResult)
at_second_try c zero = silent
at_second_try c (suc k) = resolves 40 (result (codes "a") ∷ [])

run_search_ends_example :
    let c = search_query (request_of seven page) in
    (a : After) × (run_search seven 0 at_second_try page ≡ some a)
    × SearchEnds (at_second_try c 0) (at_second_try c 1) page a.app
    × (a.elapsed ≤ 2 * search_limit)
run_search_ends_example = run_search_ends seven 0 at_second_try page page_in_tauri

abbrev browser : Browser
browser = record {
  case_map = record { lower = λ t. t; canon = λ c. c };
  engine = λ pattern flags. none;
  locale = λ ms. none;
  now = pos 0;
}

search_view_found_example :
    (v : SearchView) × (search_view browser
        (on_search (gives (result (codes "a") ∷ result (codes "b") ∷ [])) page)
      ≡ some v)
    × Perm
        (map (λ row. row.title) v.rows)
        (map (λ q. q.path) (result (codes "a") ∷ result (codes "b") ∷ []))
    × All (λ row. (row.selected ≡ true) ↔ (row.title ≡ (result (codes "a")).path)) v.rows
search_view_found_example =
    search_view_found browser page (result (codes "a")) (result (codes "b") ∷ [])

on_click-marked_example :
    (o : ThemeOption) × Memᴰ o theme_options
    × (o.key ≡ ThemeKey.sky)
    × (on_click (item o) (opened ThemeKey.eye) ≡ record { menu_open = false; theme = ThemeKey.sky })
    × (marked (on_click button (on_click (item o) (opened ThemeKey.eye))) ≡ (o, true) ∷ [])
    × (length (filter (same_theme ThemeKey.sky) settings_themes) ≡ 1)
on_click-marked_example = on_click-marked ThemeKey.sky ThemeKey.eye

-- The page is a state with a query that is no expression, and with a result.
abbrev with_result : App
with_result = record page { query = codes "/[/"; results = result (codes "a[b") ∷ [] }

abbrev index_shown : App
index_shown = record page { page = PageKey.index }

-- The menu is opened and sky is chosen; it is opened again, and a result is found meanwhile.
abbrev some_events : List ShellEvent
some_events =
    clicked button
    ∷ clicked (item (option ThemeKey.sky [] []))
    ∷ clicked button
    ∷ rendered (record with_result { theme = ThemeKey.sky })
    ∷ []

abbrev as_many : List HookCall → List HookCall → Bool
as_many old new = length old == length new

as_many_same : (hooks : List HookCall) → as_many hooks hooks ≡ true
as_many_same hooks = ground arith

render_total_example :
    let sh = run_shell as_many some_events (opened_shell with_result) in
    (v : ShellView) × (render (λ current total. whole 0) browser [] sh ≡ some v)
    × (key_of v.main ≡ sh.app.page)
    × (map (λ i. i.key) (filter (λ i. i.active) v.nav) ≡ key_of v.main ∷ [])
    × ((v.header.menu_items ≡ []) ⊎ (marked_themes v.header.menu_items ≡ sh.app.theme ∷ []))
    × (sh.data_theme ≡ sh.app.theme)
render_total_example =
    render_total as_many as_many_same (λ current total. whole 0) browser [] with_result some_events
      (tt, (tt, (tt, (refl, tt))))

-- The index page is turned to, and nothing is shown any more.
unmounted :
    render
      (λ current total. whole 0)
      browser
      []
      (run_shell as_many (rendered index_shown ∷ []) (opened_shell page))
    ≡ none
unfolding render run_shell shell_step hooks_of app_hooks initial
unmounted = refl

-- A back end that is silent, and one that answers with an error.
abbrev mute : Command → ℕ → Reply (Unit {0})
mute c k = silent

abbrev refusing : Command → ℕ → Reply AppConfig
refusing c k = rejects 5 (codes "no")

-- A back end that finds nothing, at once.
abbrev no_files : Command → ℕ → Reply (List FileMeta)
no_files c n = resolves 5 []

abbrev no_groups : Command → ℕ → Reply (List DupGroup)
no_groups c n = resolves 5 []

jobs_end_example :
    EndsWithin (attempts 1 30000) (run_save_config 1 mute page)
    × EndsWithin (attempts 1 30000) (run_reset_config 1 refusing page)
    × EndsWithin (attempts 1 300000) (run_index 1 mute page)
    × EndsWithin (attempts 1 600000) (run_scan_and_index 1 mute page)
    × EndsWithin (attempts 1 300000) (run_delete 1 mute (codes "a") page)
    × EndsWithin (attempts 1 120000) (run_scan 1 (gives tt) no_files page)
    × EndsWithin
        (attempts 1 120000 + attempts 1 60000)
        (run_duplicates 1 (gives tt) no_files no_groups page)
jobs_end_example =
    jobs_end 1 page page_in_tauri mute refusing no_files no_groups (gives tt) (codes "a")

hooks_iff_example :
    (hooks_of page ≡ hooks_of index_shown)
    ↔ (same_page page.page PageKey.index ≡ same_page index_shown.page PageKey.index)
hooks_iff_example = hooks_iff page index_shown
