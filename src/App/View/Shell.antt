-- ===== src/App/View/Shell.antt =====
-- `Header` and the shell that `App` of src/App.tsx returns: the brand, the menu of the themes, the
-- sidebar and the page. `App` makes the function `Header` anew at each render, and React takes it for
-- another component: the header with its menu is unmounted, and a new one, whose menu is closed, is
-- mounted.
pub mod Menu
use search_every.Prelude.{
  ℕ, List, [], ◌∷◌, Text, Bool, true, false, ◌&&◌, not, Option, none, some, codes, if◌then◌else◌,
}
use search_every.Prelude.Number.{Number}
use search_every.Types.{ThemeKey}
use search_every.App.State.{App}
use search_every.App.View.{Browser}
use search_every.App.View.Pages.{NavItem, sidebar}
use search_every.App.View.HookCalls.{HookCall, hooks_of}
use search_every.App.View.Forms.{PageView, render_content}
use search_every.Components.ThemeDropdown.{ThemeOption, Dropdown, menu, Click, on_click, same_theme}

-- The state of `App`, that of the menu in its header, the attribute `data-theme` of the document, and
-- whether React still has the program mounted: an exception that a render throws unmounts it for good.
pub record Shell : Type 0 where
  pub app : App
  pub menu_open : Bool
  pub data_theme : ThemeKey
  pub mounted : Bool

-- The first render, with its effects.
abbrev pub opened_shell : App → Shell
opened_shell s = record { app = s; menu_open = false; data_theme = s.theme; mounted = true }

pub record HeaderView : Type 0 where
  pub logo : Text
  pub title : Text
  pub menu_items : List (ThemeOption × Bool)

pub record ShellView : Type 0 where
  pub header : HeaderView
  pub nav : List NavItem
  pub main : PageView

abbrev pub dropdown_of : Shell → Dropdown
dropdown_of sh = record { menu_open = sh.menu_open; theme = sh.app.theme }

unfoldable pub header : Shell → HeaderView
header sh = record {
  logo = codes "SE";
  title = codes "SearchEvery";
  menu_items = menu (dropdown_of sh);
}

abbrev pub shell_of : Shell → Option PageView → Option ShellView
shell_of sh none = none
shell_of sh (some v) = some (record { header = header sh; nav = sidebar sh.app; main = v })

unfoldable pub render : (ℕ → ℕ → Number) → Browser → Text → Shell → Option ShellView
unfolding header
render quotient b last_focus sh =
    if sh.mounted then shell_of sh (render_content quotient b last_focus sh.app) else none

-- A click that the menu hears, and a render of `App` with another state.
pub data ShellEvent : Type 0 where
  clicked : Click → ShellEvent
  rendered : App → ShellEvent

-- `useEffect(() => document.documentElement.setAttribute('data-theme', theme), [theme])`
abbrev pub data_theme_after : ThemeKey → ThemeKey → ThemeKey → ThemeKey
data_theme_after old new shown = if same_theme old new then shown else new

abbrev pub with_dropdown : Shell → Dropdown → Shell
with_dropdown sh d = record {
  app = record sh.app { theme = d.theme };
  menu_open = d.menu_open;
  data_theme = data_theme_after sh.app.theme d.theme sh.data_theme;
  mounted = sh.mounted;
}

-- `accepts` is React's test of the hooks of a render against those of the render before.
module _ (accepts : List HookCall → List HookCall → Bool) where
  unfoldable pub shell_step : ShellEvent → Shell → Shell
  shell_step (clicked c) sh = with_dropdown sh (on_click c (dropdown_of sh))
  shell_step (rendered s) sh = record {
    app = s;
    menu_open = false;
    data_theme = data_theme_after sh.app.theme s.theme sh.data_theme;
    mounted = sh.mounted && accepts (hooks_of sh.app) (hooks_of s);
  }

  unfoldable pub run_shell : List ShellEvent → Shell → Shell
  unfolding shell_step
  run_shell [] sh = sh
  run_shell (e ∷ es) sh = run_shell es (shell_step e sh)
