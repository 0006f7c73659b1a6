-- ===== src/Components/ThemeDropdown.antt =====
-- src/components/ThemeDropdown.tsx and the list of src/constants/themes.ts: the menu of the themes.
-- The chosen theme is the state of the application; a click outside the component closes the menu.
pub mod Menu
use search_every.Prelude.{List, [], ◌∷◌, Text, Bool, true, false, not, codes, map, if◌then◌else◌}
use search_every.Types.{ThemeKey}

pub record ThemeOption : Type 0 where
  pub key : ThemeKey
  pub label : Text
  pub color : Text

abbrev pub option : ThemeKey → Text → Text → ThemeOption
option k l c = record { key = k; label = l; color = c }

abbrev pub theme_options : List ThemeOption
theme_options =
    option ThemeKey.eye (codes "护眼") (codes "#2ecc71")
    ∷ option ThemeKey.light (codes "明亮") (codes "#3A7AFE")
    ∷ option ThemeKey.dark (codes "暗黑") (codes "#6C5CE7")
    ∷ option ThemeKey.tech (codes "科技") (codes "#00e0ff")
    ∷ option ThemeKey.sky (codes "天蓝") (codes "#3A7AFE")
    ∷ option ThemeKey.purple (codes "暗紫") (codes "#8b5cf6")
    ∷ option ThemeKey.gray (codes "暗灰") (codes "#64748b")
    ∷ []

-- The values of the select element on the settings page of src/App.tsx.
abbrev pub settings_themes : List ThemeKey
settings_themes =
    ThemeKey.light ∷ ThemeKey.dark ∷ ThemeKey.eye ∷ ThemeKey.tech ∷ ThemeKey.sky ∷ ThemeKey.purple
    ∷ ThemeKey.gray ∷ []

-- `theme === opt.key`
abbrev pub same_theme : ThemeKey → ThemeKey → Bool
same_theme ThemeKey.light ThemeKey.light = true
same_theme ThemeKey.dark ThemeKey.dark = true
same_theme ThemeKey.eye ThemeKey.eye = true
same_theme ThemeKey.tech ThemeKey.tech = true
same_theme ThemeKey.sky ThemeKey.sky = true
same_theme ThemeKey.purple ThemeKey.purple = true
same_theme ThemeKey.gray ThemeKey.gray = true
same_theme _ _ = false

pub record Dropdown : Type 0 where
  pub menu_open : Bool
  pub theme : ThemeKey

-- The items with their check marks; a closed menu has none.
unfoldable pub menu : Dropdown → List (ThemeOption × Bool)
menu s =
    if s.menu_open
    then map (λ (o : ThemeOption). (o, same_theme s.theme o.key)) theme_options
    else []

-- A click on the button, on an item, elsewhere in the component, or outside it.
pub data Click : Type 0 where
  button : Click
  item : ThemeOption → Click
  inside : Click
  outside : Click

unfoldable pub on_click : Click → Dropdown → Dropdown
on_click button s = record s { menu_open = not s.menu_open }
on_click (item o) s = record { menu_open = false; theme = o.key }
on_click inside s = s
on_click outside s = record s { menu_open = false }
