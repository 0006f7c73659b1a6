-- ===== src/Components/ThemeDropdown/Menu.antt =====
-- The themes that the two menus offer.
use mathlib.Core.List.{Memᴰ}
use search_every.Prelude.{ℕ, List, [], ◌∷◌, Bool, true, false, filter, length, get_or, ◌≡◌, refl}
use search_every.Types.{ThemeKey}
use search_every.Components.ThemeDropdown.{
  ThemeOption, option, theme_options, settings_themes, same_theme, Dropdown, menu, on_click, button,
  item,
}

-- The items of the open menu with a check mark.
abbrev pub marked : Dropdown → List (ThemeOption × Bool)
marked s = filter (λ (i : ThemeOption × Bool). i.1) (menu s)

abbrev pub opened : ThemeKey → Dropdown
opened t = record { menu_open = true; theme = t }

abbrev option_at : ℕ → ThemeOption
option_at n = get_or theme_options n (option ThemeKey.gray [] [])

-- Each theme can be chosen by one item of the menu: the item closes the menu, and where the menu is
-- opened again, this item alone has the check mark. The settings page offers each theme once too.
pub on_click-marked :
    (k t : ThemeKey)
    → (o : ThemeOption) × Memᴰ o theme_options
      × (o.key ≡ k)
      × (on_click (item o) (opened t) ≡ record { menu_open = false; theme = k })
      × (marked (on_click button (on_click (item o) (opened t))) ≡ (o, true) ∷ [])
      × (length (filter (same_theme k) settings_themes) ≡ 1)
unfolding menu on_click
on_click-marked ThemeKey.eye t = (option_at 0, Memᴰ.head refl, refl, refl, refl, refl)
on_click-marked ThemeKey.light t = (option_at 1, Memᴰ.tail (Memᴰ.head refl), refl, refl, refl, refl)
on_click-marked ThemeKey.dark t =
    (option_at 2, Memᴰ.tail (Memᴰ.tail (Memᴰ.head refl)), refl, refl, refl, refl)
on_click-marked ThemeKey.tech t =
    (option_at 3, Memᴰ.tail (Memᴰ.tail (Memᴰ.tail (Memᴰ.head refl))), refl, refl, refl, refl)
on_click-marked ThemeKey.sky t = (
  option_at 4,
  Memᴰ.tail (Memᴰ.tail (Memᴰ.tail (Memᴰ.tail (Memᴰ.head refl)))),
  refl,
  refl,
  refl,
  refl,
)
on_click-marked ThemeKey.purple t = (
  option_at 5,
  Memᴰ.tail (Memᴰ.tail (Memᴰ.tail (Memᴰ.tail (Memᴰ.tail (Memᴰ.head refl))))),
  refl,
  refl,
  refl,
  refl,
)
on_click-marked ThemeKey.gray t = (
  option_at 6,
  Memᴰ.tail (Memᴰ.tail (Memᴰ.tail (Memᴰ.tail (Memᴰ.tail (Memᴰ.tail (Memᴰ.head refl)))))),
  refl,
  refl,
  refl,
  refl,
)
