-- ===== src/App/View/Shown.antt =====
-- The page that `renderContent` of src/App.tsx shows, and the entry that the sidebar marks.
use search_every.Prelude.{ℕ, [], ◌∷◌, Text, some, map, filter, ◌≡◌, refl}
use search_every.Prelude.Number.{Number}
use search_every.Types.{PageKey}
use search_every.App.State.{App}
use search_every.App.View.{Browser}
use search_every.App.View.Pages.{nav_items, sidebar}
use search_every.App.View.About.{about_view}
use search_every.App.View.Bar.{search_bar}
use search_every.App.View.Forms.{
  PageView, search_page, index_page, dup_page, settings_page, about_page, index_view, dup_view,
  settings_view, content, render_content,
}
use search_every.App.View.Results.{search_view_total}

abbrev pub key_of : PageView → PageKey
key_of (search_page bar v) = PageKey.search
key_of (index_page v) = PageKey.index
key_of (dup_page v) = PageKey.dup
key_of (settings_page v) = PageKey.settings
key_of (about_page v) = PageKey.about

content_total :
    (quotient : ℕ → ℕ → Number) (b : Browser) (last_focus : Text) (s : App) (p : PageKey)
    → (v : PageView) × (content quotient b last_focus s p ≡ some v) × (key_of v ≡ p)
content_total quotient b last_focus s PageKey.search =
    let (v, h, rows) = search_view_total b s in
    (search_page (search_bar last_focus s) v, rw h refl, refl)
content_total quotient b last_focus s PageKey.index =
    (index_page (index_view quotient s), refl, refl)
content_total quotient b last_focus s PageKey.dup = (dup_page (dup_view s), refl, refl)
content_total quotient b last_focus s PageKey.settings =
    (settings_page (settings_view s), refl, refl)
content_total quotient b last_focus s PageKey.about = (about_page about_view, refl, refl)

pub nav_items_marks :
    (p : PageKey) → map (λ i. i.key) (filter (λ i. i.active) (nav_items p)) ≡ p ∷ []
nav_items_marks PageKey.search = refl
nav_items_marks PageKey.index = refl
nav_items_marks PageKey.dup = refl
nav_items_marks PageKey.settings = refl
nav_items_marks PageKey.about = refl

-- Every page can be rendered in every state, whatever is typed, found, and known of the regular
-- expressions: no exception is thrown, the page is the chosen one, and the sidebar marks its entry
-- alone.
pub render_content_total :
    (quotient : ℕ → ℕ → Number) (b : Browser) (last_focus : Text) (s : App)
    → (v : PageView) × (render_content quotient b last_focus s ≡ some v)
      × (map (λ i. i.key) (filter (λ i. i.active) (sidebar s)) ≡ key_of v ∷ [])
unfolding render_content sidebar
render_content_total quotient b last_focus s =
    let (v, h, k) = content_total quotient b last_focus s s.page in
    (v, h, rw k (nav_items_marks s.page))
