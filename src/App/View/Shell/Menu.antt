-- ===== src/App/View/Shell/Menu.antt =====
-- What the shell shows, after any run of clicks and renders.
use search_every.Prelude.{
  ℕ, List, [], ◌∷◌, ◌++◌, Text, Bool, true, false, some, map, filter, All, ◌≡◌, refl, sym, ◌∙◌, ◌⊎◌,
  subst, inl, inr, Bool-cases, arith,
}
use search_every.Prelude.Number.{Number}
use search_every.Types.{PageKey, ThemeKey}
use search_every.App.State.{App}
use search_every.App.View.{Browser}
use search_every.App.View.Pages.{sidebar, same_page}
use search_every.App.View.HookCalls.{HookCall, hooks_of, hooks_iff}
use search_every.App.View.Shown.{key_of, nav_items_marks, render_content_total}
use search_every.App.View.Shell.{
  Shell, ShellView, ShellEvent, clicked, rendered, header, dropdown_of, render, shell_step,
  run_shell, data_theme_after, opened_shell,
}
use search_every.Components.ThemeDropdown.{
  ThemeOption, Dropdown, menu, Click, button, item, inside, outside, on_click, same_theme,
}

-- The themes of the menu with a check mark.
abbrev pub marked_themes : List (ThemeOption × Bool) → List ThemeKey
marked_themes items = map (λ i. i.0.key) (filter (λ (i : ThemeOption × Bool). i.1) items)

open_marks : (t : ThemeKey) → marked_themes (menu (record { menu_open = true; theme = t })) ≡ t ∷ []
unfolding menu
open_marks ThemeKey.light = refl
open_marks ThemeKey.dark = refl
open_marks ThemeKey.eye = refl
open_marks ThemeKey.tech = refl
open_marks ThemeKey.sky = refl
open_marks ThemeKey.purple = refl
open_marks ThemeKey.gray = refl

menu_marks :
    (o : Bool) (t : ThemeKey)
    → (menu (record { menu_open = o; theme = t }) ≡ [])
      ⊎ (marked_themes (menu (record { menu_open = o; theme = t })) ≡ t ∷ [])
unfolding menu
menu_marks false t = inl refl
menu_marks true t = inr (open_marks t)

same_head : {p q : PageKey} → (p ∷ []) ≡ (q ∷ []) → p ≡ q
same_head h = cc

same_theme_sound : (t u : ThemeKey) → same_theme t u ≡ true → t ≡ u
same_theme_sound t u h = ground arith

data_theme_lem : (old new shown : ThemeKey) → shown ≡ old → data_theme_after old new shown ≡ new
data_theme_lem old new shown h = elim (Bool-cases (same_theme old new)) [
  | inl e ↦ rw e (h ∙ same_theme_sound old new e)
  | inr e ↦ rw e refl
]

-- The states that are rendered are all of the index page, or none is.
abbrev pub OneSide : App → ShellEvent → Type 0
OneSide s (clicked c) = Unit
OneSide s (rendered t) = same_page s.page PageKey.index ≡ same_page t.page PageKey.index

module _ (accepts : List HookCall → List HookCall → Bool) where
  step_theme :
      (e : ShellEvent) (sh : Shell)
      → sh.data_theme ≡ sh.app.theme
      → (shell_step accepts e sh).data_theme ≡ (shell_step accepts e sh).app.theme
  unfolding shell_step
  step_theme (clicked c) sh h =
      data_theme_lem sh.app.theme (on_click c (dropdown_of sh)).theme sh.data_theme h
  step_theme (rendered s) sh h = data_theme_lem sh.app.theme s.theme sh.data_theme h

  run_theme :
      (es : List ShellEvent) (sh : Shell)
      → sh.data_theme ≡ sh.app.theme
      → (run_shell accepts es sh).data_theme ≡ (run_shell accepts es sh).app.theme
  unfolding run_shell
  run_theme [] sh h = h
  run_theme (e ∷ es) sh h = run_theme es (shell_step accepts e sh) (step_theme e sh h)

  module _ (same : (hooks : List HookCall) → accepts hooks hooks ≡ true) where
    step_mounted :
        (s : App) (e : ShellEvent) (sh : Shell)
        → OneSide s e
        → hooks_of s ≡ hooks_of sh.app
        → sh.mounted ≡ true
        → ((shell_step accepts e sh).mounted ≡ true)
          × (hooks_of s ≡ hooks_of (shell_step accepts e sh).app)
    unfolding shell_step hooks_of
    step_mounted s (clicked c) sh side h m = (m, h)
    step_mounted s (rendered t) sh side h m =
        let h' = (hooks_iff s t).1 side in
        (
          rw m (
              subst (λ hs. accepts hs (hooks_of t) ≡ true) h
                (subst (λ hs. accepts (hooks_of s) hs ≡ true) h' (same (hooks_of s)))),
          h',
        )

    run_mounted :
        (s : App) (es : List ShellEvent) (sh : Shell)
        → All (OneSide s) es
        → hooks_of s ≡ hooks_of sh.app
        → sh.mounted ≡ true
        → (run_shell accepts es sh).mounted ≡ true
    unfolding run_shell
    run_mounted s [] sh sides h m = m
    run_mounted s (e ∷ es) sh sides h m =
        let (m', h') = step_mounted s e sh sides.0 h m in
        run_mounted s es (shell_step accepts e sh) sides.1 h' m'

    -- If React accepts a render with the hooks of the one before: whatever is clicked in the menu of the
    -- themes, and whatever states the program is rendered with, as long as all of them are of the index
    -- page, or none is, the shell is rendered without an exception; the page is the chosen one, the
    -- sidebar marks its entry alone, the menu is closed or marks the chosen theme alone, and the document
    -- has that theme.
    pub render_total :
        (quotient : ℕ → ℕ → Number) (b : Browser) (last_focus : Text) (s : App)
        (es : List ShellEvent)
        → All (OneSide s) es
        → let sh = run_shell accepts es (opened_shell s) in
          (v : ShellView) × (render quotient b last_focus sh ≡ some v)
          × (key_of v.main ≡ sh.app.page)
          × (map (λ i. i.key) (filter (λ i. i.active) v.nav) ≡ key_of v.main ∷ [])
          × ((v.header.menu_items ≡ []) ⊎ (marked_themes v.header.menu_items ≡ sh.app.theme ∷ []))
          × (sh.data_theme ≡ sh.app.theme)
    unfolding render header sidebar
    render_total quotient b last_focus s es sides =
        let sh = run_shell accepts es (opened_shell s) in
        let (v, shown, marks) = render_content_total quotient b last_focus sh.app in
        (
          record { header = header sh; nav = sidebar sh.app; main = v },
          rw (run_mounted s es (opened_shell s) sides refl refl, shown) refl,
          same_head (sym marks ∙ nav_items_marks sh.app.page),
          marks,
          menu_marks sh.menu_open sh.app.theme,
          run_theme es (opened_shell s) refl,
        )

abbrev pub is_button : Click → Bool
is_button button = true
is_button _ = false

stays_closed :
    (c : Click) (d : Dropdown)
    → is_button c ≡ false
    → d.menu_open ≡ false
    → (on_click c d).menu_open ≡ false
unfolding on_click
stays_closed button d h closed = cc
stays_closed (item o) d h closed = refl
stays_closed inside d h closed = closed
stays_closed outside d h closed = refl

module _ (accepts : List HookCall → List HookCall → Bool) where
  run_clicks :
      (cs : List Click) (sh : Shell)
      → All (λ c. is_button c ≡ false) cs
      → sh.menu_open ≡ false
      → (run_shell accepts (map clicked cs) sh).menu_open ≡ false
  unfolding run_shell shell_step
  run_clicks [] sh all closed = closed
  run_clicks (c ∷ cs) sh all closed =
      run_clicks cs (shell_step accepts (clicked c) sh) all.1
        (stays_closed c (dropdown_of sh) all.0 closed)

  run_shell-append :
      (es fs : List ShellEvent) (sh : Shell)
      → run_shell accepts (es ++ fs) sh ≡ run_shell accepts fs (run_shell accepts es sh)
  unfolding run_shell
  run_shell-append [] fs sh = refl
  run_shell-append (e ∷ es) fs sh = run_shell-append es fs (shell_step accepts e sh)

  -- Whatever was clicked before: once `App` is rendered with another state, the menu of the themes shows
  -- no item until its button is clicked again.
  run_shell-closes :
      (es : List ShellEvent) (s : App) (cs : List Click) (sh : Shell)
      → All (λ c. is_button c ≡ false) cs
      → (header (run_shell accepts (es ++ rendered s ∷ map clicked cs) sh)).menu_items ≡ []
  unfolding header menu run_shell shell_step
  run_shell-closes es s cs sh all =
      rw
        (
          run_shell-append es (rendered s ∷ map (λ c. clicked c) cs) sh,
          run_clicks cs (shell_step accepts (rendered s) (run_shell accepts es sh)) all refl,
        )
        refl
