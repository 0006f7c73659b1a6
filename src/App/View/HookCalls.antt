-- ===== src/App/View/HookCalls.antt =====
-- The hooks that a render of `App` of src/App.tsx calls, in their order. `renderContent` calls the pages
-- as plain functions, so that the effect of `IndexPage` is a hook of `App`; React expects of each render
-- the hooks of the one before.
use search_every.Prelude.{
  ℕ, zero, suc, List, [], ◌∷◌, ◌++◌, Bool, true, false, ◌≡◌, ◌↔◌, refl, ap, sym, ◌∙◌, arith,
}
use search_every.Types.{PageKey}
use search_every.App.State.{App}
use search_every.App.View.Pages.{same_page}

pub data HookCall : Type 0 where
  use_state use_ref use_memo use_effect : HookCall

abbrev repeat : ℕ → HookCall → List HookCall
repeat zero h = []
repeat (suc n) h = h ∷ repeat n h

abbrev error_logging_hooks : List HookCall
error_logging_hooks = use_effect ∷ []

abbrev tauri_event_hooks : List HookCall
tauri_event_hooks = use_effect ∷ []

abbrev focus_debug_hooks : List HookCall
focus_debug_hooks = use_state ∷ use_effect ∷ use_effect ∷ []

-- From `inTauri` on: the variables, the reference to the query input, those of the tabs, their effects
-- and that of the preview, the hooks of the program's own, the effects that load the configuration and
-- set the theme, the search as you type, and the sorted results.
unfoldable pub app_hooks : List HookCall
app_hooks =
    use_memo ∷ repeat 14 use_state
    ++ (use_ref ∷ repeat 18 use_state
        ++ (repeat 7 use_ref
            ++ (repeat 3 use_effect
                ++ (error_logging_hooks
                    ++ (tauri_event_hooks
                        ++ (repeat 2 use_effect
                            ++ (focus_debug_hooks ++ use_effect ∷ use_memo ∷ [])))))))

abbrev pub page_hooks : PageKey → List HookCall
page_hooks PageKey.search = []
page_hooks PageKey.index = use_effect ∷ []
page_hooks PageKey.dup = []
page_hooks PageKey.settings = []
page_hooks PageKey.about = []

unfoldable pub hooks_of : App → List HookCall
unfolding app_hooks
hooks_of s = app_hooks ++ page_hooks s.page

same_tail : (xs a b : List HookCall) → xs ++ a ≡ xs ++ b → a ≡ b
same_tail [] a b h = h
same_tail (x ∷ xs) a b h = same_tail xs a b cc

abbrev hooks_if : Bool → List HookCall
hooks_if true = use_effect ∷ []
hooks_if false = []

page_hooks_lem : (p : PageKey) → page_hooks p ≡ hooks_if (same_page p PageKey.index)
page_hooks_lem p = ground arith

hooks_if-injective : (a b : Bool) → hooks_if a ≡ hooks_if b → a ≡ b
hooks_if-injective true true h = refl
hooks_if-injective true false h = cc
hooks_if-injective false true h = cc
hooks_if-injective false false h = refl

-- A render calls the hooks that the one before has called exactly if both are of the index page, or none
-- is: turning to the index page, or from it to another one, changes the hooks of `App`.
pub hooks_iff :
    (s t : App)
    → (hooks_of s ≡ hooks_of t) ↔ (same_page s.page PageKey.index ≡ same_page t.page PageKey.index)
unfolding hooks_of
hooks_iff s t = (
  λ h. hooks_if-injective (same_page s.page PageKey.index) (same_page t.page PageKey.index) (
      sym (page_hooks_lem s.page)
      ∙ same_tail app_hooks (page_hooks s.page) (page_hooks t.page) h
      ∙ page_hooks_lem t.page),
  λ h.
      ap (λ p. app_hooks ++ p)
        (page_hooks_lem s.page ∙ ap hooks_if h ∙ sym (page_hooks_lem t.page)),
)
