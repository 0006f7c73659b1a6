-- ===== src/Hooks/Listeners.antt =====
-- The listeners that src/hooks/useGlobalErrorLogging.ts, src/hooks/useFocusDebug.ts and
-- src/components/ThemeDropdown.tsx register on the window or the document, with their clean-up. The
-- elements that they stand in are mounted, cleaned up and mounted again: by React.StrictMode of
-- src/main.tsx, and the header at each render of `App`.
pub mod Balance
use search_every.Prelude.{
  ℕ, ◌+◌, List, [], ◌∷◌, ◌++◌, Text, Bool, true, false, ◌&&◌, not, zero, suc, codes, any, filter,
  text_eq, ◌==◌, if◌then◌else◌,
}

-- A handler is known by its identity: the number of the run of the effect that has made it.
pub record Listener : Type 0 where
  pub event : Text
  pub capture : Bool
  pub handler : ℕ

pub data Hook : Type 0 where
  global_error_logging : Hook
  focus_debug : Bool → Hook
  theme_dropdown : Hook

-- The arguments of `addEventListener` in each effect, the name of the event and the capture flag, and
-- those of `removeEventListener` in its clean-up
abbrev pub window_added : List (Text × Bool)
window_added = (codes "error", false) ∷ (codes "unhandledrejection", false) ∷ []

abbrev pub window_removed : List (Text × Bool)
window_removed = (codes "error", false) ∷ (codes "unhandledrejection", false) ∷ []

abbrev pub focus_added : Bool → List (Text × Bool)
focus_added true = (codes "focusin", true) ∷ (codes "focusout", true) ∷ []
focus_added false = []

abbrev pub focus_removed : Bool → List (Text × Bool)
focus_removed true = (codes "focusin", true) ∷ (codes "focusout", true) ∷ []
focus_removed false = []

abbrev pub dropdown_added : List (Text × Bool)
dropdown_added = (codes "click", false) ∷ []

abbrev pub dropdown_removed : List (Text × Bool)
dropdown_removed = (codes "click", false) ∷ []

unfoldable pub added_by : Hook → List (Text × Bool)
added_by global_error_logging = window_added
added_by (focus_debug enabled) = focus_added enabled
added_by theme_dropdown = dropdown_added

unfoldable pub removed_by : Hook → List (Text × Bool)
removed_by global_error_logging = window_removed
removed_by (focus_debug enabled) = focus_removed enabled
removed_by theme_dropdown = dropdown_removed

abbrev pub same_capture : Bool → Bool → Bool
same_capture true c = c
same_capture false c = not c

abbrev pub made : ℕ → Text × Bool → Listener
made k (name, capture) = record { event = name; capture = capture; handler = k }

abbrev pub same : Listener → Listener → Bool
same l m = text_eq l.event m.event && (same_capture l.capture m.capture && l.handler == m.handler)

-- A listener that is there already is not added again.
unfoldable pub add_event_listener : Listener → List Listener → List Listener
add_event_listener l ls = if any (same l) ls then ls else ls ++ l ∷ []

unfoldable pub remove_event_listener : Listener → List Listener → List Listener
remove_event_listener l ls = filter (λ m. not (same l m)) ls

unfoldable pub add_all : List (Text × Bool) → ℕ → List Listener → List Listener
unfolding add_event_listener
add_all [] k ls = ls
add_all (e ∷ es) k ls = add_all es k (add_event_listener (made k e) ls)

unfoldable pub remove_all : List (Text × Bool) → ℕ → List Listener → List Listener
unfolding remove_event_listener
remove_all [] k ls = ls
remove_all (e ∷ es) k ls = remove_all es k (remove_event_listener (made k e) ls)

-- The `k`-th run of an effect, and its clean-up.
unfoldable pub mount : Hook → ℕ → List Listener → List Listener
unfolding add_all added_by
mount h k ls = add_all (added_by h) k ls

unfoldable pub unmount : Hook → ℕ → List Listener → List Listener
unfolding remove_all removed_by
unmount h k ls = remove_all (removed_by h) k ls

-- Mounted, and then cleaned up and mounted again `n` times.
unfoldable pub remounted : Hook → ℕ → ℕ → List Listener → List Listener
unfolding mount unmount
remounted h zero k ls = mount h k ls
remounted h (suc n) k ls = remounted h n (k + 1) (unmount h k (mount h k ls))
