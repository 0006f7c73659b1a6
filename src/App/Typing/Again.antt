-- ===== src/App/Typing/Again.antt =====
-- A search that is answered after the user has gone to another page.
use search_every.Prelude.{
  ℕ, ◌+◌, ◌≤◌, List, [], ◌∷◌, Text, true, false, text_eq_refl, truthy, trim, ◌≡◌, refl, ◌∙◌, arith,
}
use search_every.Prelude.Number.{Number}
use search_every.Types.{SearchResult, PageKey}
use search_every.Services.Api.{search_query}
use search_every.App.State.{App, gives}
use search_every.App.Search.{sets_timer, on_search, request_of, filters_of}
use search_every.App.View.Pages.{same_page}
use search_every.App.Typing.{deps_of, same_deps, debounce, typed}
use search_every.App.Typing.Pauses.{searched, searches, typed-searches}
use search_every.App.Typing.Last.{searched_long}

module _ (number : Text → Number) (s : App) (res : List SearchResult) where
  abbrev pub answered : App
  answered = on_search (gives res) s

  other_page :
      same_page s.page PageKey.search ≡ false → same_deps (deps_of s) (deps_of answered) ≡ false
  unfolding on_search
  other_page h =
      rw
        (
          text_eq_refl s.query,
          text_eq_refl s.ext_filter,
          text_eq_refl s.min_size,
          text_eq_refl s.max_size,
          h,
        )
        refl

  no_timer : (n : ℕ) → same_page s.page PageKey.search ≡ false → searched number (s, n) ≡ []
  unfolding searched sets_timer
  no_timer n h = ground arith

  sets_timer-answered : s.in_tauri ≡ true → sets_timer answered ≡ true
  unfolding sets_timer on_search
  sets_timer-answered h = rw h refl

  -- In Tauri, if the answer to a search comes when the user has gone from the search page to another
  -- one, the page turns back to the search page; and if nothing is changed for 250 ms after that, and
  -- the query is not blank, the effect sends a search, which is the shown one, though nothing was
  -- typed.
  pub search_again :
      (wait last : ℕ)
      → s.in_tauri ≡ true
      → same_page s.page PageKey.search ≡ false
      → truthy (trim s.query) ≡ true
      → debounce ≤ last
      → (answered.page ≡ PageKey.search)
        × (typed number s ((record { wait = wait; app = answered }) ∷ []) last
            ≡ search_query (request_of number s) ∷ [])
  unfolding on_search searches request_of filters_of
  search_again wait last inside other query long = (
    refl,
    typed-searches number s ((record { wait = wait; app = answered }) ∷ []) last
        ∙ rw
            (
              other_page other,
              no_timer (0 + wait) other,
              searched_long number answered answered (0 + last) refl (sets_timer-answered inside)
                  query (omega (arith, long)),
            )
            refl,
  )
