-- ===== src/App/World/Stale.antt =====
-- Two searches that wait for their answers at the same time.
use search_every.Prelude.{List, [], ◌∷◌, Text, true, false, ◌≡◌, refl}
use search_every.Prelude.Number.{Number}
use search_every.Types.{SearchResult, SearchRequest}
use search_every.App.State.{App, gives}
use search_every.App.Search.{request_of, filters_of, do_search, on_search}
use search_every.App.Controls.{set_query, on_control}
use search_every.App.World.{
  searching, resume, search, begin, controls, apply_local, World, add, starts, changes, Steps, done,
  more,
}

abbrev one_search : (Text → Number) → App → World
one_search number s = add [] (begin number search s)

abbrev typed : Text → World → World
typed q w = record w { app = apply_local (controls (set_query q)) w.app }

-- A search, another query, and a search for that.
abbrev pub two_searches : (Text → Number) → Text → App → World
two_searches number q s =
    let w = typed q (one_search number s) in add w.pending (begin number search w.app)

-- The state after the answer to a request; `reply` is the search of the back end.
abbrev pub answered : (SearchRequest → List SearchResult) → SearchRequest → App → App
answered reply r s = (resume (searching r) (gives (reply r)) s).0

two_searches-Steps :
    (number : Text → Number) (q : Text) (s : App)
    → Steps number (record { app = s; pending = [] }) (two_searches number q s)
two_searches-Steps number q s = more (starts search (record { app = s; pending = [] })) (
    more (changes (controls (set_query q)) (one_search number s))
      (more (starts search (typed q (one_search number s))) (done (two_searches number q s))))

two_searches_pending :
    (number : Text → Number) (q : Text) (s : App)
    → s.in_tauri ≡ true
    → (two_searches number q s).pending
      ≡ searching (request_of number s)
        ∷ searching (request_of number (record s { query = q }))
        ∷ []
unfolding begin do_search apply_local on_control request_of filters_of
two_searches_pending number q s t = rw t refl

-- In Tauri, two searches can wait for their answers at once, the second for a query that was typed
-- after the first. If the answers come in the order of the searches, the results are those of the
-- shown query; if they come the other way round, the results are those of the query before it, and
-- `busy` is false between the two answers, while the first search is still waiting.
pub stale_results :
    (number : Text → Number) (q : Text) (s : App) (reply : SearchRequest → List SearchResult)
    → s.in_tauri ≡ true
    → let v = two_searches number q s in
      let r = request_of number s in
      let r' = request_of number (record s { query = q }) in
      Steps number (record { app = s; pending = [] }) v
      × (v.pending ≡ searching r ∷ searching r' ∷ [])
      × ((answered reply r' (answered reply r v.app)).results ≡ reply r')
      × ((answered reply r (answered reply r' v.app)).results ≡ reply r)
      × ((answered reply r (answered reply r' v.app)).query ≡ q)
      × ((answered reply r' v.app).busy ≡ false)
unfolding resume on_search begin do_search apply_local on_control
stale_results number q s reply t =
    (two_searches-Steps number q s, two_searches_pending number q s t, refl, refl, rw t refl, refl)
