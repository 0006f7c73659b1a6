-- ===== src/App/View/Results.antt =====
-- The rows of the search page after a search.
use mathlib.Core.List.{Perm}
use mathlib.Core.List.Perm
use search_every.Prelude.{
  List, [], ◌∷◌, Text, true, Option, none, some, map, ◌≡◌, ◌↔◌, refl, ◌∙◌, sym, All, text_eq_iff,
}
use search_every.Types.{SearchResult}
use search_every.Utils.Highlight.{Element}
use search_every.Utils.Highlight.Total.{highlight_total}
use search_every.App.State.{App, gives}
use search_every.App.Search.{on_search}
use search_every.App.Results.{sorted_results}
use search_every.App.Results.Order.{sorted_results_lem}
use search_every.App.View.{
  Browser, ResultView, has_path, shown_summary, row_of, result_view, result_views, Detail,
  detail_of, detail_view, view_of, SearchView, search_view,
}

module _ (b : Browser) where
  shown_summary_total :
      (query : Text) (summary : Option Text)
      → (e : Option Element) × (shown_summary b query summary ≡ some e)
  shown_summary_total query none = (none, refl)
  shown_summary_total query (some []) = (none, refl)
  shown_summary_total query (some (c ∷ text)) =
      let (e, h) = highlight_total b.case_map b.engine (c ∷ text) query in (some e, rw h refl)

  module _ (s : App) where
    result_view_total :
        (r : SearchResult)
        → (row : ResultView) × (result_view b s r ≡ some row)
          × (row.title ≡ r.path)
          × (row.selected ≡ has_path s.selected row.title)
    unfolding result_view
    result_view_total r =
        let (name, h) = highlight_total b.case_map b.engine r.name s.query in
        let (summary, k) = shown_summary_total s.query r.summary in
        (row_of b s r name summary, rw (h, k) refl, refl, refl)

    -- Each row shows the path of its result, and is marked by that path.
    abbrev Rows : List SearchResult → List ResultView → Type 0
    Rows rs rows =
        (map (λ row. row.title) rows ≡ map (λ r. r.path) rs)
        × All (λ row. row.selected ≡ has_path s.selected row.title) rows

    result_views_total :
        (rs : List SearchResult)
        → (rows : List ResultView) × (result_views b s rs ≡ some rows) × Rows rs rows
    unfolding result_views
    result_views_total [] = ([], refl, (refl, tt))
    result_views_total (r ∷ rs) =
        let (row, h, path, mark) = result_view_total r in
        let (rows, k, (paths, marks)) = result_views_total rs in
        (row ∷ rows, rw (h, k) refl, (rw (path, paths) refl, (mark, marks)))

    detail_view_total :
        (selected : Option SearchResult) → (d : Option Detail) × (detail_view b s selected ≡ some d)
    unfolding detail_view
    detail_view_total none = (none, refl)
    detail_view_total (some r) =
        let (preview, k) = shown_summary_total s.query r.summary in
        (some (detail_of b s r preview), rw k refl)

    pub search_view_total :
        (v : SearchView) × (search_view b s ≡ some v) × Rows (sorted_results s) v.rows
    unfolding search_view
    search_view_total =
        let (rows, h, r) = result_views_total (sorted_results s) in
        let (d, k) = detail_view_total s.selected in (view_of s rows d, rw (h, k) refl, r)

Perm-map : {A B : Type 0} (f : A → B) (xs ys : List A) → Perm xs ys → Perm (map f xs) (map f ys)
Perm-map f xs ys p = Perm.map f p

-- Marked rows are those with the path of the selected result.
marked_iff :
    (r : SearchResult) (row : ResultView)
    → row.selected ≡ has_path (some r) row.title
    → (row.selected ≡ true) ↔ (row.title ≡ r.path)
marked_iff r row h =
    let (sound, complete) = text_eq_iff r.path row.title in
    (λ e. sym (sound (sym h ∙ e)), λ e. h ∙ complete (sym e))

All-marked :
    (r : SearchResult) (rows : List ResultView)
    → All (λ row. row.selected ≡ has_path (some r) row.title) rows
    → All (λ row. (row.selected ≡ true) ↔ (row.title ≡ r.path)) rows
All-marked r [] h = tt
All-marked r (row ∷ rows) h = (marked_iff r row h.0, All-marked r rows h.1)

-- After a search that found something, the search page is rendered without an exception. It has one
-- row for each found result, whatever the order, and the marked rows are exactly those with the path
-- of the first result that the back end gave.
pub search_view_found :
    (b : Browser) (s : App) (r : SearchResult) (rs : List SearchResult)
    → (v : SearchView) × (search_view b (on_search (gives (r ∷ rs)) s) ≡ some v)
      × Perm (map (λ row. row.title) v.rows) (map (λ q. q.path) (r ∷ rs))
      × All (λ row. (row.selected ≡ true) ↔ (row.title ≡ r.path)) v.rows
unfolding on_search
search_view_found b s r rs =
    let t = on_search (gives (r ∷ rs)) s in
    let (v, h, (paths, marks)) = search_view_total b t in
    let (p, sorted, stable) = sorted_results_lem t in
    (
      v,
      h,
      rw paths (Perm-map (λ q. q.path) (sorted_results t) (r ∷ rs) p),
      All-marked r v.rows marks,
    )
