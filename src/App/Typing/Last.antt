-- ===== src/App/Typing/Last.antt =====
-- The last search of the effect.
use search_every.Prelude.{
  ℕ, ◌+◌, ◌≤◌, List, [], ◌∷◌, ◌++◌, Text, true, le→leb, truthy, trim, ◌≡◌, refl, ap, sym, ◌∙◌,
  arith, Bool-cases, inl, inr, append-nil, append_assoc, if◌then◌else◌,
}
use search_every.Prelude.Number.{Number}
use search_every.Services.Api.{Command, search_query}
use search_every.App.State.{App}
use search_every.App.Search.{sets_timer, on_timer, do_search, request_of, filters_of}
use search_every.App.Typing.{deps_of, same_deps, Render, debounce, goes_off, typed}
use search_every.App.Typing.Pauses.{
  same_deps_sound, same_deps_shift, pauses, searched, searches, typed-searches,
}

-- The state of the last render.
abbrev pub shown_at : App → List Render → App
shown_at s [] = s
shown_at s (r ∷ rs) = shown_at r.app rs

-- The state of the last render whose dependencies are not those of the render before it, or else of the
-- first one; the arguments are what was found so far, and the state of the render before.
abbrev pub last_change : App → App → List Render → App
last_change found shown [] = found
last_change found shown (r ∷ rs) =
    let same = last_change found r.app rs in
    let other = last_change r.app r.app rs in
    if same_deps (deps_of shown) (deps_of r.app) then same else other

last_change-same_deps :
    (s t : App) (rs : List Render)
    → same_deps (deps_of s) (deps_of t) ≡ true
    → last_change s t rs ≡ last_change s s rs
last_change-same_deps s t [] h = refl
last_change-same_deps s t (r ∷ rs) h =
    rw (same_deps_shift (deps_of s) (deps_of t) (deps_of r.app) h) refl

-- The last pause: when it began, and the searches of those before.
record LastPause (number : Text → Number) (s : App) (n : ℕ) (rs : List Render) (last : ℕ)
    : Type 0 where
  start : App
  time : ℕ
  before : List Command
  changed : start ≡ last_change s s rs
  deps : deps_of start ≡ deps_of (shown_at s rs)
  long : last ≤ time
  sent : searches number (pauses s n rs last) ≡ before ++ searched number (start, time)

deps-shown_at :
    (s p : App) (rs : List Render)
    → deps_of s ≡ deps_of p
    → deps_of (shown_at s rs) ≡ deps_of (shown_at p rs)
deps-shown_at s p [] h = h
deps-shown_at s p (r ∷ rs) h = refl

module _ (number : Text → Number) where
  last_pause : (s : App) (n : ℕ) (rs : List Render) (last : ℕ) → LastPause number s n rs last
  unfolding searches
  last_pause s n [] last = record {
    start = s;
    time = n + last;
    before = [];
    changed = refl;
    deps = refl;
    long = omega arith;
    sent = append-nil (searched number (s, n + last));
  }
  last_pause s n (r ∷ rs) last = elim (Bool-cases (same_deps (deps_of s) (deps_of r.app))) [
    | inl e ↦
        let p = last_pause s (n + r.wait) rs last in
        record {
          start = p.start;
          time = p.time;
          before = p.before;
          changed = rw e (p.changed ∙ sym (last_change-same_deps s r.app rs e));
          deps = p.deps ∙ deps-shown_at s r.app rs (same_deps_sound (deps_of s) (deps_of r.app) e);
          long = p.long;
          sent = rw e p.sent;
        }
    | inr e ↦
        let p = last_pause r.app 0 rs last in
        let first = searched number (s, n + r.wait) in
        record {
          start = p.start;
          time = p.time;
          before = first ++ p.before;
          changed = rw e p.changed;
          deps = p.deps;
          long = p.long;
          sent = rw e (
              ap (λ cs. first ++ cs) p.sent
              ∙ sym (append_assoc first p.before (searched number (p.start, p.time))));
        }
  ]

  -- Two states with the same dependencies search alike, but for the directory of the index.
  request-deps :
      (s t : App)
      → deps_of s ≡ deps_of t
      → request_of number s ≡ record (request_of number t) { index_dir = s.index_dir }
  unfolding request_of filters_of
  request-deps s t h = cc

  sets_timer-in_tauri : (s : App) → sets_timer s ≡ true → s.in_tauri ≡ true
  unfolding sets_timer
  sets_timer-in_tauri s h = ground arith

  sets_timer-deps : (s t : App) → deps_of s ≡ deps_of t → sets_timer s ≡ sets_timer t
  unfolding sets_timer
  sets_timer-deps s t h = cc

  goes_off_lem :
      (s : App)
      → s.in_tauri ≡ true
      → truthy (trim s.query) ≡ true
      → goes_off number s ≡ search_query (request_of number s) ∷ []
  unfolding goes_off on_timer do_search
  goes_off_lem s inside query = ground arith

  pub searched_long :
      (s t : App) (n : ℕ)
      → deps_of s ≡ deps_of t
      → sets_timer t ≡ true
      → truthy (trim t.query) ≡ true
      → 250 ≤ n
      → searched number (s, n)
        ≡ search_query (record (request_of number t) { index_dir = s.index_dir }) ∷ []
  unfolding searched
  searched_long s t n h timer query long =
      let timer_s = sets_timer-deps s t h ∙ timer in
      let query_s = ap (λ d. truthy (trim d.query)) h ∙ query in
      rw (timer_s, le→leb 250 n long)
        (goes_off_lem s (sets_timer-in_tauri s timer_s) query_s
          ∙ ap (λ r. search_query r ∷ []) (request-deps s t h))

  -- If the page is at last left alone for 250 ms, on the search page in Tauri and with a query that is
  -- not blank, then the last search that is sent has the query and the filters that are shown, and the
  -- directory of the index of the last render at which the query, the filters or the page had changed
  -- since the render before, or of the first render, whether or not it is still the one that is shown.
  pub last_search :
      (s : App) (rs : List Render) (last : ℕ)
      → sets_timer (shown_at s rs) ≡ true
      → truthy (trim (shown_at s rs).query) ≡ true
      → debounce ≤ last
      → (before : List Command) × (typed number s rs last
          ≡ before
            ++ search_query (record (request_of number (shown_at s rs)) {
              index_dir = (last_change s s rs).index_dir;
            })
              ∷ [])
  last_search s rs last timer query long =
      let p = last_pause s 0 rs last in
      (
        p.before,
        typed-searches number s rs last
            ∙ p.sent
            ∙ ap (λ cs. p.before ++ cs)
                (searched_long p.start (shown_at s rs) p.time p.deps timer query
                  (omega (arith, long, p.long)))
            ∙ ap
                (λ a.
                  p.before
                  ++ search_query
                      (record (request_of number (shown_at s rs)) { index_dir = a.index_dir })
                    ∷ [])
                p.changed,
      )
