-- ===== src/App/Call/Search.antt =====
-- What a search shows in the end, by the answers of the back end alone.
use search_every.Prelude.{
  ℕ, ◌+◌, ◌*◌, ◌<◌, ◌≤◌, ◌++◌, Text, List, true, false, some, codes, ◌≡◌, ◌⊎◌, inl, inr, refl, ap,
  subst, sym, ◌∙◌, arith, ltb, length, head?, if◌then◌else◌, Bool-cases,
}
use search_every.Prelude.Decimal.{show}
use search_every.Prelude.Number.{Number}
use search_every.Types.{SearchResult, PageKey}
use search_every.Services.Invoke.{
  Reply, resolves, rejects, silent, race, won, lost, timeout_error, fulfilled, thrown, Outcome,
}
use search_every.Services.Invoke.Attempts.{first_success, safe_invoke-first_success}
use search_every.Services.Api.{Command, search_query}
use search_every.App.State.{App}
use search_every.App.Search.{do_search, on_search, request_of}
use search_every.App.Call.{After, after_call, answer_of, carry_out, run_search}

module _ {A : Type 0} (limit : ℕ) where
  -- The answer is there before the time limit.
  abbrev pub InTime : Reply A → A → Type 0
  InTime (resolves t a) b = (t < limit) × (a ≡ b)
  InTime (rejects t e) b = ⊥
  InTime silent b = ⊥

  -- No answer is there before the time limit, but an error may be.
  abbrev pub Misses : Reply A → Type 0
  Misses (resolves t a) = limit ≤ t
  Misses (rejects t e) = Unit
  Misses silent = Unit

-- The error of an attempt that misses: the back end's, if it is there in time.
abbrev pub error_of : {A : Type 0} → Text → ℕ → Reply A → Text
error_of cmd limit (rejects t e) = if ltb t limit then e else timeout_error cmd limit
error_of cmd limit (resolves t a) = timeout_error cmd limit
error_of cmd limit silent = timeout_error cmd limit

abbrev pub search_limit : ℕ
search_limit = 60_000

-- The whole state after a search that found something, or nothing.
abbrev pub shows : List SearchResult → App → App
shows res s = record s {
  results = res;
  selected = head? res;
  page = PageKey.search;
  msg = codes "返回 " ++ (show (length res) ++ codes " 条结果");
  busy = false;
}

-- What a search may end with, `first` and `second` being the answers to its two attempts.
pub data SearchEnds (first second : Reply (List SearchResult)) (s t : App) : Type 0 where
  at_once :
      (res : List SearchResult)
      → InTime search_limit first res
      → t ≡ shows res s
      → SearchEnds first second s t
  at_second :
      (res : List SearchResult)
      → Misses search_limit first
      → InTime search_limit second res
      → t ≡ shows res s
      → SearchEnds first second s t
  not_at_all :
      Misses search_limit first
      → Misses search_limit second
      → t ≡ record s { msg = error_of (codes "search_query") search_limit second; busy = false }
      → SearchEnds first second s t

module _ {A : Type 0} (cmd : Text) (limit : ℕ) where
  Race-ends :
      (r : Reply A)
      → ((a : A) × (t : ℕ) × (race cmd limit r ≡ won a t) × InTime limit r a × (t ≤ limit))
        ⊎ ((t : ℕ) × (race cmd limit r ≡ lost (error_of cmd limit r) t)
            × Misses limit r
            × (t ≤ limit))
  unfolding race
  Race-ends (resolves t a) = elim (Bool-cases (ltb t limit)) [
    | inl e ↦ inl (a, t, rw e refl, (ground arith, refl), ground arith)
    | inr e ↦ inr (limit, rw e refl, ground arith, omega arith)
  ]
  Race-ends (rejects t m) = elim (Bool-cases (ltb t limit)) [
    | inl e ↦ inr (t, rw e refl, tt, ground arith)
    | inr e ↦ inr (limit, rw e refl, tt, omega arith)
  ]
  Race-ends silent = inr (limit, refl, tt, omega arith)

module _ {A : Type 0} (cmd : Text) (limit : ℕ) (replies : ℕ → Reply A) where
  won_at_once :
      (a : A) (t : ℕ)
      → race cmd limit (replies 0) ≡ won a t
      → first_success cmd limit replies 1 0
        ≡ record { settled = fulfilled a; calls = 1; elapsed = t }
  unfolding first_success
  won_at_once a t e = rw (e, first_success) refl

  won_at_second :
      (m : Text) (a : A) (t t' : ℕ)
      → race cmd limit (replies 0) ≡ lost m t
      → race cmd limit (replies 1) ≡ won a t'
      → first_success cmd limit replies 1 0
        ≡ record { settled = fulfilled a; calls = 2; elapsed = t + t' }
  unfolding first_success
  won_at_second m a t t' e e' = rw (e, first_success) (rw (e', first_success) refl)

  lost_both :
      (m m' : Text) (t t' : ℕ)
      → race cmd limit (replies 0) ≡ lost m t
      → race cmd limit (replies 1) ≡ lost m' t'
      → first_success cmd limit replies 1 0
        ≡ record { settled = thrown (some m'); calls = 2; elapsed = t + t' }
  unfolding first_success
  lost_both m m' t t' e e' = rw (e, first_success) (rw (e', first_success) refl)

module _ (number : Text → Number) (default_retries : ℕ)
    (replies : Command → ℕ → Reply (List SearchResult)) where
  abbrev sent : App → Command
  sent s = search_query (request_of number s)

  abbrev asked : App → App
  asked s = record s { busy = true; msg = codes "检索中..." }

  do_search_lem : (s : App) → s.in_tauri ≡ true → do_search number s ≡ (asked s, some (sent s))
  unfolding do_search
  do_search_lem s t = ground arith

  abbrev outcome : App → Outcome (List SearchResult)
  outcome s = first_success (codes "search_query") search_limit (replies (sent s)) 1 0

  run_search_lem :
      (s : App)
      → s.in_tauri ≡ true
      → run_search number default_retries replies s
        ≡ after_call on_search (asked s) (some (outcome s))
  unfolding run_search search_query
  run_search_lem s t =
      ap (carry_out default_retries replies on_search) (do_search_lem s t)
      ∙ ap (after_call on_search (asked s))
          (safe_invoke-first_success (codes "search_query") search_limit (replies (sent s)) 1)

  -- The three ways in which the two attempts can go.
  abbrev EndsWell : App → Outcome (List SearchResult) → Type 0
  EndsWell s o =
      SearchEnds (replies (sent s) 0) (replies (sent s) 1) s
        (on_search (answer_of o.settled) (asked s))
      × (o.elapsed ≤ 2 * search_limit)

  outcome-EndsWell : (s : App) → EndsWell s (outcome s)
  unfolding on_search
  outcome-EndsWell s =
      let cmd = codes "search_query" in
      let r = replies (sent s) in
      elim (Race-ends cmd search_limit (r 0)) [
        | inl (res, t, e, i, b) ↦
            subst (EndsWell s) (sym (won_at_once cmd search_limit r res t e))
              (at_once res i refl, omega arith)
        | inr (t, e, m, b) ↦ elim (Race-ends cmd search_limit (r 1)) [
          | inl (res, t', e', i, b') ↦
              subst (EndsWell s)
                (sym (
                  won_at_second cmd search_limit r (error_of cmd search_limit (r 0)) res t t' e e'))
                (at_second res m i refl, omega arith)
          | inr (t', e', m', b') ↦
              subst (EndsWell s)
                (sym (
                  lost_both cmd search_limit r (error_of cmd search_limit (r 0))
                    (error_of cmd search_limit (r 1)) t t' e e'))
                (not_at_all m m' refl, omega arith)
        ]
      ]

  -- In Tauri a search always comes to an end, within two time limits, and the state is then one of
  -- three, by the answers of the back end to its two attempts: the results of the first answer, or of
  -- the second one if the first misses the time limit or is an error, or the old results with the
  -- error of the second attempt if both do. Nothing else of the state is changed.
  pub run_search_ends :
      (s : App)
      → s.in_tauri ≡ true
      → let c = search_query (request_of number s) in
        (a : After) × (run_search number default_retries replies s ≡ some a)
        × SearchEnds (replies c 0) (replies c 1) s a.app
        × (a.elapsed ≤ 2 * search_limit)
  run_search_ends s t =
      let (ends, soon) = outcome-EndsWell s in
      (
        record {
          app = on_search (answer_of (outcome s).settled) (asked s);
          elapsed = (outcome s).elapsed;
        },
        run_search_lem s t,
        ends,
        soon,
      )
