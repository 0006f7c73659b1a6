-- ===== src/App/Typing.antt =====
-- The search as you type of src/App.tsx: the effect with its timer of 250 ms, over the renders of the
-- page. React runs the effect after the first render and after each one in which a dependency has
-- changed, and its clean-up before it. A timer that falls on the same millisecond as a render comes
-- first.
pub mod Pauses
pub mod Rate
pub mod Last
pub mod Again
use search_every.Prelude.{
  ℕ, ◌-◌, List, [], ◌∷◌, ◌++◌, Text, Bool, true, false, ◌&&◌, Option, none, some, leb, text_eq,
  if◌then◌else◌,
}
use search_every.Prelude.Number.{Number}
use search_every.Types.{PageKey}
use search_every.Services.Api.{Command}
use search_every.App.State.{App}
use search_every.App.Search.{sets_timer, on_timer}
use search_every.App.View.Pages.{same_page}

-- `[query, extFilter, minSize, maxSize, page, inTauri]`
pub record Deps : Type 0 where
  pub query : Text
  pub ext_filter : Text
  pub min_size : Text
  pub max_size : Text
  pub page : PageKey
  pub in_tauri : Bool

abbrev pub deps_of : App → Deps
deps_of s = record {
  query = s.query;
  ext_filter = s.ext_filter;
  min_size = s.min_size;
  max_size = s.max_size;
  page = s.page;
  in_tauri = s.in_tauri;
}

abbrev pub same_flag : Bool → Bool → Bool
same_flag true true = true
same_flag false false = true
same_flag _ _ = false

-- `Object.is` on each of them
abbrev pub same_deps : Deps → Deps → Bool
same_deps a b =
    text_eq a.query b.query
    && (text_eq a.ext_filter b.ext_filter
        && (text_eq a.min_size b.min_size
            && (text_eq a.max_size b.max_size
                && (same_page a.page b.page && same_flag a.in_tauri b.in_tauri))))

-- The state of a render, and how long after the one before.
pub record Render : Type 0 where
  pub wait : ℕ
  pub app : App

-- The last render, the timer with the time that is left and the state that its handler was made in, and
-- the commands that were sent.
pub record Typing : Type 0 where
  pub shown : App
  pub timer : Option (ℕ × App)
  pub sent : List Command

abbrev pub debounce : ℕ
debounce = 250

-- `if (!inTauri || page !== 'search') return`, and `setTimeout(…, 250)`
abbrev pub set_timer : App → Option (ℕ × App)
set_timer s = if sets_timer s then some (debounce, s) else none

abbrev pub one {ℓ} : {A : Type ℓ} → Option A → List A
one none = []
one (some a) = a ∷ []

module _ (number : Text → Number) where
  -- What the handler of the timer sends.
  unfoldable pub goes_off : App → List Command
  goes_off s = one (on_timer number s).1

  -- Time passes.
  unfoldable pub pass : ℕ → Option (ℕ × App) → List Command → Option (ℕ × App) × List Command
  pass n none sent = (none, sent)
  pass n (some (left, s)) sent =
      if leb left n then (none, sent ++ goes_off s) else (some (left - n, s), sent)

  -- A render, with the effect behind it.
  unfoldable pub rerender : Render → Typing → Typing
  rerender r t =
      let (timer, sent) = pass r.wait t.timer t.sent in
      record {
        shown = r.app;
        timer = if same_deps (deps_of t.shown) (deps_of r.app) then timer else set_timer r.app;
        sent = sent;
      }

  unfoldable pub run_renders : List Render → Typing → Typing
  run_renders [] t = t
  run_renders (r ∷ rs) t = run_renders rs (rerender r t)

  -- The first render.
  unfoldable pub mounted : App → Typing
  mounted s = record { shown = s; timer = set_timer s; sent = [] }

  -- What was sent, when some time has passed after the last render.
  unfoldable pub typed : App → List Render → ℕ → List Command
  typed s rs last = let t = run_renders rs (mounted s) in (pass last t.timer t.sent).1
