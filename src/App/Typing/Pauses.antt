-- ===== src/App/Typing/Pauses.antt =====
-- The searches that are sent, told from the pauses between the changes alone.
use search_every.Prelude.{
  ℕ, ◌+◌, ◌-◌, List, [], ◌∷◌, ◌++◌, Text, Bool, true, false, ◌&&◌, Option, none, some, leb, ltb,
  text_eq_sound, text_eq_refl, ◌≡◌, refl, ap, sym, ◌∙◌, arith, Bool-cases, inl, inr, append-nil,
  append_assoc, if◌then◌else◌,
}
use search_every.Prelude.Number.{Number}
use search_every.Types.{PageKey}
use search_every.Services.Api.{Command}
use search_every.App.State.{App}
use search_every.App.Search.{sets_timer}
use search_every.App.View.Pages.{same_page}
use search_every.App.Typing.{
  Deps, deps_of, same_flag, same_deps, Render, Typing, debounce, goes_off, pass, rerender,
  run_renders, mounted, typed,
}

same_page_sound : (p q : PageKey) → same_page p q ≡ true → p ≡ q
same_page_sound p q h = ground arith

same_flag_sound : (a b : Bool) → same_flag a b ≡ true → a ≡ b
same_flag_sound a b h = ground arith

same_page_refl : (p : PageKey) → same_page p p ≡ true
same_page_refl p = ground arith

same_flag_refl : (a : Bool) → same_flag a a ≡ true
same_flag_refl a = ground arith

both : (x y : Bool) → x && y ≡ true → (x ≡ true) × (y ≡ true)
both x y h = ground arith

pub same_deps_sound : (a b : Deps) → same_deps a b ≡ true → a ≡ b
same_deps_sound a b h =
    let (query, h1) = both _ _ h in
    let (ext, h2) = both _ _ h1 in
    let (least, h3) = both _ _ h2 in
    let (most, h4) = both _ _ h3 in
    let (page, flag) = both _ _ h4 in
    let query' = text_eq_sound a.query b.query query in
    let ext' = text_eq_sound a.ext_filter b.ext_filter ext in
    let least' = text_eq_sound a.min_size b.min_size least in
    let most' = text_eq_sound a.max_size b.max_size most in
    let page' = same_page_sound a.page b.page page in
    let flag' = same_flag_sound a.in_tauri b.in_tauri flag in cc

same_deps_refl : (a : Deps) → same_deps a a ≡ true
same_deps_refl a =
    rw
      (
        text_eq_refl a.query,
        text_eq_refl a.ext_filter,
        text_eq_refl a.min_size,
        text_eq_refl a.max_size,
        same_page_refl a.page,
        same_flag_refl a.in_tauri,
      )
      refl

-- Dependencies that are those of one state are the same for another one exactly if its are.
pub same_deps_shift : (a b c : Deps) → same_deps a b ≡ true → same_deps b c ≡ same_deps a c
same_deps_shift a b c h = ap (λ d. same_deps d c) (sym (same_deps_sound a b h))

-- A state in which the dependencies came to be as they are, and how long they stayed so.
abbrev pub pauses : App → ℕ → List Render → ℕ → List (App × ℕ)
pauses s n [] last = (s, n + last) ∷ []
pauses s n (r ∷ rs) last =
    let same = pauses s (n + r.wait) rs last in
    let next = pauses r.app 0 rs last in
    if same_deps (deps_of s) (deps_of r.app) then same else (s, n + r.wait) ∷ next

module _ (number : Text → Number) where
  -- A pause of 250 ms or more is searched, once.
  unfoldable pub searched : App × ℕ → List Command
  searched (s, n) = if sets_timer s && leb debounce n then goes_off number s else []

  unfoldable pub searches : List (App × ℕ) → List Command
  unfolding searched
  searches [] = []
  searches (p ∷ ps) = searched p ++ searches ps

  -- The timer after the dependencies stayed for that time.
  abbrev left_of : App → ℕ → Option (ℕ × App)
  left_of s n =
      if sets_timer s then if ltb n debounce then some (debounce - n, s) else none else none

  -- Where the timer is set.
  pass_timer :
      (s : App) (n w : ℕ) (sent : List Command)
      → pass number w
          (if ltb n debounce then some (debounce - n, s) else none)
          (sent ++ (if leb debounce n then goes_off number s else []))
        ≡ (
          (if ltb (n + w) debounce then some (debounce - (n + w), s) else none),
          sent ++ (if leb debounce (n + w) then goes_off number s else []),
        )
  unfolding pass
  pass_timer s n w sent = ground (arith, append-nil sent)

  pass-left_of :
      (s : App) (n w : ℕ) (sent : List Command)
      → pass number w (left_of s n) (sent ++ searched (s, n))
        ≡ (left_of s (n + w), sent ++ searched (s, n + w))
  unfolding pass searched
  pass-left_of s n w sent = elim (Bool-cases (sets_timer s)) [
    | inl e ↦ rw e (pass_timer s n w sent)
    | inr e ↦ rw e refl
  ]

  -- The searches after a number of renders, from a state whose dependencies stayed for that time.
  abbrev sent_by : List Render → ℕ → Typing → List Command
  sent_by rs last t = let u = run_renders number rs t in (pass number last u.timer u.sent).1

  abbrev stayed : App → App → ℕ → List Command → Typing
  stayed s p n sent = record { shown = p; timer = left_of s n; sent = sent ++ searched (s, n) }

  searched_zero : (s : App) → searched (s, 0) ≡ []
  unfolding searched
  searched_zero s = ground arith

  -- A render that leaves the dependencies as they are, and one that changes them.
  rerender-same :
      (s p : App) (n : ℕ) (sent : List Command) (r : Render)
      → same_deps (deps_of p) (deps_of r.app) ≡ true
      → rerender number r (stayed s p n sent) ≡ stayed s r.app (n + r.wait) sent
  unfolding rerender
  rerender-same s p n sent r h = rw (pass-left_of s n r.wait sent, h) refl

  rerender-other :
      (s p : App) (n : ℕ) (sent : List Command) (r : Render)
      → same_deps (deps_of p) (deps_of r.app) ≡ false
      → rerender number r (stayed s p n sent)
        ≡ stayed r.app r.app 0 (sent ++ searched (s, n + r.wait))
  unfolding rerender
  rerender-other s p n sent r h =
      rw
        (
          pass-left_of s n r.wait sent,
          h,
          searched_zero r.app,
          append-nil (sent ++ searched (s, n + r.wait)),
        )
        refl

  sent_by-stayed :
      (s p : App) (n : ℕ) (rs : List Render) (last : ℕ) (sent : List Command)
      → same_deps (deps_of s) (deps_of p) ≡ true
      → sent_by rs last (stayed s p n sent) ≡ sent ++ searches (pauses s n rs last)
  unfolding run_renders searches
  sent_by-stayed s p n [] last sent h =
      ap (λ r. r.1) (pass-left_of s n last sent)
      ∙ ap (λ cs. sent ++ cs) (sym (append-nil (searched (s, n + last))))
  sent_by-stayed s p n (r ∷ rs) last sent h =
      elim (Bool-cases (same_deps (deps_of s) (deps_of r.app))) [
        | inl e ↦
            ap (sent_by rs last) (rerender-same s p n sent r (shift ∙ e))
            ∙ sent_by-stayed s r.app (n + r.wait) rs last sent e
            ∙ rw e refl
        | inr e ↦
            ap (sent_by rs last) (rerender-other s p n sent r (shift ∙ e))
            ∙ sent_by-stayed r.app r.app 0 rs last (sent ++ searched (s, n + r.wait))
                (same_deps_refl (deps_of r.app))
            ∙ append_assoc sent (searched (s, n + r.wait)) (searches (pauses r.app 0 rs last))
            ∙ rw e refl
      ]
    where
      shift : same_deps (deps_of p) (deps_of r.app) ≡ same_deps (deps_of s) (deps_of r.app)
      shift = same_deps_shift (deps_of s) (deps_of p) (deps_of r.app) h

  -- Whatever is typed, and whenever the page is rendered: the effect sends one search for each pause of
  -- 250 ms or more on the search page in Tauri with a query that is not blank, in order, and no other. A
  -- pause is a time in which query, filters and page stay as they are, however often the page is
  -- rendered meanwhile, and it is searched as the page was at its first render.
  pub typed-searches :
      (s : App) (rs : List Render) (last : ℕ)
      → typed number s rs last ≡ searches (pauses s 0 rs last)
  unfolding typed mounted
  typed-searches s rs last =
      ap (sent_by rs last)
        (ap (λ cs. record { shown = s; timer = left_of s 0; sent = cs }) (sym (searched_zero s)))
      ∙ sent_by-stayed s s 0 rs last [] (same_deps_refl (deps_of s))
