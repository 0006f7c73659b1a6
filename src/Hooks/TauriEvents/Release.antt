-- ===== src/Hooks/TauriEvents/Release.antt =====
-- The listeners of the hook and its clean-up.
use search_every.Prelude.{
  ℕ, List, [], ◌∷◌, ◌++◌, Bool, true, false, any, ◌==◌, ◌≡◌, refl, ap, arith, ◌||◌, append_assoc,
  subst, All,
}
use search_every.Hooks.TauriEvents.{
  Config, Phase, calling, waiting, finished, State, Event, subscribes, fails, timer, cleanup, start,
  on_subscribe, on_failure, on_cleanup, settle, step, run, without,
}

any-append : (p : ℕ → Bool) (xs ys : List ℕ) → any p (xs ++ ys) ≡ (any p xs || any p ys)
any-append p [] ys = refl
any-append p (x ∷ xs) ys = ground (arith, any-append p xs ys)

-- Before the clean-up, the registered listeners are those that can be removed.
abbrev pub IsHeld : State → Type 0
IsHeld s = (s.cancelled ≡ false) × (s.live ≡ s.unlisteners)

abbrev pub IsLoop : Event → Type 0
IsLoop (subscribes h) = Unit
IsLoop fails = Unit
IsLoop timer = Unit
IsLoop cleanup = ⊥

settle-IsHeld :
    (c : Config) (p : Phase) (e : Event) (s : State) → IsHeld s → IsHeld (settle c p e s)
unfolding on_subscribe on_failure
settle-IsHeld c calling (subscribes h) s held = ground arith
settle-IsHeld c calling fails s held = ground arith
settle-IsHeld c calling timer s held = held
settle-IsHeld c calling cleanup s held = held
settle-IsHeld c (waiting ms) timer s held = held
settle-IsHeld c (waiting ms) (subscribes h) s held = held
settle-IsHeld c (waiting ms) fails s held = held
settle-IsHeld c (waiting ms) cleanup s held = held
settle-IsHeld c finished (subscribes h) s held = held
settle-IsHeld c finished fails s held = held
settle-IsHeld c finished timer s held = held
settle-IsHeld c finished cleanup s held = held

step-IsHeld : (c : Config) (s : State) (e : Event) → IsLoop e → IsHeld s → IsHeld (step c s e)
unfolding step
step-IsHeld c s (subscribes h) l held = settle-IsHeld c s.phase (subscribes h) s held
step-IsHeld c s fails l held = settle-IsHeld c s.phase fails s held
step-IsHeld c s timer l held = settle-IsHeld c s.phase timer s held
step-IsHeld c s cleanup l held = absurd l

run-IsHeld :
    (c : Config) (s : State) (es : List Event) → All IsLoop es → IsHeld s → IsHeld (run c s es)
unfolding run
run-IsHeld c s [] l held = held
run-IsHeld c s (e ∷ es) l held = run-IsHeld c (step c s e) es l.1 (step-IsHeld c s e l.0 held)

start-IsHeld : (c : Config) → IsHeld (start c)
unfolding start
start-IsHeld c = ground arith

abbrev pub Has : ℕ → List ℕ → Type 0
Has h xs = any (λ g. g == h) xs ≡ true

without-All : (gone xs : List ℕ) → All (λ h. Has h gone) xs → without gone xs ≡ []
without-All gone [] h = refl
without-All gone (x ∷ xs) h = rw h.0 (without-All gone xs h.1)

-- Every element of a list is in the list.
Has-behind : (xs ys : List ℕ) → All (λ h. Has h (xs ++ ys)) ys
Has-behind xs [] = tt
Has-behind xs (y ∷ ys) = (
  ground (arith, any-append (λ g. g == y) xs (y ∷ ys)),
  subst (λ l. All (λ h. Has h l) ys) (append_assoc xs (y ∷ []) ys) (Has-behind (xs ++ y ∷ []) ys),
)

without_self : (xs : List ℕ) → without xs xs ≡ []
without_self xs = without-All xs xs (Has-behind [] xs)

-- Whatever the subscriptions and timers did before, the first clean-up removes every listener that is
-- registered.
pub cleanup_releases :
    (c : Config) (es : List Event) → All IsLoop es → (step c (run c (start c) es) cleanup).live ≡ []
unfolding step on_cleanup
cleanup_releases c es l =
    let held = run-IsHeld c (start c) es l (start-IsHeld c) in
    rw held.1 (without_self (run c (start c) es).unlisteners)

-- After the clean-up no listener can be removed any more.
abbrev IsOver : State → Type 0
IsOver s = (s.cancelled ≡ true) × (s.unlisteners ≡ [])

without_none : (xs : List ℕ) → without [] xs ≡ xs
without_none [] = refl
without_none (x ∷ xs) = ap (◌∷◌ x) (without_none xs)

Has-append : (h : ℕ) (xs ys : List ℕ) → Has h xs → Has h (xs ++ ys)
Has-append h xs ys p = rw (any-append (λ g. g == h) xs ys, p)

step-Has :
    (c : Config) (s : State) (e : Event) (h : ℕ)
    → IsOver s
    → Has h s.live
    → ((step c s e).cancelled ≡ true) × ((step c s e).unlisteners ≡ []) × Has h (step c s e).live
unfolding step on_cleanup on_subscribe on_failure
step-Has c s cleanup h o p = (refl, refl, rw (o.1, without_none s.live) p)
step-Has c s (subscribes g) h o p = ground (arith, Has-append h s.live (g ∷ []) p)
step-Has c s fails h o p = ground arith
step-Has c s timer h o p = ground arith

run-Has :
    (c : Config) (s : State) (es : List Event) (h : ℕ)
    → IsOver s
    → Has h s.live
    → Has h (run c s es).live
unfolding run
run-Has c s [] h o p = p
run-Has c s (e ∷ es) h o p =
    let (a, b, q) = step-Has c s e h o p in run-Has c (step c s e) es h (a, b) q

late_subscription :
    (c : Config) (s : State) (h : ℕ)
    → s.phase ≡ calling
    → IsOver (step c (step c s cleanup) (subscribes h))
      × Has h (step c (step c s cleanup) (subscribes h)).live
unfolding step on_cleanup on_subscribe
late_subscription c s h p =
    ground (arith, any-append (λ g. g == h) (without s.unlisteners s.live) (h ∷ []))

-- A clean-up that comes while a subscription is on its way: the listener that it hands out is
-- registered and stays so, whatever happens later.
cleanup_leaks :
    (c : Config) (s : State) (h : ℕ) (es : List Event)
    → s.phase ≡ calling
    → Has h (run c s (cleanup ∷ subscribes h ∷ es)).live
cleanup_leaks c s h es p =
    let (over, caught) = late_subscription c s h p in
    unfold run in run-Has c (step c (step c s cleanup) (subscribes h)) es h over caught
