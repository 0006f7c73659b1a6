-- ===== src/Services/Events/Once.antt =====
-- How often the handler of `onEventOnce` is called.
use search_every.Prelude.{
  ℕ, ◌+◌, List, [], ◌∷◌, ◌++◌, Bool, true, false, map, take, length, ◌≡◌, refl, ap, ◌∙◌, arith,
  append_assoc, append-nil,
}
use search_every.Services.Events.{
  Subscription, Event, emitted, resolved, subscribed, step_once, run_once,
}

abbrev pub is_empty : {A : Type 0} → List A → Bool
is_empty [] = true
is_empty (x ∷ xs) = false

module _ {P : Type 0} where
  run_once-append :
      (xs ys : List (Event P)) (s : Subscription P)
      → run_once (xs ++ ys) s ≡ run_once ys (run_once xs s)
  unfolding run_once
  run_once-append [] ys s = refl
  run_once-append (x ∷ xs) ys s = run_once-append xs ys (step_once x s)

  abbrev waiting : List P → ℕ → Subscription P
  waiting called n = record { unlisten_set = false; registered = true; called = called; errors = n }

  abbrev gone : List P → ℕ → Subscription P
  gone called n = record { unlisten_set = true; registered = false; called = called; errors = n }

  -- Before the promise is resolved every event reaches the handler.
  run_once-waiting :
      (ps called : List P) (n : ℕ)
      → run_once (map emitted ps) (waiting called n) ≡ waiting (called ++ ps) (n + length ps)
  unfolding run_once
  run_once-waiting [] called n = rw (append-nil called) (ap (waiting called) (omega arith))
  run_once-waiting (p ∷ ps) called n =
      run_once-waiting ps (called ++ p ∷ []) (n + 1)
      ∙ rw (append_assoc called (p ∷ []) ps) (ap (waiting (called ++ p ∷ ps)) (omega arith))

  run_once-gone :
      (ps called : List P) (n : ℕ) → run_once (map emitted ps) (gone called n) ≡ gone called n
  unfolding run_once
  run_once-gone [] called n = refl
  run_once-gone (p ∷ ps) called n = run_once-gone ps called n

  run_once_late :
      (late called : List P) (n : ℕ)
      → run_once (resolved ∷ map emitted late) (waiting called n) ≡ record {
        unlisten_set = true;
        registered = is_empty late;
        called = called ++ take 1 late;
        errors = n;
      }
  unfolding run_once
  run_once_late [] called n = rw (append-nil called) refl
  run_once_late (p ∷ ps) called n = run_once-gone ps (called ++ p ∷ []) n

  -- The handler of `onEventOnce` is called for every event that comes before the promise of `listen`
  -- is resolved, each time with an exception behind it, and for the first event after that; only then
  -- is the listener removed.
  run_once_lem :
      (early late : List P)
      → run_once (map emitted early ++ resolved ∷ map emitted late) subscribed ≡ record {
        unlisten_set = true;
        registered = is_empty late;
        called = early ++ take 1 late;
        errors = length early;
      }
  run_once_lem early late =
      run_once-append (map emitted early) (resolved ∷ map emitted late) subscribed
      ∙ ap (run_once (resolved ∷ map emitted late))
          (run_once-waiting early [] 0 ∙ ap (waiting early) (omega arith))
      ∙ run_once_late late early (length early)
