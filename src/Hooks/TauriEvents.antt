-- ===== src/Hooks/TauriEvents.antt =====
-- src/hooks/useTauriEvents.ts: one run of the effect, from its start to its clean-up and beyond. The
-- asynchronous loop waits for the promise of a subscription or for a timer; what happens meanwhile is
-- the list of events. A subscription that succeeds hands out a listener, named by a number that no
-- other listener has. Calling an unlistener does not throw. Where `active` is false nothing runs.
pub mod Release
pub mod Budget
pub mod Ending
use search_every.Prelude.{
  ℕ, zero, suc, ◌+◌, ◌-◌, ◌*◌, ◌^◌, List, [], ◌∷◌, ◌++◌, Bool, true, false, not, ltb, ◌==◌, any,
  filter, if◌then◌else◌,
}

-- The number of subscription functions, and the options.
pub record Config : Type 0 where
  pub count : ℕ
  pub retries : ℕ
  pub backoff_ms : ℕ

-- What the loop waits for: the promise of `fn()`, the timer before the next attempt, or nothing more.
pub data Phase : Type 0 where
  calling : Phase
  waiting : ℕ → Phase
  finished : Phase

-- `live` holds the listeners that are registered with the host and not removed; `reported` the index
-- of each call of `onError`, and `calls` the number of calls of a subscription function.
pub record State : Type 0 where
  pub phase : Phase
  pub index : ℕ
  pub attempt : ℕ
  pub cancelled : Bool
  pub unlisteners : List ℕ
  pub live : List ℕ
  pub reported : List ℕ
  pub calls : ℕ

pub data Event : Type 0 where
  subscribes : ℕ → Event
  fails : Event
  timer : Event
  cleanup : Event

-- The loop turns to the next subscription function.
abbrev pub enter : Config → ℕ → State → State
enter c i s =
    if ltb i c.count
    then record s { phase = calling; index = i; attempt = 0; calls = s.calls + 1 }
    else record s { phase = finished; index = i; attempt = 0 }

unfoldable pub start : Config → State
start c = enter c 0 (record {
  phase = finished;
  index = 0;
  attempt = 0;
  cancelled = false;
  unlisteners = [];
  live = [];
  reported = [];
  calls = 0;
})

-- `if (!cancelled) unlisteners.push(un)`
abbrev pub received : ℕ → State → State
received h s = record s {
  unlisteners = if s.cancelled then s.unlisteners else s.unlisteners ++ h ∷ [];
  live = s.live ++ h ∷ [];
}

-- `const un = await fn(); …; break`
unfoldable pub on_subscribe : Config → ℕ → State → State
on_subscribe c h s = enter c (s.index + 1) (received h s)

-- `onError?.(e, i); attempt++`
abbrev pub told : State → State
told s = record s { reported = s.reported ++ s.index ∷ []; attempt = s.attempt + 1 }

-- The rest of the `catch` clause: the next function, or a pause that doubles with each attempt.
unfoldable pub on_failure : Config → State → State
on_failure c s =
    if ltb c.retries (s.attempt + 1)
    then enter c (s.index + 1) (told s)
    else record (told s) { phase = waiting (c.backoff_ms * 2 ^ s.attempt) }

-- The listeners without those that are removed.
abbrev pub without : List ℕ → List ℕ → List ℕ
without gone = filter (λ h. not (any (λ g. g == h) gone))

-- The clean-up function of the effect.
unfoldable pub on_cleanup : State → State
on_cleanup s = record s { cancelled = true; live = without s.unlisteners s.live; unlisteners = [] }

-- An event that the loop does not wait for changes nothing.
abbrev settle : Config → Phase → Event → State → State
settle c calling (subscribes h) s = on_subscribe c h s
settle c calling fails s = on_failure c s
settle c (waiting ms) timer s = record s { phase = calling; calls = s.calls + 1 }
settle c _ _ s = s

unfoldable pub step : Config → State → Event → State
unfolding on_subscribe on_failure on_cleanup
step c s cleanup = on_cleanup s
step c s (subscribes h) = settle c s.phase (subscribes h) s
step c s fails = settle c s.phase fails s
step c s timer = settle c s.phase timer s

unfoldable pub run : Config → State → List Event → State
unfolding step
run c s [] = s
run c s (e ∷ es) = run c (step c s e) es
