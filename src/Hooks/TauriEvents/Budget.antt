-- ===== src/Hooks/TauriEvents/Budget.antt =====
-- The number of calls of the subscription functions.
use search_every.Prelude.{
  ℕ, ◌+◌, ◌-◌, ◌*◌, ◌≤◌, ◌<◌, List, [], ◌∷◌, ◌≡◌, refl, ap, arith, ltb, Bool-cases, ◌∙◌, inl, inr,
}
use search_every.Hooks.TauriEvents.{
  Config, Phase, calling, waiting, finished, State, enter, received, told, Event, subscribes, fails,
  timer, cleanup, start, on_subscribe, on_failure, on_cleanup, settle, step, run,
}

-- The calls that the functions behind the current one may take.
abbrev pub later : Config → ℕ → ℕ
later c i = (c.count - (i + 1)) * (c.retries + 1)

pub later_step :
    (c : Config) (i : ℕ) → i + 1 < c.count → later c i ≡ later c (i + 1) + (c.retries + 1)
later_step c i h =
    let fewer : c.count - (i + 1) ≡ c.count - (i + 1 + 1) + 1 = omega arith in
    ap (λ n. n * (c.retries + 1)) fewer ∙ omega arith

pub later_start :
    (c : Config) → 0 < c.count → later c 0 + (c.retries + 1) ≡ c.count * (c.retries + 1)
later_start c h =
    let fewer : c.count - (0 + 1) + 1 ≡ c.count = omega arith in
    omega arith ∙ ap (λ n. n * (c.retries + 1)) fewer

-- A bound of the calls that are still to come.
unfoldable pub still : Config → Phase → ℕ → ℕ → ℕ
still c calling i attempt = later c i + (c.retries - attempt)
still c (waiting ms) i attempt = later c i + (c.retries - attempt) + 1
still c finished i attempt = 0

pub record InBudget (c : Config) (s : State) : Type 0 where
  pub current : s.attempt ≤ c.retries
  pub within : s.calls + still c s.phase s.index s.attempt ≤ c.count * (c.retries + 1)

enter-InBudget :
    (c : Config) (i : ℕ) (s : State)
    → s.calls + later c i ≤ c.count * (c.retries + 1)
    → InBudget c (enter c (i + 1) s)
unfolding still
enter-InBudget c i s h = elim (Bool-cases (ltb (i + 1) c.count)) [
  | inl e ↦ rw e (record { current = omega arith; within = ground (arith, later_step c i) })
  | inr e ↦ rw e (record { current = omega arith; within = omega arith })
]

pub start-InBudget : (c : Config) → InBudget c (start c)
unfolding start still
start-InBudget c = elim (Bool-cases (ltb 0 c.count)) [
  | inl e ↦ rw e (record { current = omega arith; within = ground (arith, later_start c) })
  | inr e ↦ rw e (record { current = omega arith; within = omega arith })
]

on_subscribe-InBudget :
    (c : Config) (h : ℕ) (s : State)
    → s.phase ≡ calling
    → InBudget c s
    → InBudget c (on_subscribe c h s)
unfolding on_subscribe still
on_subscribe-InBudget c h s p b = enter-InBudget c s.index (received h s) (ground arith)

on_failure-InBudget :
    (c : Config) (s : State) → s.phase ≡ calling → InBudget c s → InBudget c (on_failure c s)
unfolding on_failure still
on_failure-InBudget c s p b = elim (Bool-cases (ltb c.retries (s.attempt + 1))) [
  | inl e ↦ rw e (enter-InBudget c s.index (told s) (ground arith))
  | inr e ↦ rw e (record { current = ground arith; within = ground arith })
]

timer-InBudget :
    (c : Config) (ms : ℕ) (s : State)
    → s.phase ≡ waiting ms
    → InBudget c s
    → InBudget c (record s { phase = calling; calls = s.calls + 1 })
unfolding still
timer-InBudget c ms s p b = record { current = b.current; within = ground arith }

cleanup-InBudget : (c : Config) (s : State) → InBudget c s → InBudget c (on_cleanup s)
unfolding on_cleanup still
cleanup-InBudget c s b = record { current = b.current; within = b.within }

settle-InBudget :
    (c : Config) (p : Phase) (e : Event) (s : State)
    → s.phase ≡ p
    → InBudget c s
    → InBudget c (settle c p e s)
settle-InBudget c calling (subscribes h) s q b = on_subscribe-InBudget c h s q b
settle-InBudget c calling fails s q b = on_failure-InBudget c s q b
settle-InBudget c calling timer s q b = b
settle-InBudget c calling cleanup s q b = b
settle-InBudget c (waiting ms) timer s q b = timer-InBudget c ms s q b
settle-InBudget c (waiting ms) (subscribes h) s q b = b
settle-InBudget c (waiting ms) fails s q b = b
settle-InBudget c (waiting ms) cleanup s q b = b
settle-InBudget c finished (subscribes h) s q b = b
settle-InBudget c finished fails s q b = b
settle-InBudget c finished timer s q b = b
settle-InBudget c finished cleanup s q b = b

pub step-InBudget : (c : Config) (s : State) (e : Event) → InBudget c s → InBudget c (step c s e)
unfolding step
step-InBudget c s cleanup b = cleanup-InBudget c s b
step-InBudget c s (subscribes h) b = settle-InBudget c s.phase (subscribes h) s refl b
step-InBudget c s fails b = settle-InBudget c s.phase fails s refl b
step-InBudget c s timer b = settle-InBudget c s.phase timer s refl b

run-InBudget : (c : Config) (s : State) (es : List Event) → InBudget c s → InBudget c (run c s es)
unfolding run
run-InBudget c s [] b = b
run-InBudget c s (e ∷ es) b = run-InBudget c (step c s e) es (step-InBudget c s e b)

-- Whatever happens, the subscription functions are called `retries + 1` times each, at most.
calls_bound :
    (c : Config) (es : List Event) → (run c (start c) es).calls ≤ c.count * (c.retries + 1)
calls_bound c es = omega (arith, (run-InBudget c (start c) es (start-InBudget c)).within)
