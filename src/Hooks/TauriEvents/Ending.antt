-- ===== src/Hooks/TauriEvents/Ending.antt =====
-- How long the loop of the hook can run.
use search_every.Prelude.{
  ℕ, ◌+◌, ◌-◌, ◌*◌, ◌≤◌, ◌<◌, List, [], ◌∷◌, ◌≡◌, refl, arith, length, ltb, Bool-cases, inl, inr,
}
use search_every.Hooks.TauriEvents.{
  Config, Phase, calling, waiting, finished, State, enter, received, told, Event, subscribes, fails,
  timer, cleanup, start, on_subscribe, on_failure, settle, step,
}
use search_every.Hooks.TauriEvents.Budget.{
  later, later_step, later_start, still, InBudget, start-InBudget, step-InBudget,
}

-- A bound of the settlements and timers that the loop still waits for.
unfoldable pub effort : Config → Phase → ℕ → ℕ → ℕ
unfolding still
effort c calling i attempt = 2 * still c calling i attempt + 1
effort c (waiting ms) i attempt = 2 * still c (waiting ms) i attempt
effort c finished i attempt = 0

abbrev effort_of : Config → State → ℕ
effort_of c s = effort c s.phase s.index s.attempt

-- The event is one that the loop waits for.
abbrev pub Awaited : Phase → Event → Type 0
Awaited calling (subscribes h) = Unit
Awaited calling fails = Unit
Awaited (waiting ms) timer = Unit
Awaited _ _ = ⊥

enter_effort : (c : Config) (i : ℕ) (s : State) → effort_of c (enter c (i + 1) s) ≤ 2 * later c i
unfolding effort
enter_effort c i s = elim (Bool-cases (ltb (i + 1) c.count)) [
  | inl e ↦ rw e (ground (arith, later_step c i))
  | inr e ↦ rw e (omega arith)
]

on_failure_effort :
    (c : Config) (s : State)
    → s.phase ≡ calling
    → InBudget c s
    → effort_of c (on_failure c s) < effort_of c s
unfolding on_failure effort
on_failure_effort c s p b = elim (Bool-cases (ltb c.retries (s.attempt + 1))) [
  | inl e ↦ rw e (ground (arith, enter_effort c s.index (told s)))
  | inr e ↦ rw e (ground (arith, b.current))
]

effort_calling :
    (c : Config) (s : State)
    → s.phase ≡ calling
    → effort_of c s ≡ 2 * (later c s.index + (c.retries - s.attempt)) + 1
unfolding effort
effort_calling c s p = rw p

on_subscribe_effort :
    (c : Config) (h : ℕ) (s : State)
    → s.phase ≡ calling
    → effort_of c (on_subscribe c h s) < effort_of c s
unfolding on_subscribe
on_subscribe_effort c h s p =
    omega (arith, enter_effort c s.index (received h s), effort_calling c s p)

settle_effort :
    (c : Config) (p : Phase) (e : Event) (s : State)
    → s.phase ≡ p
    → InBudget c s
    → Awaited p e
    → effort_of c (settle c p e s) < effort_of c s
unfolding effort
settle_effort c calling (subscribes h) s q b a = on_subscribe_effort c h s q
settle_effort c calling fails s q b a = on_failure_effort c s q b
settle_effort c (waiting ms) timer s q b a = ground arith
settle_effort c calling timer s q b a = absurd a
settle_effort c calling cleanup s q b a = absurd a
settle_effort c (waiting ms) (subscribes h) s q b a = absurd a
settle_effort c (waiting ms) fails s q b a = absurd a
settle_effort c (waiting ms) cleanup s q b a = absurd a
settle_effort c finished (subscribes h) s q b a = absurd a
settle_effort c finished fails s q b a = absurd a
settle_effort c finished timer s q b a = absurd a
settle_effort c finished cleanup s q b a = absurd a

step_effort :
    (c : Config) (s : State) (e : Event)
    → InBudget c s
    → Awaited s.phase e
    → effort_of c (step c s e) < effort_of c s
unfolding step
step_effort c s (subscribes h) b a = settle_effort c s.phase (subscribes h) s refl b a
step_effort c s fails b a = settle_effort c s.phase fails s refl b a
step_effort c s timer b a = settle_effort c s.phase timer s refl b a
step_effort c s cleanup b a = absurd (never s.phase a)
  where
    never : (p : Phase) → Awaited p cleanup → ⊥
    never calling x = x
    never (waiting ms) x = x
    never finished x = x

-- Events that the loop waits for, one after another.
abbrev pub Drives : Config → State → List Event → Type 0
Drives c s [] = Unit
Drives c s (e ∷ es) = Awaited s.phase e × Drives c (step c s e) es

Drives-effort :
    (c : Config) (s : State) (es : List Event)
    → InBudget c s
    → Drives c s es
    → length es ≤ effort_of c s
Drives-effort c s [] b d = omega arith
Drives-effort c s (e ∷ es) b d =
    omega
      (arith, step_effort c s e b d.0, Drives-effort c (step c s e) es (step-InBudget c s e b) d.1)

start_effort : (c : Config) → effort_of c (start c) ≤ 2 * (c.count * (c.retries + 1))
unfolding start effort
start_effort c = elim (Bool-cases (ltb 0 c.count)) [
  | inl e ↦ rw e (ground (arith, later_start c))
  | inr e ↦ rw e (omega arith)
]

-- The loop comes to an end: it waits for no more than two events for each call that the retries
-- allow, a settlement and a timer.
pub loop_ends :
    (c : Config) (es : List Event)
    → Drives c (start c) es
    → length es ≤ 2 * (c.count * (c.retries + 1))
loop_ends c es d = omega (arith, Drives-effort c (start c) es (start-InBudget c) d, start_effort c)
