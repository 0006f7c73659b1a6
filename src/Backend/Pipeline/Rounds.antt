-- ===== src/Backend/Pipeline/Rounds.antt =====
-- When the daily loop starts a scan.
use search_every.Prelude.{
  ℕ, ◌+◌, List, [], ◌∷◌, Text, true, false, some, text_eq_refl, ◌≡◌, refl, ap, ◌∙◌, All, arith,
}
use search_every.Backend.Pipeline.{
  PipelineState, mark_started, mark_completed, need_run, Tick, Daily, loaded, tick, DailyEvent,
  round, begins, ends, run_daily,
}

-- Rounds of one day on which the state file can be read.
abbrev pub OnDay : Text → DailyEvent → Type 0
OnDay day (round t) = (t.today ≡ day) × (t.has_state ≡ true)
OnDay day (begins d) = ⊥
OnDay day (ends d) = ⊥

-- Rounds that find automatic scans on and the processor idle, and scans that begin.
abbrev pub IsBusyDay : DailyEvent → Type 0
IsBusyDay (round t) = (t.enabled ≡ some true) × (t.has_state ≡ true) × (t.idle ≡ true)
IsBusyDay (begins d) = Unit
IsBusyDay (ends d) = ⊥

abbrev pub rounds : List DailyEvent → ℕ
rounds [] = 0
rounds (round t ∷ es) = rounds es + 1
rounds (begins d ∷ es) = rounds es
rounds (ends d ∷ es) = rounds es

need_run-mark_completed : (day : Text) → need_run (mark_completed day) day ≡ false
unfolding need_run mark_completed
need_run-mark_completed day = rw (text_eq_refl day) refl

-- The loop sees the state that was kept.
need_run-loaded :
    (t : Tick) (st : PipelineState) (day : Text)
    → t.today ≡ day
    → t.has_state ≡ true
    → need_run (loaded t st) t.today ≡ need_run st day
need_run-loaded t st day e h = rw h (ap (need_run st) e)

started-tick_completed :
    (day : Text) (d : Daily) (t : Tick)
    → d.state ≡ mark_completed day
    → t.today ≡ day
    → t.has_state ≡ true
    → tick t d ≡ d
unfolding tick
started-tick_completed day d t st e h = ground (
  arith,
  need_run-loaded t d.state day e h,
  need_run-mark_completed day,
  ap (λ q. need_run q day) st,
)

still :
    (day : Text) (d : Daily) (es : List DailyEvent)
    → d.state ≡ mark_completed day
    → All (OnDay day) es
    → run_daily es d ≡ d
unfolding run_daily
still day d [] st h = refl
still day d (round t ∷ es) st h =
    ap (run_daily es) (started-tick_completed day d t st h.0.0 h.0.1) ∙ still day d es st h.1
still day d (begins b ∷ es) st h = absurd h.0
still day d (ends b ∷ es) st h = absurd h.0

need_run-mark_started : (day today : Text) → need_run (mark_started day) today ≡ true
unfolding need_run mark_started
need_run-mark_started day today = refl

tick-started :
    (day : Text) (d : Daily) (t : Tick)
    → d.state ≡ mark_started day
    → IsBusyDay (round t)
    → tick t d ≡ record d { started = d.started + 1 }
unfolding tick
tick-started day d t st (on, r, idle) = ground (
  arith,
  need_run-loaded t d.state t.today refl r,
  need_run-mark_started day t.today,
  ap (λ q. need_run q t.today) st,
)

counts :
    (day : Text) (d : Daily) (es : List DailyEvent)
    → d.state ≡ mark_started day
    → All IsBusyDay es
    → (run_daily es d).started ≡ d.started + rounds es
unfolding run_daily
counts day d [] st h = omega arith
counts day d (round t ∷ es) st h =
    ap (λ q. (run_daily es q).started) (tick-started day d t st h.0)
    ∙ counts day (record d { started = d.started + 1 }) es st h.1
    ∙ omega arith
counts day d (begins b ∷ es) st h = counts b (record d { state = mark_started b }) es refl h.1
counts day d (ends b ∷ es) st h = absurd h.0

-- Once a scan has ended, the loop starts no other on that day, if the state file can be read.
run_daily-ends :
    (day : Text) (d : Daily) (es : List DailyEvent)
    → All (OnDay day) es
    → (run_daily (ends day ∷ es) d).started ≡ d.started
unfolding run_daily
run_daily-ends day d es h =
    ap (λ q. q.started) (still day (record d { state = mark_completed day }) es refl h)

-- After a scan has begun, and as long as no scan ends, each round that finds automatic scans on, the state
-- file readable and the processor idle starts another one, whether or not those have begun.
run_daily-begins :
    (day : Text) (d : Daily) (es : List DailyEvent)
    → All IsBusyDay es
    → (run_daily (begins day ∷ es) d).started ≡ d.started + rounds es
unfolding run_daily
run_daily-begins day d es h = counts day (record d { state = mark_started day }) es refl h
