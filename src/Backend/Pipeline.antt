-- ===== src/Backend/Pipeline.antt =====
-- src-tauri/src/pipeline.rs and src-tauri/src/pipeline_state.rs, and the daily loop of
-- src-tauri/src/main.rs: the events of a scan that indexes as it goes, and when one is started. The
-- index itself is left out. The state file is one for all index directories; its writes succeed.
pub mod Rounds
pub mod Count
pub mod Late
use search_every.Prelude.{
  ℕ, zero, suc, ◌+◌, List, [], ◌∷◌, ◌++◌, Text, Bool, true, false, ◌||◌, not, Option, none, some,
  text_eq, if◌then◌else◌,
}
use search_every.Types.{FileMeta}
use search_every.App.Events.{BackEvent, progresses, indexed, scanned, scans}
use search_every.Backend.Scanner.{found_event}

pub record PipelineState : Type 0 where
  pub last_day : Option Text
  pub completed : Bool

-- `PipelineState::default()`
abbrev pub no_state : PipelineState
no_state = record { last_day = none; completed = false }

unfoldable pub mark_started : Text → PipelineState
mark_started today = record { last_day = some today; completed = false }

unfoldable pub mark_completed : Text → PipelineState
mark_completed today = record { last_day = some today; completed = true }

abbrev pub is_day : Option Text → Text → Bool
is_day none today = false
is_day (some day) today = text_eq day today

-- `(!st.completed) || (st.last_day.as_deref() != Some(&today))`
unfoldable pub need_run : PipelineState → Text → Bool
need_run st today = not st.completed || not (is_day st.last_day today)

-- What one round of the loop finds: whether automatic scans are on (`none` where the configuration
-- cannot be read), whether the state file can be read, the day, and whether the processor is idle.
pub record Tick : Type 0 where
  pub enabled : Option Bool
  pub has_state : Bool
  pub today : Text
  pub idle : Bool

-- The state file, and the scans that the loop has started.
pub record Daily : Type 0 where
  pub state : PipelineState
  pub started : ℕ

-- `load_state(…).unwrap_or_default()`
abbrev pub loaded : Tick → PipelineState → PipelineState
loaded t st = if t.has_state then st else no_state

abbrev pub starts : Tick → PipelineState → Option Bool → Bool
starts t st none = false
starts t st (some enabled) =
    if enabled then if need_run (loaded t st) t.today then t.idle else false else false

-- One round: a scan is started beside those that run.
unfoldable pub tick : Tick → Daily → Daily
tick t d = if starts t d.state t.enabled then record d { started = d.started + 1 } else d

-- What happens to the state file: rounds of the loop, and scans that begin and end.
pub data DailyEvent : Type 0 where
  round : Tick → DailyEvent
  begins ends : Text → DailyEvent

unfoldable pub run_daily : List DailyEvent → Daily → Daily
unfolding tick
run_daily [] d = d
run_daily (round t ∷ es) d = run_daily es (tick t d)
run_daily (begins day ∷ es) d = run_daily es (record d { state = mark_started day })
run_daily (ends day ∷ es) d = run_daily es (record d { state = mark_completed day })

-- How far the main loop is: in the walk, behind `scan_done`, or behind `index_done`. It writes the state
-- file between these two.
pub data LoopPhase : Type 0 where
  walking announced ended : LoopPhase

-- A running scan: the files that the walk has still to yield, those given to the threads, and the
-- counters of both.
pub record Pipe : Type 0 where
  pub to_scan : List FileMeta
  pub scanned_files : ℕ
  pub spawned : List FileMeta
  pub total_counter : ℕ
  pub phase : LoopPhase

abbrev pub begin : List FileMeta → Pipe
begin files = record {
  to_scan = files;
  scanned_files = 0;
  spawned = [];
  total_counter = 0;
  phase = walking;
}

-- The walk yields a file, or ends and is announced; the main loop ends; or a thread reports the file at
-- that place of those it was given.
pub data Move : Type 0 where
  scan announce finish : Move
  report : ℕ → Move

abbrev pub pick : ℕ → List FileMeta → Option (FileMeta × List FileMeta)
pick n [] = none
pick zero (f ∷ fs) = some (f, fs)
pick (suc n) (f ∷ fs) = elim (pick n fs) [ none ↦ none | some (g, gs) ↦ some (g, f ∷ gs) ]

-- The event of a thread, which has no total.
abbrev pub worker_event : ℕ → FileMeta → BackEvent
worker_event n f = progresses (record {
  current = some n;
  total = none;
  name = some f.file_name;
  path = some f.path;
  skipped = none;
})

abbrev pub scan_move : List FileMeta → Pipe → Pipe × List BackEvent
scan_move [] p = (p, [])
scan_move (f ∷ fs) p = (
  record p { to_scan = fs; scanned_files = p.scanned_files + 1; spawned = p.spawned ++ f ∷ [] },
  found_event (p.scanned_files + 1) f ∷ [],
)

-- `emit("scan_done", …)`, behind the walk
abbrev pub announce_move : LoopPhase → List FileMeta → Pipe → Pipe × List BackEvent
announce_move walking [] p = (record p { phase = announced }, scanned (some p.scanned_files) ∷ [])
announce_move walking (f ∷ fs) p = (p, [])
announce_move announced fs p = (p, [])
announce_move ended fs p = (p, [])

-- `emit("index_done", …)`
abbrev pub finish_move : LoopPhase → Pipe → Pipe × List BackEvent
finish_move walking p = (p, [])
finish_move announced p = (record p { phase = ended }, indexed ∷ [])
finish_move ended p = (p, [])

-- The count and the event of a thread are one step.
abbrev pub report_move : Option (FileMeta × List FileMeta) → Pipe → Pipe × List BackEvent
report_move none p = (p, [])
report_move (some (f, rest)) p = (
  record p { spawned = rest; total_counter = p.total_counter + 1 },
  worker_event (p.total_counter + 1) f ∷ [],
)

unfoldable pub step : Move → Pipe → Pipe × List BackEvent
step scan p = scan_move p.to_scan p
step announce p = announce_move p.phase p.to_scan p
step finish p = finish_move p.phase p
step (report n) p = report_move (pick n p.spawned) p

-- Any order of the moves; one that cannot be made is passed over.
unfoldable pub run_pipe : List Move → Pipe → Pipe × List BackEvent
unfolding step
run_pipe [] p = (p, [])
run_pipe (m ∷ ms) p = let (q, es) = run_pipe ms (step m p).0 in (q, (step m p).1 ++ es)
