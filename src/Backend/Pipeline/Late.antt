-- ===== src/Backend/Pipeline/Late.antt =====
-- What the page of src/App.tsx shows after a scan that indexes as it goes.
use search_every.Prelude.{
  ◌+◌, List, [], ◌∷◌, ◌++◌, Bool, true, false, length, ◌||◌, subst, Option, none, some, ◌≡◌, refl,
  ap, sym, ◌∙◌, arith, if◌then◌else◌,
}
use search_every.Types.{FileMeta}
use search_every.App.State.{App}
use search_every.App.Scan.{on_index_progress, on_index_done, on_scan_done}
use search_every.App.Events.{BackEvent, react}
use search_every.Backend.Pipeline.Count.{run_pipe-size}
use search_every.Backend.Pipeline.{
  Pipe, LoopPhase, walking, announced, ended, begin, Move, scan, announce, announce_move, finish,
  report, pick, scan_move, finish_move, report_move, worker_event, step, run_pipe,
}

abbrev pub react_all : List BackEvent → App → App
react_all [] s = s
react_all (e ∷ es) s = react_all es (react e s)

react_all-append :
    (xs ys : List BackEvent) (s : App) → react_all (xs ++ ys) s ≡ react_all ys (react_all xs s)
react_all-append [] ys s = refl
react_all-append (x ∷ xs) ys s = react_all-append xs ys (react x s)

-- Whether the move makes a thread report in one of these phases.
abbrev given : Option (FileMeta × List FileMeta) → Bool
given none = false
given (some f) = true

abbrev pub after_walk : LoopPhase → Bool
after_walk walking = false
after_walk announced = true
after_walk ended = true

abbrev pub after_end : LoopPhase → Bool
after_end walking = false
after_end announced = false
after_end ended = true

unfoldable pub reports_in : (LoopPhase → Bool) → Move → Pipe → Bool
reports_in phases scan p = false
reports_in phases announce p = false
reports_in phases finish p = false
reports_in phases (report n) p = if phases p.phase then given (pick n p.spawned) else false

unfoldable pub any_report : (LoopPhase → Bool) → List Move → Pipe → Bool
unfolding reports_in
any_report phases [] p = false
any_report phases (m ∷ ms) p = reports_in phases m p || any_report phases ms (step m p).0

or_false : (b : Bool) → b || false ≡ b
or_false true = refl
or_false false = refl

or_true : (b : Bool) → b || true ≡ true
or_true true = refl
or_true false = refl

or_assoc : (a b c : Bool) → (a || b) || c ≡ a || (b || c)
or_assoc true b c = refl
or_assoc false b c = refl

-- What the page shows in each phase, where `since` and `late` say whether a thread has reported since the
-- walk and since the end.
abbrev Shown : LoopPhase → Bool → Bool → Pipe → App → Type 0
Shown walking since late p s = (since ≡ false) × (late ≡ false)
Shown announced since late p s =
    (late ≡ false) × (p.to_scan ≡ []) × (s.idx_total ≡ (if since then 0 else p.scanned_files))
Shown ended since late p s =
    (s.idx_running ≡ late)
    × (p.to_scan ≡ [])
    × (s.idx_total ≡ (if since then 0 else p.scanned_files))

abbrev After : Bool → Bool → Pipe × List BackEvent → App → Type 0
After since late (q, es) s = Shown q.phase since late q (react_all es s)

-- A move is made in a phase that is known.
abbrev In : LoopPhase → Pipe → Type 0
In ph p = p.phase ≡ ph

at_phase :
    (ph : LoopPhase) (since late : Bool) (q : Pipe) (s : App)
    → In ph q
    → Shown ph since late q s
    → Shown q.phase since late q s
at_phase ph since late q s e h = subst (λ f. Shown f since late q s) (sym e) h

scan-After :
    (ph : LoopPhase) (since late : Bool) (fs : List FileMeta) (p : Pipe) (s : App)
    → In ph p
    → p.to_scan ≡ fs
    → Shown ph since late p s
    → After since late (scan_move fs p) s
scan-After ph since late [] p s e t h = at_phase ph since late p s e h
scan-After walking since late (f ∷ fs) p s e t h =
    let (q, es) = scan_move (f ∷ fs) p in at_phase walking since late q (react_all es s) e h
scan-After announced since late (f ∷ fs) p s e t h = absurd (cc)
scan-After ended since late (f ∷ fs) p s e t h = absurd (cc)

announce-After :
    (ph : LoopPhase) (since late : Bool) (fs : List FileMeta) (p : Pipe) (s : App)
    → In ph p
    → p.to_scan ≡ fs
    → Shown ph since late p s
    → After since late (announce_move ph fs p) s
unfolding react on_scan_done
announce-After walking since late [] p s e t h = (h.1, t, rw h.0 refl)
announce-After walking since late (f ∷ fs) p s e t h = at_phase walking since late p s e h
announce-After announced since late fs p s e t h = at_phase announced since late p s e h
announce-After ended since late fs p s e t h = at_phase ended since late p s e h

finish-After :
    (ph : LoopPhase) (since late : Bool) (p : Pipe) (s : App)
    → In ph p
    → Shown ph since late p s
    → After since late (finish_move ph p) s
unfolding react on_index_done
finish-After walking since late p s e h = at_phase walking since late p s e h
finish-After announced since late p s e h = (sym h.0, h.1, h.2)
finish-After ended since late p s e h = at_phase ended since late p s e h

report-After :
    (ph : LoopPhase) (since late : Bool) (o : Option (FileMeta × List FileMeta)) (p : Pipe)
    (s : App)
    → In ph p
    → Shown ph since late p s
    → After
        (since || (if after_walk ph then given o else false))
        (late || (if after_end ph then given o else false))
        (report_move o p)
        s
unfolding react on_index_progress
report-After walking since late none p s e h =
    rw (or_false since, or_false late) (at_phase walking since late p s e h)
report-After announced since late none p s e h =
    rw (or_false since, or_false late) (at_phase announced since late p s e h)
report-After ended since late none p s e h =
    rw (or_false since, or_false late) (at_phase ended since late p s e h)
report-After walking since late (some (f, rest)) p s e h =
    rw (or_false since, or_false late)
      (at_phase walking since late
        (record p { spawned = rest; total_counter = p.total_counter + 1 })
        (react (worker_event (p.total_counter + 1) f) s) e h)
report-After announced since late (some (f, rest)) p s e h =
    rw (or_true since, or_false late)
      (at_phase announced true late
        (record p { spawned = rest; total_counter = p.total_counter + 1 })
        (react (worker_event (p.total_counter + 1) f) s) e (h.0, h.1, refl))
report-After ended since late (some (f, rest)) p s e h =
    rw (or_true since, or_true late)
      (at_phase ended true true (record p { spawned = rest; total_counter = p.total_counter + 1 })
        (react (worker_event (p.total_counter + 1) f) s) e (refl, h.1, refl))

step-After :
    (since late : Bool) (m : Move) (p : Pipe) (s : App)
    → Shown p.phase since late p s
    → After (since || reports_in after_walk m p) (late || reports_in after_end m p) (step m p) s
unfolding step reports_in
step-After since late scan p s h =
    rw (or_false since, or_false late) (scan-After p.phase since late p.to_scan p s refl refl h)
step-After since late announce p s h =
    rw (or_false since, or_false late) (announce-After p.phase since late p.to_scan p s refl refl h)
step-After since late finish p s h =
    rw (or_false since, or_false late) (finish-After p.phase since late p s refl h)
step-After since late (report n) p s h =
    report-After p.phase since late (pick n p.spawned) p s refl h

run_pipe-After :
    (since late : Bool) (ms : List Move) (p : Pipe) (s : App)
    → Shown p.phase since late p s
    → After
        (since || any_report after_walk ms p)
        (late || any_report after_end ms p)
        (run_pipe ms p)
        s
unfolding run_pipe any_report
run_pipe-After since late [] p s h = rw (or_false since, or_false late) h
run_pipe-After since late (m ∷ ms) p s h =
    let (q, es) = step m p in
    let (r, fs) = run_pipe ms q in
    let a = reports_in after_walk m p in
    let b = reports_in after_end m p in
    let x = any_report after_walk ms q in
    let y = any_report after_end ms q in
    let rest =
      run_pipe-After (since || a) (late || b) ms q (react_all es s)
        (step-After since late m p s h) in
    subst (λ c. After c (late || (b || y)) (r, es ++ fs) s) (or_assoc since a x)
      (subst (λ c. After ((since || a) || x) c (r, es ++ fs) s) (or_assoc late b y)
        (subst (λ t. Shown r.phase ((since || a) || x) ((late || b) || y) r t)
          (sym (react_all-append es fs s)) rest))

-- However the walk and the threads take turns: once the main loop has ended, the page shows the index as
-- running exactly if a thread has reported after that end; and the total that it shows is 0 if a thread
-- has reported after the end of the walk, and else the number of the files.
pub run_pipe-late :
    (files : List FileMeta) (ms : List Move) (s : App)
    → (run_pipe ms (begin files)).0.phase ≡ ended
    → let t = react_all (run_pipe ms (begin files)).1 s in
      (t.idx_running ≡ any_report after_end ms (begin files))
      × (t.idx_total ≡ (if any_report after_walk ms (begin files) then 0 else length files))
run_pipe-late files ms s f =
    let p = (run_pipe ms (begin files)).0 in
    let t = react_all (run_pipe ms (begin files)).1 s in
    let since = any_report after_walk ms (begin files) in
    let late = any_report after_end ms (begin files) in
    let (running, empty, total) =
      subst (λ ph. Shown ph since late p t) f
        (run_pipe-After false false ms (begin files) s (refl, refl)) in
    let size = run_pipe-size ms (begin files) in
    (running, total ∙ ap (λ n. if since then 0 else n) (omega (arith, size, ap length empty)))
