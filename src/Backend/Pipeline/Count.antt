-- ===== src/Backend/Pipeline/Count.antt =====
-- The files of a running scan: those that the walk has yielded, and those to come.
use search_every.Prelude.{◌+◌, List, [], ◌∷◌, Option, none, some, length, ◌≡◌, refl, ap, ◌∙◌, arith}
use search_every.Types.{FileMeta}
use search_every.Backend.Pipeline.{
  Pipe, LoopPhase, walking, announced, ended, Move, scan, announce, announce_move, finish, report,
  pick, scan_move, finish_move, report_move, step, run_pipe,
}

scan-size :
    (fs : List FileMeta) (p : Pipe)
    → fs ≡ p.to_scan
    → let q = (scan_move fs p).0 in
      q.scanned_files + length q.to_scan ≡ p.scanned_files + length p.to_scan
scan-size [] p e = refl
scan-size (f ∷ fs) p e = omega (arith, ap length e)

announce-size :
    (ph : LoopPhase) (fs : List FileMeta) (p : Pipe)
    → let q = (announce_move ph fs p).0 in
      q.scanned_files + length q.to_scan ≡ p.scanned_files + length p.to_scan
announce-size walking [] p = refl
announce-size walking (f ∷ fs) p = refl
announce-size announced fs p = refl
announce-size ended fs p = refl

finish-size :
    (ph : LoopPhase) (p : Pipe)
    → let q = (finish_move ph p).0 in
      q.scanned_files + length q.to_scan ≡ p.scanned_files + length p.to_scan
finish-size walking p = refl
finish-size announced p = refl
finish-size ended p = refl

report-size :
    (o : Option (FileMeta × List FileMeta)) (p : Pipe)
    → let q = (report_move o p).0 in
      q.scanned_files + length q.to_scan ≡ p.scanned_files + length p.to_scan
report-size none p = refl
report-size (some f) p = refl

step-size :
    (m : Move) (p : Pipe)
    → let q = (step m p).0 in
      q.scanned_files + length q.to_scan ≡ p.scanned_files + length p.to_scan
unfolding step
step-size scan p = scan-size p.to_scan p refl
step-size announce p = announce-size p.phase p.to_scan p
step-size finish p = finish-size p.phase p
step-size (report n) p = report-size (pick n p.spawned) p

pub run_pipe-size :
    (ms : List Move) (p : Pipe)
    → let q = (run_pipe ms p).0 in
      q.scanned_files + length q.to_scan ≡ p.scanned_files + length p.to_scan
unfolding run_pipe
run_pipe-size [] p = refl
run_pipe-size (m ∷ ms) p = run_pipe-size ms (step m p).0 ∙ step-size m p
