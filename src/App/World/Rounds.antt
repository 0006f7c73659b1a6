-- ===== src/App/World/Rounds.antt =====
-- How many answers the handlers wait for.
use search_every.Prelude.{
  ℕ, suc, ◌+◌, ◌≤◌, ◌<◌, List, [], ◌∷◌, ◌++◌, Text, Bool, false, zero, ◌≡◌, refl, arith,
}
use search_every.Prelude.Int.{ℤ}
use search_every.Prelude.Number.{Number}
use search_every.App.State.{App, gives, throws}
use search_every.App.Scan.{on_scan_listening}
use search_every.App.Dup.{on_detect_listening, on_detect_scanned}
use search_every.App.World.{
  Pending, searching, loading, saving, resetting, indexing, piping, scanning, detect_scanning,
  detecting, diagnosing, picking_roots, picking_index_dir, listening, detect_listening, deleting,
  Result, resume, World, Steps, put_between,
}
use search_every.App.World.Busy.{opened, IsIdle, answer-IsIdle, opened-IsIdle, Steps-IsIdle}

-- The answers that the handler waits for from there on, at most.
abbrev pub rounds : Pending → ℕ
rounds (listening o) = 2
rounds (detect_listening o) = 3
rounds detect_scanning = 2
rounds _ = 1

abbrev pub total : List Pending → ℕ
total [] = 0
total (p ∷ ps) = rounds p + total ps

total-append : (ps qs : List Pending) → total (ps ++ qs) ≡ total ps + total qs
total-append [] qs = omega arith
total-append (p ∷ ps) qs = omega (arith, total-append ps qs)

resume-rounds : (p : Pending) (r : Result p) (s : App) → total (resume p r s).1 < rounds p
unfolding resume on_scan_listening on_detect_listening on_detect_scanned
resume-rounds (searching q) r s = omega arith
resume-rounds loading r s = omega arith
resume-rounds saving r s = omega arith
resume-rounds resetting r s = omega arith
resume-rounds indexing r s = omega arith
resume-rounds piping r s = omega arith
resume-rounds scanning r s = omega arith
resume-rounds detect_scanning (gives a) s = omega arith
resume-rounds detect_scanning (throws e) s = omega arith
resume-rounds detecting r s = omega arith
resume-rounds diagnosing r s = omega arith
resume-rounds picking_roots r s = omega arith
resume-rounds picking_index_dir r s = omega arith
resume-rounds (listening o) (gives a) s = omega arith
resume-rounds (listening o) (throws e) s = omega arith
resume-rounds (detect_listening o) (gives a) s = omega arith
resume-rounds (detect_listening o) (throws e) s = omega arith
resume-rounds (deleting p) r s = omega arith

-- Answers only: the count, the world before them and the world after.
pub data Answers : ℕ → World → World → Type 0 where
  none_left : (w : World) → Answers 0 w w
  one_more :
      {n : ℕ} {w : World} (before : List Pending) (p : Pending) (after : List Pending)
      (r : Result p) (s : App)
      → Answers n (put_between before after (resume p r s)) w
      → Answers (suc n) (record { app = s; pending = before ++ p ∷ after }) w

answer_total :
    (before after : List Pending) (p : Pending) (r : Result p) (s : App)
    → total (put_between before after (resume p r s)).pending < total (before ++ p ∷ after)
answer_total before after p r s = omega (
  arith,
  resume-rounds p r s,
  total-append before (p ∷ after),
  total-append before ((resume p r s).1 ++ after),
  total-append (resume p r s).1 after,
)

-- Whatever the answers are and in whichever order they come, each lowers the number of answers that
-- can still follow: the pending handlers wait for no more than that many.
Answers-total : (n : ℕ) (u w : World) → Answers n u w → n + total w.pending ≤ total u.pending
Answers-total n u w (none_left v) = omega arith
Answers-total n u w (one_more {n = m} before p after r s t) = omega (
  arith,
  answer_total before after p r s,
  Answers-total m (put_between before after (resume p r s)) w t,
)

module _ (reply : (p : Pending) → App → Result p) where
  abbrev pub answer_first : List Pending → App → World
  answer_first [] s = record { app = s; pending = [] }
  answer_first (p ∷ ps) s = put_between [] ps (resume p (reply p s) s)

  -- The first of the pending handlers is answered, so many times.
  abbrev pub answer_all : ℕ → World → World
  answer_all zero w = w
  answer_all (suc k) w = answer_all k (answer_first w.pending w.app)

  answer_all-Answers :
      (fuel : ℕ) (s : App) (ps : List Pending)
      → total ps ≤ fuel
      → let v = answer_all fuel (record { app = s; pending = ps }) in
        (n : ℕ) × Answers n (record { app = s; pending = ps }) v × (v.pending ≡ [])
  answer_all-Answers zero s [] h = (0, none_left _, refl)
  answer_all-Answers zero s (p ∷ ps) h = absurd (omega (arith, resume-rounds p (reply p s) s))
  answer_all-Answers (suc fuel) s [] h = answer_all-Answers fuel s [] (omega arith)
  answer_all-Answers (suc fuel) s (p ∷ ps) h =
      let (s', qs) = resume p (reply p s) s in
      let (n, t, e) =
        answer_all-Answers fuel s' (qs ++ ps)
          (omega (arith, answer_total [] ps p (reply p s) s, h)) in
      (suc n, one_more [] p ps (reply p s) s t, e)

Answers-IsIdle : (n : ℕ) (u w : World) → Answers n u w → IsIdle u → IsIdle w
Answers-IsIdle n u w (none_left v) i = i
Answers-IsIdle n u w (one_more {n = m} before p after r s t) i =
    Answers-IsIdle m (put_between before after (resume p r s)) w t
      (answer-IsIdle before after p r s i)

-- From every state that the page can reach, and after any answers in any order: the answers so far and
-- those that the handlers still wait for are no more than the handlers waited for at first; and
-- whatever the back end answers from there on, as many answers as they still wait for leave no handler
-- waiting, and `busy` false.
pub idle_at_last :
    (number : Text → Number) (in_tauri : Bool) (limit : ℤ) (u : World) (n : ℕ) (w : World)
    (reply : (p : Pending) → App → Result p)
    → Steps number (opened in_tauri limit) u
    → Answers n u w
    → let v = answer_all reply (total w.pending) w in
      (n + total w.pending ≤ total u.pending) × (v.pending ≡ []) × (v.app.busy ≡ false)
idle_at_last number in_tauri limit u n w reply t a =
    let v = answer_all reply (total w.pending) w in
    let (m, b, e) = answer_all-Answers reply (total w.pending) w.app w.pending (omega arith) in
    let i = Steps-IsIdle number (opened in_tauri limit) u t (opened-IsIdle in_tauri limit) in
    (Answers-total n u w a, e, Answers-IsIdle m w v b (Answers-IsIdle n u w a i) (rw e refl))
