-- ===== src/App/Call/Scans.antt =====
-- The handlers that scan, `doScan` and `runDetect`: that they end, and when.
use search_every.Prelude.{
  ℕ, ◌+◌, ◌≤◌, List, [], ◌∷◌, true, false, none, some, ◌≡◌, refl, ap, arith, map, codes,
}
use search_every.Types.{FileMeta, DupGroup}
use search_every.Constants.{invoke_timeouts}
use search_every.Services.Invoke.{Reply}
use search_every.Services.Api.{Command, ScanOpts, scan_paths_progress, detect_duplicates}
use search_every.App.State.{App, Answer, gives, throws}
use search_every.App.Scan.{scan_opts, do_scan, on_scan_listening, on_scanned}
use search_every.App.Dup.{
  run_detect, detect_with, on_detect_listening, on_detect_scanned, on_detected,
}
use search_every.App.Call.{answer_of, carry_out, run_scan, later, detect_from, run_duplicates}
use search_every.App.Call.Limits.{attempts, EndsWithin, call_ends, carry_out_ends}

scan_clears : (s : App) (x : Answer (List FileMeta)) → (on_scanned x s).busy ≡ false
unfolding on_scanned
scan_clears s (gives res) = refl
scan_clears s (throws e) = refl

detect_clears : (s : App) (x : Answer (List DupGroup)) → (on_detected x s).busy ≡ false
unfolding on_detected
detect_clears s (gives groups) = refl
detect_clears s (throws e) = refl

module _ (default_retries : ℕ) (files : Command → ℕ → Reply (List FileMeta)) where
  scan_listened :
      (opts : ScanOpts) (x : Answer (Unit {0})) (s : App)
      → EndsWithin
          (attempts default_retries invoke_timeouts.scan_paths)
          (carry_out default_retries files on_scanned (on_scan_listening opts x s))
  unfolding on_scan_listening scan_paths_progress carry_out
  scan_listened opts (gives u) s =
      carry_out_ends default_retries files on_scanned (scan_paths_progress opts) (s, none)
        {guard = true} refl (scan_clears s)
  scan_listened opts (throws e) s = (_, refl, refl, omega arith)

  pub scan_ends :
      (listening : Answer (Unit {0})) (s : App)
      → s.in_tauri ≡ true
      → EndsWithin
          (attempts default_retries invoke_timeouts.scan_paths)
          (run_scan default_retries listening files s)
  unfolding run_scan do_scan scan_opts
  scan_ends listening s inside = rw inside (scan_listened (scan_opts s) listening _)

  module _ (groups : Command → ℕ → Reply (List DupGroup)) where
    detect_asked :
        (paths : List FileMeta) (s : App)
        → EndsWithin (attempts default_retries invoke_timeouts.search_query) (
            carry_out default_retries groups on_detected
              (s, some (detect_duplicates (map (λ f. f.path) paths))))
    unfolding detect_duplicates
    detect_asked paths s =
        carry_out_ends default_retries groups on_detected
          (detect_duplicates (map (λ f. f.path) paths)) (s, none) {guard = true} refl
          (detect_clears s)

    detect_answered :
        (x : Answer (List FileMeta)) (s : App) (t limit : ℕ)
        → t ≤ limit
        → EndsWithin
            (limit + attempts default_retries invoke_timeouts.search_query)
            (later t (carry_out default_retries groups on_detected (on_detect_scanned x s)))
    unfolding on_detect_scanned carry_out
    detect_answered (gives res) s t limit h =
        let (a, e, idle, soon) =
          detect_asked res (record s { scanned = res; msg = codes "正在分析重复..." }) in
        (record a { elapsed = t + a.elapsed }, ap (later t) e, idle, omega (arith, h, soon))
    detect_answered (throws e) s t limit h = (_, refl, refl, omega (arith, h))

    detect_started :
        (listening : Answer (Unit {0})) (paths : List FileMeta) (s : App)
        → EndsWithin
            (attempts default_retries invoke_timeouts.scan_paths
              + attempts default_retries invoke_timeouts.search_query)
            (detect_from default_retries listening files groups (detect_with paths s))
    unfolding on_detect_listening scan_paths_progress
    detect_started listening (f ∷ fs) s =
        let (a, e, idle, soon) = detect_asked (f ∷ fs) (record s { msg = codes "正在分析重复..." }) in
        (a, e, idle, omega (arith, soon))
    detect_started (gives u) [] s =
        let (o, e, soon) = call_ends default_retries files (scan_paths_progress (scan_opts s)) in
        rw e (
          detect_answered (answer_of o.settled) s o.elapsed
            (attempts default_retries invoke_timeouts.scan_paths) soon)
    detect_started (throws e) [] s = (_, refl, refl, omega arith)

    pub duplicates_end :
        (listening : Answer (Unit {0})) (s : App)
        → s.in_tauri ≡ true
        → EndsWithin
            (attempts default_retries invoke_timeouts.scan_paths
              + attempts default_retries invoke_timeouts.search_query)
            (run_duplicates default_retries listening files groups s)
    unfolding run_duplicates run_detect
    duplicates_end listening s inside = rw inside (
        detect_started listening s.scanned
          (record s { in_tauri = true; busy = true; msg = codes "扫描中..." }))
