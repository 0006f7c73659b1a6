-- ===== src/Backend/Scanner/Page.antt =====
-- A scan of the back end for the front end: the files that the fields of src/App.tsx let through, and
-- what the page shows of the events.
use search_every.Prelude.{
  ℕ, suc, ◌+◌, ◌≤◌, List, [], ◌∷◌, ◌++◌, Text, Bool, true, false, Option, none, some, any, length,
  ◌≡◌, refl, sym, ◌∙◌, All, arith, Bool-cases, inl, inr,
}
use search_every.Types.{FileMeta}
use search_every.Utils.Csv.{parse_csv}
use search_every.App.State.{App, gives}
use search_every.App.Scan.{scan_opts, do_scan, on_scan_progress, on_scan_done, on_scanned}
use search_every.App.Events.{BackEvent, scanned, scan_progress, subscribe_fns, emit, react}
use search_every.Backend.Scanner.{
  ScanOptions, options_of, too_big, Host, Entry, Metadata, contains, excluded, max_bytes, accept,
  accept_path, accept_file, found_event, scan, scan_paths_progress,
}
use search_every.Backend.Scanner.Found.{
  keep, numbered, accepted, entries, scan-accepted, scan_paths_progress-scan,
}

abbrev FitsLimit : Option ℕ → ℕ → Type 0
FitsLimit none len = Unit
FitsLimit (some limit) len = len ≤ limit

too_big-FitsLimit : (o : Option ℕ) (len : ℕ) → too_big o len ≡ false → FitsLimit o len
too_big-FitsLimit none len h = tt
too_big-FitsLimit (some limit) len h = ground arith

-- The options that a scan of the page asks for.
abbrev pub page_opts : App → ScanOptions
page_opts s = options_of (scan_opts s)

abbrev pub IsWanted : ScanOptions → FileMeta → Type 0
IsWanted opts f =
    All (λ p. contains f.path p ≡ false) opts.exclude_patterns × FitsLimit (max_bytes opts) f.size

any-All : (q : Text → Bool) (ps : List Text) → any q ps ≡ false → All (λ p. q p ≡ false) ps
any-All q [] h = tt
any-All q (p ∷ ps) h = ground (arith, any-All q ps)

module _ (host : Host) (opts : ScanOptions) where
  keep-IsWanted :
      (f : Option FileMeta) (fs : List FileMeta)
      → All (IsWanted opts) (keep f [])
      → All (IsWanted opts) fs
      → All (IsWanted opts) (keep f fs)
  keep-IsWanted none fs h hs = hs
  keep-IsWanted (some f) fs h hs = (h.0, hs)

  accept_file-IsWanted :
      (e : Entry) (path : Text) (md : Option Metadata)
      → excluded opts path ≡ false
      → All (IsWanted opts) (keep (accept_file host opts e path md) [])
  unfolding excluded
  accept_file-IsWanted e path none h = tt
  accept_file-IsWanted e path (some md) h = elim (Bool-cases (too_big (max_bytes opts) md.len)) [
    | inl big ↦ rw big tt
    | inr small ↦ rw small (
      (
        any-All (contains path) opts.exclude_patterns h,
        too_big-FitsLimit (max_bytes opts) md.len small,
      ),
      tt,
    )
  ]

  accept_path-IsWanted :
      (e : Entry) (path : Option Text)
      → All (IsWanted opts) (keep (accept_path host opts e path) [])
  accept_path-IsWanted e none = tt
  accept_path-IsWanted e (some path) = elim (Bool-cases (excluded opts path)) [
    | inl out ↦ rw out tt
    | inr inside ↦ rw inside (accept_file-IsWanted e path e.metadata inside)
  ]

  accept-IsWanted : (e : Option Entry) → All (IsWanted opts) (keep (accept host opts e) [])
  unfolding accept
  accept-IsWanted none = tt
  accept-IsWanted (some e) = elim (Bool-cases e.is_file) [
    | inl file ↦ rw file (accept_path-IsWanted e e.path)
    | inr dir ↦ rw dir tt
  ]

  accepted-IsWanted : (es : List (Option Entry)) → All (IsWanted opts) (accepted host opts es)
  accepted-IsWanted [] = tt
  accepted-IsWanted (e ∷ es) =
      keep-IsWanted (accept host opts e) (accepted host opts es) (accept-IsWanted e)
        (accepted-IsWanted es)

-- Every file that a scan of the page finds has none of the listed patterns in its path, and 500
-- megabytes at most.
pub scan_opts-IsWanted :
    (host : Host) (s : App)
    → All
        (λ f. All (λ p. contains f.path p ≡ false) (parse_csv s.exclude) × (f.size ≤ 524_288_000))
        (scan host (page_opts s))
unfolding scan_opts
scan_opts-IsWanted host s =
    rw (scan-accepted host (page_opts s))
      (accepted-IsWanted host (page_opts s) (entries host (page_opts s) (page_opts s).roots))

-- The listeners while `doScan` waits: those of the page, and its own.
abbrev pub deliver : List BackEvent → App → App
deliver [] s = s
deliver (e ∷ es) s = deliver es (emit (scan_progress ∷ subscribe_fns) e s)

deliver-append :
    (xs ys : List BackEvent) (s : App) → deliver (xs ++ ys) s ≡ deliver ys (deliver xs s)
deliver-append [] ys s = refl
deliver-append (x ∷ xs) ys s = deliver-append xs ys (emit (scan_progress ∷ subscribe_fns) x s)

deliver-numbered :
    (n : ℕ) (fs : List FileMeta) (s : App)
    → s.scan_count ≡ n
    → (deliver (numbered n fs) s).scan_count ≡ n + length fs
unfolding emit react on_scan_progress
deliver-numbered n [] s h = omega arith
deliver-numbered n (f ∷ fs) s h =
    let t = emit (scan_progress ∷ subscribe_fns) (found_event (suc n) f) s in
    omega (arith, deliver-numbered (suc n) fs t refl)

-- What the page counts, with that number of files.
abbrev Counts : ℕ → App → Type 0
Counts n t = (t.scan_count ≡ n) × (t.idx_total ≡ n) × (t.last_scan_total ≡ n)

deliver-Counts :
    (fs : List FileMeta) (s : App)
    → s.scan_count ≡ 0
    → Counts (length fs) (deliver (numbered 0 fs ++ scanned (some (length fs)) ∷ []) s)
unfolding emit react on_scan_done
deliver-Counts fs s h =
    rw (deliver-append (numbered 0 fs) (scanned (some (length fs)) ∷ []) s)
      (deliver-numbered 0 fs s h ∙ omega arith, refl, refl)

do_scan-scan_count : (s : App) → s.in_tauri ≡ true → (do_scan s).0.scan_count ≡ 0
unfolding do_scan
do_scan-scan_count s h = ground arith

-- In Tauri, once the events of a scan have come, and before its answer does, the page counts the
-- files of that answer, both by the progress and in the total, as it does after the answer.
pub deliver-scan_paths_progress :
    (host : Host) (s : App)
    → s.in_tauri ≡ true
    → let (files, events) = scan_paths_progress host (page_opts s) in
      let t = deliver events (do_scan s).0 in
      (t.scan_count ≡ length files)
      × (t.idx_total ≡ length files)
      × (t.last_scan_total ≡ length files)
      × ((on_scanned (gives files) t).last_scan_total ≡ t.last_scan_total)
      × ((on_scanned (gives files) t).scanned ≡ files)
      × ((on_scanned (gives files) t).busy ≡ false)
unfolding on_scanned
deliver-scan_paths_progress host s h =
    let fs = scan host (page_opts s) in
    let (count, total, last) = deliver-Counts fs (do_scan s).0 (do_scan-scan_count s h) in
    rw (scan_paths_progress-scan host (page_opts s)) (count, total, last, sym last, refl, refl)
