-- ===== src/Backend/Scanner/Found.antt =====
-- What a scan finds, told from the entries that the disk yields.
use mathlib.Core.Option
use search_every.Prelude.{
  true, false, any, All, ◌≤◌, ◌*◌, Bool-cases, Option-cases, inl, inr, subst, ℕ, suc, ◌+◌, List, [],
  ◌∷◌, ◌++◌, Text, Option, none, some, length, length-append, append_assoc, append-nil, ◌≡◌, refl,
  ap, sym, ◌∙◌, arith,
}
use search_every.Types.{FileMeta}
use search_every.App.Events.{BackEvent, scanned}
use search_every.Backend.Scanner.{
  Metadata, too_big, max_bytes, contains, excluded, file_meta, accept_file, accept_path, pushed,
  collect_entries, collect_roots, scan_metadata, scan_path, scan_entry, ScanOptions, Host, Entry,
  accept, Progress, found_event, found, scan_entries, scan_roots, start, scan, scan_paths_progress,
}

-- The events of the files, the first of them being number `n + 1`.
abbrev pub numbered : ℕ → List FileMeta → List BackEvent
numbered n [] = []
numbered n (f ∷ fs) = found_event (suc n) f ∷ numbered (suc n) fs

abbrev pub keep : Option FileMeta → List FileMeta → List FileMeta
keep none fs = fs
keep (some f) fs = f ∷ fs

keep-append : (f : Option FileMeta) (xs ys : List FileMeta) → keep f xs ++ ys ≡ keep f (xs ++ ys)
keep-append none xs ys = refl
keep-append (some f) xs ys = refl

numbered-append :
    (n : ℕ) (xs ys : List FileMeta)
    → numbered n (xs ++ ys) ≡ numbered n xs ++ numbered (n + length xs) ys
numbered-append n [] ys = ap (λ k. numbered k ys) (omega arith)
numbered-append n (x ∷ xs) ys =
    ap (◌∷◌ (found_event (suc n) x))
      (numbered-append (suc n) xs ys ∙ ap (λ k. numbered (suc n) xs ++ numbered k ys) (omega arith))

-- The file of an entry that the scan is to find: a regular file with a path in Unicode, none of the
-- patterns in it, whose metadata can be read and whose length is within the limit.
pub record IsWantedFile (host : Host) (opts : ScanOptions) (o : Option Entry) (f : FileMeta)
    : Type 0 where
  pub entry : Entry
  pub path : Text
  pub md : Metadata
  pub there : o ≡ some entry
  pub regular : entry.is_file ≡ true
  pub has_path : entry.path ≡ some path
  pub has_metadata : entry.metadata ≡ some md
  pub not_excluded : All (λ p. contains path p ≡ false) opts.exclude_patterns
  pub fits : (m : ℕ) → opts.max_file_size_mb ≡ some m → md.len ≤ m * 1048576
  pub file : f ≡ file_meta host entry path md

-- The files are those of the entries that are to be found, in the order of the entries.
pub data Finds (host : Host) (opts : ScanOptions)
    : List (Option Entry) → List FileMeta → Type 0 where
  nothing : Finds host opts [] []
  skipped :
      (o : Option Entry) (es : List (Option Entry)) (fs : List FileMeta)
      → ((f : FileMeta) → IsWantedFile host opts o f → ⊥)
      → Finds host opts es fs
      → Finds host opts (o ∷ es) fs
  taken :
      (o : Option Entry) (es : List (Option Entry)) (f : FileMeta) (fs : List FileMeta)
      → IsWantedFile host opts o f
      → Finds host opts es fs
      → Finds host opts (o ∷ es) (f ∷ fs)

none_excluded :
    (path : Text) (ps : List Text)
    → any (contains path) ps ≡ false
    → All (λ p. contains path p ≡ false) ps
none_excluded path [] h = tt
none_excluded path (p ∷ ps) h = (ground arith, none_excluded path ps (ground arith))

some_excluded :
    (path : Text) (ps : List Text)
    → All (λ p. contains path p ≡ false) ps
    → any (contains path) ps ≡ false
some_excluded path [] h = refl
some_excluded path (p ∷ ps) h = rw (h.0, some_excluded path ps h.1) refl

too_big-fits :
    (limit : Option ℕ) (len : ℕ)
    → too_big (Option.map (λ m. m * 1024 * 1024) limit) len ≡ false
    → (m : ℕ) → limit ≡ some m
    → len ≤ m * 1048576
too_big-fits none len h m e = absurd (cc)
too_big-fits (some k) len h m e = let same : k ≡ m = cc in ground (arith, same)

fits-too_big :
    (limit : Option ℕ) (len : ℕ)
    → ((m : ℕ) → limit ≡ some m → len ≤ m * 1048576)
    → too_big (Option.map (λ m. m * 1024 * 1024) limit) len ≡ false
fits-too_big none len h = refl
fits-too_big (some k) len h = let le = h k refl in ground arith

module _ (host : Host) (opts : ScanOptions) where
  accept-IsWantedFile :
      (o : Option Entry) (f : FileMeta) → IsWantedFile host opts o f → accept host opts o ≡ some f
  unfolding accept excluded
  accept-IsWantedFile o f w =
      rw
        (
          w.there,
          w.regular,
          w.has_path,
          some_excluded w.path opts.exclude_patterns w.not_excluded,
          w.has_metadata,
          fits-too_big opts.max_file_size_mb w.md.len w.fits,
          w.file,
        )
        refl

  accepted_file :
      (e : Entry) (path : Text) (md : Metadata) (f : FileMeta)
      → accept_file host opts e path (some md) ≡ some f
      → (too_big (max_bytes opts) md.len ≡ false) × (f ≡ file_meta host e path md)
  accepted_file e path md f h = elim (Bool-cases (too_big (max_bytes opts) md.len)) [
    | inl big ↦ let h' : none ≡ some f = rw big at h in absurd (cc)
    | inr small ↦ let h' : some (file_meta host e path md) ≡ some f = rw small at h in (small, cc)
  ]

  accepted_path :
      (e : Entry) (path : Text) (f : FileMeta)
      → accept_path host opts e (some path) ≡ some f
      → (excluded opts path ≡ false) × (accept_file host opts e path e.metadata ≡ some f)
  accepted_path e path f h = elim (Bool-cases (excluded opts path)) [
    | inl out ↦ let h' : none ≡ some f = rw out at h in absurd (cc)
    | inr inside ↦ (inside, rw inside at h)
  ]

  accepted_entry :
      (e : Entry) (f : FileMeta)
      → accept host opts (some e) ≡ some f
      → (e.is_file ≡ true) × (accept_path host opts e e.path ≡ some f)
  unfolding accept
  accepted_entry e f h = elim (Bool-cases e.is_file) [
    | inl file ↦ (file, rw file at h)
    | inr dir ↦ let h' : none ≡ some f = rw dir at h in absurd (cc)
  ]

  IsWantedFile-accept :
      (o : Option Entry) (f : FileMeta) → accept host opts o ≡ some f → IsWantedFile host opts o f
  unfolding accept excluded
  IsWantedFile-accept none f h = absurd (cc)
  IsWantedFile-accept (some e) f h =
      let (regular, h1) = accepted_entry e f h in
      elim (Option-cases e.path) [
        | inl no_path ↦ let h' : none ≡ some f = rw no_path at h1 in absurd (cc)
        | inr (path, has_path) ↦
            let (inside, h2) = accepted_path e path f (rw has_path at h1) in
            elim (Option-cases e.metadata) [
              | inl no_md ↦ let h' : none ≡ some f = rw no_md at h2 in absurd (cc)
              | inr (md, has_md) ↦
                  let (small, same) = accepted_file e path md f (rw has_md at h2) in
                  record {
                    entry = e;
                    path = path;
                    md = md;
                    there = refl;
                    regular = regular;
                    has_path = has_path;
                    has_metadata = has_md;
                    not_excluded = none_excluded path opts.exclude_patterns inside;
                    fits = too_big-fits opts.max_file_size_mb md.len small;
                    file = same;
                  }
            ]
      ]

  -- The loop body of `scan_paths_progress` takes the files that the one of `scanner::scan` takes.
  abbrev found_if : Progress → Option FileMeta → Progress
  found_if p none = p
  found_if p (some f) = found p f

  entry_file :
      (p : Progress) (e : Entry) (path : Text) (md : Option Metadata)
      → scan_metadata host opts p e path md ≡ found_if p (accept_file host opts e path md)
  entry_file p e path none = refl
  entry_file p e path (some md) = elim (Bool-cases (too_big (max_bytes opts) md.len)) [
    | inl big ↦ rw big refl
    | inr small ↦ rw small refl
  ]

  entry_path :
      (p : Progress) (e : Entry) (path : Option Text)
      → scan_path host opts p e path ≡ found_if p (accept_path host opts e path)
  entry_path p e none = refl
  entry_path p e (some path) = elim (Bool-cases (excluded opts path)) [
    | inl out ↦ rw out refl
    | inr inside ↦ rw inside (entry_file p e path e.metadata)
  ]

  scan_entry-accept :
      (p : Progress) (o : Option Entry) → scan_entry host opts p o ≡ found_if p (accept host opts o)
  unfolding scan_entry accept
  scan_entry-accept p none = refl
  scan_entry-accept p (some e) = elim (Bool-cases e.is_file) [
    | inl file ↦ rw file (entry_path p e e.path)
    | inr dir ↦ rw dir refl
  ]

  abbrev pub accepted : List (Option Entry) → List FileMeta
  accepted [] = []
  accepted (e ∷ es) = keep (accept host opts e) (accepted es)

  -- All entries below the roots, in order.
  abbrev pub entries : List Text → List (Option Entry)
  entries [] = []
  entries (root ∷ roots) = host.walk root opts.follow_symlinks ++ entries roots

  -- The events are those of the files that were found.
  abbrev IsTold : Progress → Type 0
  IsTold p = p.events ≡ numbered 0 p.results

  found-IsTold : (p : Progress) (f : FileMeta) → IsTold p → IsTold (found p f)
  found-IsTold p f h =
      let one = f ∷ [] in
      rw (h, numbered-append 0 p.results one)
        (ap (λ k. numbered 0 p.results ++ found_event k f ∷ [])
          (omega (arith, length-append p.results one)))

  found_if-IsTold : (p : Progress) (f : Option FileMeta) → IsTold p → IsTold (found_if p f)
  found_if-IsTold p none h = h
  found_if-IsTold p (some f) h = found-IsTold p f h

  scan_entries-IsTold :
      (p : Progress) (es : List (Option Entry)) → IsTold p → IsTold (scan_entries host opts p es)
  unfolding scan_entries
  scan_entries-IsTold p [] h = h
  scan_entries-IsTold p (e ∷ es) h =
      scan_entries-IsTold (scan_entry host opts p e) es
        (subst IsTold (sym (scan_entry-accept p e)) (found_if-IsTold p (accept host opts e) h))

  scan_roots-IsTold :
      (p : Progress) (roots : List Text) → IsTold p → IsTold (scan_roots host opts p roots)
  unfolding scan_roots
  scan_roots-IsTold p [] h = h
  scan_roots-IsTold p (root ∷ roots) h =
      let es = host.walk root opts.follow_symlinks in
      scan_roots-IsTold (scan_entries host opts p es) roots (scan_entries-IsTold p es h)

  results-found :
      (p : Progress) (f : Option FileMeta) (fs : List FileMeta)
      → (found_if p f).results ++ fs ≡ p.results ++ keep f fs
  results-found p none fs = refl
  results-found p (some f) fs = append_assoc p.results (f ∷ []) fs

  results-scan_entries :
      (p : Progress) (es : List (Option Entry))
      → (scan_entries host opts p es).results ≡ p.results ++ accepted es
  unfolding scan_entries
  results-scan_entries p [] = sym (append-nil p.results)
  results-scan_entries p (e ∷ es) =
      results-scan_entries (scan_entry host opts p e) es
      ∙ ap (λ q. q.results ++ accepted es) (scan_entry-accept p e)
      ∙ results-found p (accept host opts e) (accepted es)

  pub accepted-append :
      (xs ys : List (Option Entry)) → accepted (xs ++ ys) ≡ accepted xs ++ accepted ys
  accepted-append [] ys = refl
  accepted-append (x ∷ xs) ys =
      ap (keep (accept host opts x)) (accepted-append xs ys)
      ∙ sym (keep-append (accept host opts x) (accepted xs) (accepted ys))

  results-scan_roots :
      (p : Progress) (roots : List Text)
      → (scan_roots host opts p roots).results ≡ p.results ++ accepted (entries roots)
  unfolding scan_roots
  results-scan_roots p [] = sym (append-nil p.results)
  results-scan_roots p (root ∷ roots) =
      let es = host.walk root opts.follow_symlinks in
      results-scan_roots (scan_entries host opts p es) roots
      ∙ ap (λ fs. fs ++ accepted (entries roots)) (results-scan_entries p es)
      ∙ append_assoc p.results (accepted es) (accepted (entries roots))
      ∙ ap (λ fs. p.results ++ fs) (sym (accepted-append es (entries roots)))

  pushed-keep :
      (results : List FileMeta) (f : Option FileMeta) (fs : List FileMeta)
      → pushed results f ++ fs ≡ results ++ keep f fs
  pushed-keep results none fs = refl
  pushed-keep results (some f) fs = append_assoc results (f ∷ []) fs

  collect_entries_lem :
      (results : List FileMeta) (es : List (Option Entry))
      → collect_entries host opts results es ≡ results ++ accepted es
  unfolding collect_entries
  collect_entries_lem results [] = sym (append-nil results)
  collect_entries_lem results (e ∷ es) =
      collect_entries_lem (pushed results (accept host opts e)) es
      ∙ pushed-keep results (accept host opts e) (accepted es)

  collect_roots_lem :
      (results : List FileMeta) (roots : List Text)
      → collect_roots host opts results roots ≡ results ++ accepted (entries roots)
  unfolding collect_roots
  collect_roots_lem results [] = sym (append-nil results)
  collect_roots_lem results (root ∷ roots) =
      let es = host.walk root opts.follow_symlinks in
      collect_roots_lem (collect_entries host opts results es) roots
      ∙ ap (λ fs. fs ++ accepted (entries roots)) (collect_entries_lem results es)
      ∙ append_assoc results (accepted es) (accepted (entries roots))
      ∙ ap (λ fs. results ++ fs) (sym (accepted-append es (entries roots)))

  pub scan-accepted : scan host opts ≡ accepted (entries opts.roots)
  unfolding scan
  scan-accepted = collect_roots_lem [] opts.roots

  pub scan_paths_progress-scan : scan_paths_progress host opts ≡ (
    scan host opts,
    numbered 0 (scan host opts) ++ scanned (some (length (scan host opts))) ∷ [],
  )
  unfolding scan_paths_progress
  scan_paths_progress-scan =
      let same = results-scan_roots start opts.roots ∙ sym scan-accepted in
      rw (scan_roots-IsTold start opts.roots refl)
        (ap (λ fs. (fs, numbered 0 fs ++ scanned (some (length fs)) ∷ [])) same)

  accepted-Finds : (es : List (Option Entry)) → Finds host opts es (accepted es)
  accepted-Finds [] = nothing
  accepted-Finds (o ∷ es) = elim (Option-cases (accept host opts o)) [
    | inl e ↦ rw e (
        skipped o es (accepted es) (λ f w. let h = sym e ∙ accept-IsWantedFile o f w in absurd (cc))
          (accepted-Finds es))
    | inr (f, e) ↦ rw e (taken o es f (accepted es) (IsWantedFile-accept o f e) (accepted-Finds es))
  ]

  -- A scan finds, in the order in which the disk below the roots is walked, the regular files whose path
  -- has none of the patterns in it and whose length is within the limit in megabytes, where path and
  -- metadata can be read, and no other. The scan with progress, which has tests and loops of its own,
  -- returns the same files, and it sends one event for each of them, numbered from 1, and at the end the
  -- total.
  pub scan_lem :
      Finds host opts (entries opts.roots) (scan host opts)
      × (scan_paths_progress host opts ≡ (
        scan host opts,
        numbered 0 (scan host opts) ++ scanned (some (length (scan host opts))) ∷ [],
      ))
  scan_lem = (
    subst (Finds host opts (entries opts.roots)) (sym scan-accepted)
        (accepted-Finds (entries opts.roots)),
    scan_paths_progress-scan,
  )
