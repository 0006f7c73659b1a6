-- ===== src/Tests/Backend.antt =====
-- Runs of the back end, and its theorems at such runs.
use mathlib.Core.List.{Memᴰ}
use search_every.Prelude.{
  ℕ, arith, split, trim, trim_end, trim_start, is_space, ◌<◌, List, [], ◌∷◌, ◌++◌, Text, true,
  false, Option, none, some, codes, length, map, text_eq, ◌≡◌, ◌↔◌, refl, All,
}
use search_every.Prelude.Int.{pos, ◌-ℤ◌}
use search_every.Types.{FileMeta, DupGroup, DupKind}
use search_every.Utils.Csv.{parse_csv}
use search_every.App.State.{App, initial, gives}
use search_every.App.Scan.{scan_opts, do_scan, on_scanned}
use search_every.App.Events.{scanned}
use search_every.Backend.Scanner.{
  ScanOptions, Host, Entry, accept, excluded, contains, scan, scan_paths_progress,
}
use search_every.Backend.Scanner.Found.{numbered, entries, Finds, scan_lem}
use search_every.Backend.Scanner.Page.{
  IsWanted, page_opts, deliver, scan_opts-IsWanted, deliver-scan_paths_progress,
}
use search_every.App.Call.{After, run_duplicates}
use search_every.Backend.Serve.{serve_scan, serve_detect}
use search_every.Backend.Serve.Found.{run_duplicates_found}
use search_every.Backend.Dedup.{Table, Disk, groups_of, push, detect}
use search_every.Backend.Dedup.Detect.{IsGroup, detect_exact}
use search_every.Backend.Dedup.Twice.{times, detect-scan_overlap}

abbrev file : Text → ℕ → Option Entry
file path size = some (record {
  is_file = true;
  path = some path;
  file_name = some (codes "a.txt");
  extension = some (codes "txt");
  metadata = some (record { len = size; elapsed = some 60; now = pos 1000 });
})

-- Below D:/ lie a file, a file that is excluded, and a directory with an error in it.
abbrev on_disk : Host
on_disk = record {
  walk =
      λ root links. file (codes "D:/x/a.txt") 7 ∷ none ∷ file (codes "D:\\Windows\\a.txt") 7 ∷ [];
  lower = λ t. t;
}

abbrev twice_opts : ScanOptions
twice_opts = record {
  roots = codes "D:/" ∷ codes "D:/x" ∷ [];
  exclude_patterns = codes "\\Windows" ∷ [];
  max_file_size_mb = some 500;
  follow_symlinks = false;
}

abbrev a_txt : FileMeta
a_txt = record {
  path = codes "D:/x/a.txt";
  file_name = codes "a.txt";
  ext = codes "txt";
  size = 7;
  modified_ts = pos 940;
}

scan_twice : scan on_disk twice_opts ≡ a_txt ∷ a_txt ∷ []
unfolding scan accept excluded contains ◌-ℤ◌
scan_twice = refl

scan_lem_example :
    Finds on_disk twice_opts (entries on_disk twice_opts twice_opts.roots) (scan on_disk twice_opts)
    × (scan_paths_progress on_disk twice_opts ≡ (
      scan on_disk twice_opts,
      numbered 0 (scan on_disk twice_opts)
          ++ scanned (some (length (scan on_disk twice_opts))) ∷ [],
    ))
scan_lem_example = scan_lem on_disk twice_opts

abbrev page : App
page = initial true (pos 60)

scan_opts-IsWanted_example : All (IsWanted (page_opts page)) (scan on_disk (page_opts page))
unfolding scan_opts parse_csv
scan_opts-IsWanted_example = scan_opts-IsWanted on_disk page

deliver-scan_paths_progress_example :
    let (files, events) = scan_paths_progress on_disk (page_opts page) in
    let t = deliver events (do_scan page).0 in
    (t.scan_count ≡ length files)
    × (t.idx_total ≡ length files)
    × (t.last_scan_total ≡ length files)
    × ((on_scanned (gives files) t).last_scan_total ≡ t.last_scan_total)
    × ((on_scanned (gives files) t).scanned ≡ files)
    × ((on_scanned (gives files) t).busy ≡ false)
unfolding initial
deliver-scan_paths_progress_example = deliver-scan_paths_progress on_disk page refl

-- All files have one content.
abbrev same_disk : Disk
same_disk = record {
  file_name = λ p. some (codes "a.txt");
  hash_file = λ p. some (some (codes "00"));
  order = λ m. m;
}

abbrev table_order : (m : Table) (e : Text × List Text) → Memᴰ e m ↔ Memᴰ e m
table_order m e = (λ h. h, λ h. h)

abbrev both : List Text
both = codes "D:/x/a.txt" ∷ codes "D:/x/a.txt" ∷ []

abbrev both_groups : List DupGroup
both_groups =
    (record { kind = DupKind.hash; key = codes "00"; files = both })
    ∷ (record { kind = DupKind.name; key = codes "a.txt"; files = both })
    ∷ []

detect_both : detect same_disk both ≡ some both_groups
unfolding detect groups_of push text_eq
detect_both = refl

detect_exact_example :
    (groups : List DupGroup) × (detect same_disk both ≡ some groups)
    × ((g : DupGroup) → Memᴰ g groups ↔ IsGroup same_disk both g)
detect_exact_example = detect_exact same_disk both table_order (λ e. cc, (λ e. cc, tt))

detect-scan_overlap_example :
    (groups : List DupGroup) × (detect same_disk (map (λ m. m.path) (scan on_disk twice_opts))
      ≡ some groups)
    × (g : DupGroup) × Memᴰ g groups
    × (1 < times a_txt.path g.files)
unfolding scan accept excluded contains ◌-ℤ◌
detect-scan_overlap_example =
    detect-scan_overlap same_disk table_order on_disk twice_opts (codes "D:/") (codes "D:/x") a_txt
      a_txt (codes "00") refl (Memᴰ.head refl) (Memᴰ.head refl) refl refl (λ e. cc, (λ e. cc, tt))

-- The page asks for both roots.
abbrev two_roots : App
two_roots = record page { roots = codes "D:/, D:/x" }

run_duplicates_found_example :
    (a : After) × (run_duplicates 0
        (gives tt)
        (serve_scan 9 (codes "bad") on_disk)
        (serve_detect 7 (codes "bad") same_disk (codes "no"))
        two_roots
      ≡ some a)
    × (a.app.busy ≡ false)
    × (a.elapsed ≡ 16)
    × (a.app.scanned ≡ scan on_disk (page_opts two_roots))
    × ((g : DupGroup)
        → Memᴰ g a.app.dup_groups ↔ IsGroup same_disk (map (λ f. f.path) a.app.scanned) g)
unfolding initial scan scan_opts parse_csv split trim trim_end trim_start is_space accept excluded
    contains
run_duplicates_found_example =
    run_duplicates_found on_disk same_disk 0 9 7 (codes "bad") (codes "no") two_roots table_order
      refl refl (omega arith) (omega arith) (λ e. cc, (λ e. cc, tt))
