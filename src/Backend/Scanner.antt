-- ===== src/Backend/Scanner.antt =====
-- src-tauri/src/scanner.rs and `scan_paths_progress` of src-tauri/src/main.rs: the files that a scan
-- returns, and the events that it sends meanwhile. The walk over a directory, the letters in lower
-- case and the present time are parameters; the log is left out.
pub mod Found
pub mod Page
use mathlib.Core.Option
use search_every.Prelude.{
  ℕ, ◌*◌, List, [], ◌∷◌, ◌++◌, Text, Bool, true, false, ◌&&◌, ◌||◌, Option, none, some, any, length,
  ltb, ◌==◌, not, if◌then◌else◌,
}
use search_every.Prelude.Int.{ℤ, pos, ◌-ℤ◌}
use search_every.Types.{FileMeta}
use search_every.Utils.Size.{or_default}
use search_every.Services.Value.{Value, get}
use search_every.Services.Api.{ScanOpts}
use search_every.Services.Api.Contract.{read_list, read_bool, read_u64?, ◌>>=◌}
use search_every.App.Scan.{ScanProgress}
use search_every.App.Events.{BackEvent, scans, scanned}

-- `struct ScanOptions`
pub record ScanOptions : Type 0 where
  pub roots : List Text
  pub exclude_patterns : List Text
  pub max_file_size_mb : Option ℕ
  pub follow_symlinks : Bool

-- The argument `opts` of the command, read as the struct.
unfoldable pub read_scan_options : Value → Option ScanOptions
unfolding read_list read_u64? read_bool
read_scan_options v = do
  roots ← read_list (get "roots" v)
  patterns ← read_list (get "exclude_patterns" v)
  limit ← read_u64? (get "max_file_size_mb" v)
  links ← read_bool (get "follow_symlinks" v)
  some (record {
    roots = roots;
    exclude_patterns = patterns;
    max_file_size_mb = limit;
    follow_symlinks = links;
  })

-- The options of the front end, which always has a limit.
abbrev pub options_of : ScanOpts → ScanOptions
options_of opts = record {
  roots = opts.roots;
  exclude_patterns = opts.exclude_patterns;
  max_file_size_mb = some opts.max_file_size_mb;
  follow_symlinks = opts.follow_symlinks;
}

-- `path.metadata()`: the length, and the seconds since the last change, where the system knows them;
-- and the present time when it is read, in seconds.
pub record Metadata : Type 0 where
  pub len : ℕ
  pub elapsed : Option ℕ
  pub now : ℤ

-- An entry that `WalkDir` yields. A part that is no Unicode text is missing.
pub record Entry : Type 0 where
  pub is_file : Bool
  pub path : Option Text
  pub file_name : Option Text
  pub extension : Option Text
  pub metadata : Option Metadata

-- What the scan finds on the disk below a root, with or without following links; `none` is an error.
pub record Host : Type 0 where
  pub walk : Text → Bool → List (Option Entry)
  pub lower : Text → Text

abbrev pub starts_with : Text → Text → Bool
starts_with s [] = true
starts_with [] (d ∷ p) = false
starts_with (c ∷ s) (d ∷ p) = (c == d) && starts_with s p

-- `s.contains(p)`
unfoldable pub contains : Text → Text → Bool
contains [] p = starts_with [] p
contains (c ∷ s) p = starts_with (c ∷ s) p || contains s p

-- `max_file_size_mb.map(|m| m * 1024 * 1024)`, for a limit that a 64-bit number holds as bytes
abbrev pub max_bytes : ScanOptions → Option ℕ
max_bytes opts = Option.map (λ m. m * 1024 * 1024) opts.max_file_size_mb

abbrev pub too_big : Option ℕ → ℕ → Bool
too_big none len = false
too_big (some limit) len = ltb limit len

unfoldable pub excluded : ScanOptions → Text → Bool
excluded opts path = any (contains path) opts.exclude_patterns

abbrev modified : ℤ → Option ℕ → ℤ
modified now none = pos 0
modified now (some secs) = now -ℤ pos secs

abbrev pub file_meta : Host → Entry → Text → Metadata → FileMeta
file_meta host e path md = record {
  path = path;
  file_name = or_default e.file_name [];
  ext = host.lower (or_default e.extension []);
  size = md.len;
  modified_ts = modified md.now md.elapsed;
}

-- The tests after the path is known, each with its `continue`.
abbrev pub accept_file : Host → ScanOptions → Entry → Text → Option Metadata → Option FileMeta
accept_file host opts e path none = none
accept_file host opts e path (some md) =
    if too_big (max_bytes opts) md.len then none else some (file_meta host e path md)

abbrev pub accept_path : Host → ScanOptions → Entry → Option Text → Option FileMeta
accept_path host opts e none = none
accept_path host opts e (some path) =
    if excluded opts path then none else accept_file host opts e path e.metadata

unfoldable pub accept : Host → ScanOptions → Option Entry → Option FileMeta
accept host opts none = none
accept host opts (some e) = if e.is_file then accept_path host opts e e.path else none

-- The variables of the loop: what was found, and the events that were sent.
pub record Progress : Type 0 where
  pub results : List FileMeta
  pub events : List BackEvent

-- The event as the page reads it; it has the name of the file too.
abbrev pub found_event : ℕ → FileMeta → BackEvent
found_event n f = scans (record { current = some n; path = some f.path })

-- `results.push(…)` of scanner.rs
abbrev pub pushed : List FileMeta → Option FileMeta → List FileMeta
pushed results none = results
pushed results (some f) = results ++ f ∷ []

-- `results.push(…)` and `window.emit("scan_progress", …)`
abbrev pub found : Progress → FileMeta → Progress
found p f = record {
  results = p.results ++ f ∷ [];
  events = p.events ++ found_event (length (p.results ++ f ∷ [])) f ∷ [];
}

-- The body of the loop of `scan_paths_progress`, each test with its `continue`
abbrev pub scan_metadata : Host → ScanOptions → Progress → Entry → Text → Option Metadata → Progress
scan_metadata host opts p e path none = p
scan_metadata host opts p e path (some md) =
    if too_big (max_bytes opts) md.len then p else found p (file_meta host e path md)

abbrev pub scan_path : Host → ScanOptions → Progress → Entry → Option Text → Progress
scan_path host opts p e none = p
scan_path host opts p e (some path) =
    if excluded opts path then p else scan_metadata host opts p e path e.metadata

unfoldable pub scan_entry : Host → ScanOptions → Progress → Option Entry → Progress
scan_entry host opts p none = p
scan_entry host opts p (some e) = if e.is_file then scan_path host opts p e e.path else p

abbrev pub start : Progress
start = record { results = []; events = [] }

module _ (host : Host) (opts : ScanOptions) where
  -- `scanner::scan`: the entries below a root, and the roots
  unfoldable pub collect_entries : List FileMeta → List (Option Entry) → List FileMeta
  collect_entries results [] = results
  collect_entries results (e ∷ es) = collect_entries (pushed results (accept host opts e)) es

  unfoldable pub collect_roots : List FileMeta → List Text → List FileMeta
  unfolding collect_entries
  collect_roots results [] = results
  collect_roots results (root ∷ roots) =
      collect_roots (collect_entries results (host.walk root opts.follow_symlinks)) roots

  unfoldable pub scan : List FileMeta
  unfolding collect_roots
  scan = collect_roots [] opts.roots

  -- `scan_paths_progress`, which has the tests and the loops of its own
  unfoldable pub scan_entries : Progress → List (Option Entry) → Progress
  scan_entries p [] = p
  scan_entries p (e ∷ es) = scan_entries (scan_entry host opts p e) es

  unfoldable pub scan_roots : Progress → List Text → Progress
  unfolding scan_entries
  scan_roots p [] = p
  scan_roots p (root ∷ roots) =
      scan_roots (scan_entries p (host.walk root opts.follow_symlinks)) roots

  unfoldable pub scan_paths_progress : List FileMeta × List BackEvent
  unfolding scan_roots
  scan_paths_progress =
      let p = scan_roots start opts.roots in
      (p.results, p.events ++ scanned (some (length p.results)) ∷ [])
