-- ===== src/Backend/Serve.antt =====
-- The commands `scan_paths_progress` and `detect_duplicates` of src-tauri/src/main.rs as the front end
-- meets them: the arguments are read from the payload, and the answer comes after some time.
pub mod Found
use search_every.Prelude.{ℕ, List, Text, Option, none, some, codes}
use search_every.Types.{FileMeta, DupGroup}
use search_every.Services.Value.{Value, get}
use search_every.Services.Invoke.{Reply, resolves, rejects}
use search_every.Services.Api.{Command}
use search_every.Services.Api.Contract.{read_list}
use search_every.Backend.Scanner
use search_every.Backend.Scanner.{ScanOptions, read_scan_options}
use search_every.Backend.Dedup.{Disk, detect}

-- The delay of the answer, and the text of the error of arguments that cannot be read.
module _ (delay : ℕ) (unreadable : Text) where
  abbrev scanned : Scanner.Host → Option ScanOptions → Reply (List FileMeta)
  scanned host none = rejects delay unreadable
  scanned host (some opts) = resolves delay (Scanner.scan_paths_progress host opts).0

  unfoldable pub serve_scan : Scanner.Host → Command → ℕ → Reply (List FileMeta)
  serve_scan host c attempt = scanned host (read_scan_options (get "opts" c.payload))

  -- The text of the error of a file that cannot be read is a parameter too.
  abbrev detected : Text → Option (List DupGroup) → Reply (List DupGroup)
  detected failure none = rejects delay failure
  detected failure (some groups) = resolves delay groups

  abbrev detect_read : Disk → Text → Option (List Text) → Reply (List DupGroup)
  detect_read disk failure none = rejects delay unreadable
  detect_read disk failure (some paths) = detected failure (detect disk paths)

  unfoldable pub serve_detect : Disk → Text → Command → ℕ → Reply (List DupGroup)
  serve_detect disk failure c attempt = detect_read disk failure (read_list (get "paths" c.payload))
