-- ===== src/App/Events.antt =====
-- The events of the back end and the handlers that src/App.tsx gives to `useTauriEvents`, through the
-- wrappers of src/services/events.ts. An event reaches every listener of its name that is registered.
pub mod Delivery
use search_every.Prelude.{ℕ, List, [], ◌∷◌, Text, Bool, true, false, Option, any, if◌then◌else◌}
use search_every.Types.{IndexProgressPayload}
use search_every.App.State.{App}
use search_every.App.Scan.{
  ScanProgress, on_scan_progress, on_index_progress, on_index_done, on_scan_done,
  on_auto_scan_start,
}

-- The names of the events that the program listens to.
pub data Topic : Type 0 where
  index_progress index_done scan_done auto_scan_start scan_progress : Topic

-- An event with the fields of its payload that are read.
pub data BackEvent : Type 0 where
  progresses : IndexProgressPayload → BackEvent
  indexed : BackEvent
  scanned : Option ℕ → BackEvent
  scan_starts : Option Text → BackEvent
  scans : ScanProgress → BackEvent

abbrev pub topic : BackEvent → Topic
topic (progresses p) = index_progress
topic indexed = index_done
topic (scanned n) = scan_done
topic (scan_starts r) = auto_scan_start
topic (scans p) = scan_progress

-- The array that is given to `useTauriEvents`.
abbrev pub subscribe_fns : List Topic
subscribe_fns = index_progress ∷ index_done ∷ scan_done ∷ auto_scan_start ∷ []

abbrev pub same_topic : Topic → Topic → Bool
same_topic index_progress index_progress = true
same_topic index_done index_done = true
same_topic scan_done scan_done = true
same_topic auto_scan_start auto_scan_start = true
same_topic scan_progress scan_progress = true
same_topic _ _ = false

-- The handler of the event's name.
unfoldable pub react : BackEvent → App → App
react (progresses p) s = on_index_progress p s
react indexed s = on_index_done s
react (scanned n) s = on_scan_done n s
react (scan_starts r) s = on_auto_scan_start r s
react (scans p) s = on_scan_progress p s

-- The registered listeners are called one after another.
unfoldable pub emit : List Topic → BackEvent → App → App
emit [] e s = s
emit (t ∷ live) e s = emit live e (if same_topic t (topic e) then react e s else s)
