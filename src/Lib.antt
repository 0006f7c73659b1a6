-- ===== src/Lib.antt =====
-- The front end of SearchEvery, a desktop program that scans folders, builds a full-text index and
-- searches it. The front end (TypeScript, React) keeps the state of the pages and calls a back end
-- (Rust, in src-tauri) by named commands; the back end answers, or fails, and sends events
-- meanwhile.
--
-- The parts of the program, and the files that model them:
--
--   Types                 src/types.ts, the data that the two ends exchange
--   Constants             src/constants/runtime.ts and src/constants/ui.ts
--   Utils.Csv             src/utils/string.ts (`parseCSV` is `parse_csv`)
--   Utils.Path            src/utils/path.ts (`shortenPath` is `shorten_path`)
--   Utils.Size            src/utils/size.ts (`formatBytes`, `toBytesMb`)
--   Utils.Date            src/utils/date.ts (`formatTs`, `formatRelativeTs`)
--   Utils.Highlight       src/utils/highlight.tsx (`highlight`, by phrase, by expression, by terms)
--   Utils.Env             src/utils/env.ts (`isTauri`)
--   Services.Invoke       `safeInvoke` of src/services/api.ts: a time limit, retries, the last error
--   Services.Api          the other functions of src/services/api.ts; `Services.Api.Contract` reads
--                         their payloads as the structs of src-tauri/src/search.rs and
--                         src-tauri/src/indexer.rs do
--   Services.Events       `onEventOnce` of src/services/events.ts, as a machine over the events and
--                         the resolution of its promise
--   Services.Logging      src/services/logging.ts and src/hooks/useGlobalErrorLogging.ts
--   Hooks.TauriEvents     src/hooks/useTauriEvents.ts, the subscription to the back end's events
--   Hooks.FocusDebug      src/hooks/useFocusDebug.ts
--   Hooks.Listeners       the listeners of the window and the document that useGlobalErrorLogging.ts,
--                         useFocusDebug.ts and ThemeDropdown.tsx register and remove
--   Components            `Components.ThemeDropdown` is src/components/ThemeDropdown.tsx, with the list
--                         of src/constants/themes.ts
--   App                   src/App.tsx: `App.State` is the record of its `useState` variables;
--                         `App.Search`, `App.Results`, `App.Settings`, `App.Scan` and `App.Dup` are
--                         its handlers; `App.Controls` is its inputs, keys and buttons; `App.View` is
--                         what its pages and its shell show, with src/pages/AboutPage.tsx;
--                         `App.World` runs handlers, inputs and events together
--   App.Typing            the search as you type of src/App.tsx: the effect with its timer, over the
--                         renders of the page
--   App.Call              `doSearch`, `doSaveConfig`, `doResetConfig`, `doIndex`, `doScanAndIndex`,
--                         `handleDelete`, `doScan`, `runDetect` and `runDiagnostics` with the
--                         `safeInvoke` that they wait for, to their ends
--   App.Events            the events of the back end, the wrappers of src/services/events.ts that
--                         `App` subscribes by, and its reaction to each event
--   Backend               src-tauri/src, the back end: `Backend.Scanner` is scanner.rs and
--                         `scan_paths_progress` of main.rs, `Backend.Dedup` is dedup.rs,
--                         `Backend.Config` is config.rs, `Backend.Query` is search.rs,
--                         `Backend.Pipeline` is pipeline.rs, pipeline_state.rs and the daily loop
--                         of main.rs, `Backend.Index` is the documents of pipeline.rs,
--                         `Backend.Delete` is `delete_file_and_index` of main.rs,
--                         `Backend.Diagnostics` is diagnostics.rs, and
--                         `Backend.Serve` is the scan and the detection as commands
--   Scripts               the build's scripts: `Scripts.Generate` is scripts/generate-icons.mjs,
--                         `Scripts.Resize` is scripts/resize-ico-from-256.mjs, and `Scripts.Files`
--                         is what they do to the file system
--   Prelude               the shared names: Boolean tests, lists, texts, whole numbers and doubles
--   Tests                 runs of the model, and its theorems at concrete inputs
--
-- How they interact. A handler of `App` reads its inputs with the helpers of `Utils`, and gives a
-- command of `Services.Api`, which `Services.Invoke` sends. An asynchronous handler is cut at each
-- `await`: `do_search` is what `doSearch` does up to its `await`, with the command that it waits
-- for, and `on_search` is the rest, a function of the answer (`gives` a value, or `throws`) and of
-- the state that it finds then. What a handler has read before the `await` is passed on as an
-- argument. `App.Call` puts the two parts and `safe_invoke` together again. The events of the back
-- end reach the handlers `on_index_progress`, `on_index_done`, `on_scan_done` and
-- `on_auto_scan_start` by the hook: `Hooks.TauriEvents` is the subscription, and `App.Events` the
-- delivery of an event to those who are subscribed.
--
-- `App.World` is the page with the handlers that wait: a step starts a handler, changes the state
-- at once (an input or an event), or gives any one of the pending answers, so that a sequence of
-- steps is any interleaving of the handlers; `App.World.Listeners` counts, along such a sequence,
-- the listeners for the progress of a scan. `App.View` is a function of the state alone; of the
-- pages only the search page has code that could throw while it is rendered, in its highlighted
-- texts. `App.View.Shell` sets the page beside the sidebar and the header, whose menu is mounted anew
-- at each render. `App.Typing` takes the renders of the page, with the times between them, as they
-- come; what is sent is what `on_timer` of `App.Search` sends.
--
-- The front end and the back end meet in six modules. `Backend.Scanner.Page` gives the events of a
-- scan to the listeners of the page; `Backend.Serve.Found` runs `runDetect` with the back end, the scan
-- and the detection both; `Backend.Delete.Retries` runs `handleDelete` with every attempt that
-- `safeInvoke` makes; `Backend.Config.Saved` follows the settings from the fields of the page through
-- the command and the file and back; `Backend.Diagnostics.Card` runs `runDiagnostics` with the
-- report that the back end makes; `Backend.Pipeline.Late` gives the events of the pipeline, in any
-- order of its threads, to the page.
--
-- The scripts are runs over the actions that they do: each returns what it wrote so far, and how it
-- ended.
--
-- The data. A text is the list of its UTF-16 code units. A double is a whole number over a power of
-- two, an infinity or NaN, on which the operations that the program uses are exact; the overflow of
-- the format is left out. A score is a whole number of units of 2 ^ -149. The length limit of paths
-- and the timestamps are whole numbers.
--
-- Parameters. For the front end alone, the back end (its answers and how long they take); the case
-- mappings and the regular expression engine of the host, its print of a date, the present time,
-- `Number(text)`, the quotient of two doubles, React's test of the hooks of a render, the elements
-- and exceptions that the browser's events carry, the answer of the confirmation dialog, and, for
-- the scripts, the file system and the libraries that read, draw and write pictures are arguments
-- of the definitions that use them. So are, for the back end, the walk over a directory, the hash
-- of a file, the order in which a `HashMap` yields its entries (which is assumed to yield those of
-- the table and no others), `serde_json` (which is assumed to read what it printed), the defaults
-- that depend on the system, the clock, what the system and the index report for the diagnostics,
-- and the documents that the index gives for a query.
--
-- Loops and fuel. `safeInvoke` runs on `retries + 1` steps of fuel, one for each attempt;
-- `formatBytes` on three steps, one for each unit that it can go up by; the matching of terms
-- recurs on the text. The hook is a step function over the list of the things that happen to it.
-- The loops of the back end are structural recursion on the lists that they run over; its pipeline
-- is a step function over the moves of its main loop and its threads, in the order in which they
-- happen.
--
-- Not modelled: the styles, icons and fixed labels of the pages, but for those of the about page,
-- which is nothing else; focus and scrolling; src/main.tsx and vite.config.ts;
-- src/hooks/useSearchHotkeys.ts, whose effect is empty; the console; the rules of React itself, but
-- that it may refuse the hooks of a render, which `App.View.HookCalls` lists: `App.View.Shell`
-- shows nothing from then on, and the pages alone are shown as their functions say. Of the back
-- end: what the library that keeps the index does with the documents, beyond what is assumed of it;
-- the skipping of unchanged files in `build_inverted_index_progress` of main.rs, which the pages do
-- not call, and src-tauri/src/indexer.rs; `open_location`, the logging and the wiring of the
-- commands.
pub mod Prelude
pub mod Types
pub mod Utils
pub mod Constants
pub mod Services
pub mod Hooks
pub mod Components
pub mod App
pub mod Backend
pub mod Scripts
pub mod Tests
