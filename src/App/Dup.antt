-- ===== src/App/Dup.antt =====
-- The page of duplicate files in src/App.tsx: detecting, filtering and deleting.
pub mod Delete
use search_every.Prelude.{
  ℕ, List, [], ◌∷◌, ◌++◌, Text, Bool, true, false, ◌||◌, ◌&&◌, not, Option, none, some, codes,
  if◌then◌else◌, length, map, filter, ltb, text_eq,
}
use search_every.Prelude.Decimal.{show}
use search_every.Types.{FileMeta, DupGroup, DupKind}
use search_every.Services.Api.{
  Command, ScanOpts, scan_paths_progress, detect_duplicates, delete_file_and_index,
}
use search_every.App.State.{App, Answer, gives, throws}
use search_every.App.Scan.{failed, scan_opts}

-- What `runDetect` does next: it asks for the duplicates, or scans first.
pub data Detect : Type 0 where
  ask : Command → Detect
  scan_first : ScanOpts → Detect

-- `setMsg('正在分析重复...')` and the question
abbrev analyse : List FileMeta → App → App × Command
analyse files s =
    (record s { msg = codes "正在分析重复..." }, detect_duplicates (map (λ f. f.path) files))

abbrev pub detect_with : List FileMeta → App → App × Option Detect
detect_with [] s = (s, some (scan_first (scan_opts s)))
detect_with (f ∷ fs) s = let (s', c) = analyse (f ∷ fs) s in (s', some (ask c))

-- `runDetect` up to its first `await`.
unfoldable pub run_detect : App → App × Option Detect
run_detect s =
    if s.in_tauri
    then detect_with s.scanned (record s { busy = true; msg = codes "扫描中..." })
    else (s, none)

-- The subscription to the progress of that scan is there, or failed.
unfoldable pub on_detect_listening : ScanOpts → Answer (Unit {0}) → App → App × Option Command
on_detect_listening opts (gives u) s = (s, some (scan_paths_progress opts))
on_detect_listening opts (throws e) s = (failed e (codes "重复检测失败") s, none)

-- The answer to the scan that comes first, where nothing was scanned before.
unfoldable pub on_detect_scanned : Answer (List FileMeta) → App → App × Option Command
on_detect_scanned (gives res) s =
    let (s', c) = analyse res (record s { scanned = res }) in (s', some c)
on_detect_scanned (throws e) s = (failed e (codes "重复检测失败") s, none)

unfoldable pub on_detected : Answer (List DupGroup) → App → App
on_detected (gives groups) s = record s {
  dup_groups = groups;
  msg = codes "检测完成：发现 " ++ (show (length groups) ++ codes " 组重复");
  busy = false;
}
on_detected (throws e) s = failed e (codes "重复检测失败") s

abbrev pub kind_shown : App → DupKind → Bool
kind_shown s DupKind.hash = s.dup_include_hash
kind_shown s DupKind.name = s.dup_include_name

unfoldable pub filtered_groups : App → List DupGroup
filtered_groups s = filter (λ g. kind_shown s g.kind) s.dup_groups

-- `p !== path`
abbrev pub differs : Text → Text → Bool
differs path p = not (text_eq p path)

-- `{ ...g, files: g.files.filter(p => p !== path) }`
abbrev pub without_file : Text → DupGroup → DupGroup
without_file path g = record g { files = filter (differs path) g.files }

abbrev pub is_group : DupGroup → Bool
is_group g = ltb 1 (length g.files)

unfoldable pub remove_file : Text → List DupGroup → List DupGroup
remove_file path groups = filter is_group (map (without_file path) groups)

-- `handleDelete` up to its `await`; the first argument is the answer of `confirm`.
unfoldable pub handle_delete : Bool → Text → App → App × Option Command
handle_delete confirmed path s =
    if s.in_tauri && confirmed
    then (
      record s { busy = true; msg = codes "删除中..." },
      some (delete_file_and_index path s.index_dir),
    )
    else (s, none)

unfoldable pub on_deleted : Text → Answer (Unit {0}) → App → App
on_deleted path (gives u) s = record s {
  dup_groups = remove_file path s.dup_groups;
  msg = codes "已删除并移除索引记录";
  busy = false;
}
on_deleted path (throws e) s = failed e (codes "删除失败") s
