-- ===== src/App/View/Pages.antt =====
-- The other pages of src/App.tsx: the numbers and texts that they show of the state.
use search_every.Prelude.{
  ℕ, ◌+◌, ◌-◌, ◌/◌, List, [], ◌∷◌, Text, Bool, true, false, not, ◌||◌, ◌&&◌, Option, none, some,
  codes, map, ◌++◌, length, ltb, truthy, if◌then◌else◌,
}
use search_every.Prelude.Decimal.{show}
use search_every.Prelude.Int.{pos, leb_ℤ}
use search_every.Prelude.Number.{Number, nan, infinity, fin, whole, round, abs, to_fixed}
use search_every.Types.{DiagnosticsReport, PageKey, DupGroup, DupKind, FileMeta}
use search_every.Utils.Path.{shorten_path}
use search_every.Utils.Size.{sign}
use search_every.App.State.{App}
use search_every.App.Dup.{filtered_groups}

-- `Math.min(100, Math.round(x))`
abbrev pub width_of : Number → Number
width_of nan = nan
width_of (infinity true) = whole 100
width_of (infinity false) = infinity false
width_of (fin m e) = if leb_ℤ (round m e) (pos 100) then fin (round m e) 0 else whole 100

-- The block that is shown for a total above 0; `pending` is `Math.max(0, idxTotal - idxCurrent)`. Of its
-- three buttons, which do nothing, two are always disabled.
pub record Progress : Type 0 where
  pub current : ℕ
  pub total : ℕ
  pub width : Number
  pub pending : ℕ
  pub cancel_disabled : Bool

-- The first argument is the quotient of the doubles, `idxCurrent / Math.max(1, idxTotal) * 100`.
unfoldable pub progress : (ℕ → ℕ → Number) → App → Option Progress
progress quotient s =
    if ltb 0 s.idx_total
    then some (record {
      current = s.idx_current;
      total = s.idx_total;
      width = width_of (quotient s.idx_current s.idx_total);
      pending = s.idx_total - s.idx_current;
      cancel_disabled = not s.idx_running;
    })
    else none

-- `scanned.length || lastScanTotal`
abbrev or_last : List FileMeta → ℕ → ℕ
or_last [] last = last
or_last (f ∷ fs) last = length (f ∷ fs)

unfoldable pub scanned_count : App → ℕ
scanned_count s =
    if s.busy || s.idx_running then s.scan_count else or_last s.scanned s.last_scan_total

-- `busy && scanDir ? shortenPath(scanDir, pathMaxLen) : ''`
unfoldable pub scanning_folder : App → Option Text
scanning_folder s =
    if s.busy && truthy s.scan_dir then some (shorten_path s.scan_dir s.path_max_len) else none

abbrev kind_label : DupKind → Text
kind_label DupKind.hash = codes "内容哈希"
kind_label DupKind.name = codes "文件名"

-- A card of the page of duplicates; a file has its tooltip and its shown path.
pub record GroupView : Type 0 where
  pub label : Text
  pub key : Text
  pub count : ℕ
  pub files : List (Text × Text)

unfoldable pub group_views : App → List GroupView
group_views s =
    map
      (λ (g : DupGroup). record {
        label = kind_label g.kind;
        key = g.key;
        count = length g.files;
        files = map (λ p. (p, shorten_path p s.path_max_len)) g.files;
      })
      (filtered_groups s)

-- The entries of the sidebar, and whether each is the current page.
pub record NavItem : Type 0 where
  pub key : PageKey
  pub label : Text
  pub active : Bool

abbrev pub same_page : PageKey → PageKey → Bool
same_page PageKey.search PageKey.search = true
same_page PageKey.index PageKey.index = true
same_page PageKey.dup PageKey.dup = true
same_page PageKey.settings PageKey.settings = true
same_page PageKey.about PageKey.about = true
same_page _ _ = false

abbrev nav_item : PageKey → PageKey → Text → NavItem
nav_item page key label = record { key = key; label = label; active = same_page page key }

abbrev pub nav_items : PageKey → List NavItem
nav_items page =
    nav_item page PageKey.search (codes "全局搜索")
    ∷ nav_item page PageKey.index (codes "索引状态")
    ∷ nav_item page PageKey.dup (codes "重复文件")
    ∷ nav_item page PageKey.settings (codes "系统设置")
    ∷ nav_item page PageKey.about (codes "关于产品")
    ∷ []

unfoldable pub sidebar : App → List NavItem
sidebar s = nav_items s.page

-- The card of the diagnostics.
pub record DiagnosticsView : Type 0 where
  pub index_dir : Text
  pub index : Text
  pub scan : Text
  pub pipeline : Text
  pub system : Text
  pub warnings : List Text

abbrev yes_no : Bool → Text
yes_no true = codes "是"
yes_no false = codes "否"

abbrev or_dash : Option Text → Text
or_dash none = codes "-"
or_dash (some t) = t

abbrev count_of : Option (List Text) → ℕ
count_of none = 0
count_of (some fields) = length fields

-- `x.toFixed(1)`, for a number that is not too large
abbrev to_fixed_1 : Number → Text
to_fixed_1 nan = codes "NaN"
to_fixed_1 (infinity true) = codes "Infinity"
to_fixed_1 (infinity false) = codes "-Infinity"
to_fixed_1 (fin m e) = sign m ++ to_fixed (abs m) e 1

abbrev pub cpu_text : Option Number → Text
cpu_text none = codes "-"
cpu_text (some x) = to_fixed_1 x ++ codes "%"

-- `Math.round(kib / 1024)`, which is exact
abbrev mib_text : Option ℕ → Text
mib_text none = codes "-"
mib_text (some kib) = show ((kib + 512) / 1024) ++ codes " MiB"

abbrev shown_count : Option ℕ → Option Text
shown_count none = none
shown_count (some n) = some (show n)

unfoldable pub diagnostics_view : DiagnosticsReport → DiagnosticsView
diagnostics_view d = record {
  index_dir = codes "索引目录：" ++ d.index_dir;
  index =
      codes "索引可打开："
      ++ (yes_no d.index_open_ok
          ++ (codes " · 文档数："
              ++ (or_dash (shown_count d.index_doc_count)
                  ++ (codes " · 字段：" ++ show (count_of d.schema_fields)))));
  scan =
      codes "扫描根数："
      ++ (show d.config_scan_roots_count
          ++ (codes " · 自动扫描："
              ++ (if d.config_auto_scan_enabled then codes "已启用" else codes "未启用")));
  pipeline =
      codes "管道："
      ++ ((if d.pipeline_started then codes "进行中" else codes "未进行")
          ++ (codes " · 已完成："
              ++ (yes_no d.pipeline_completed
                  ++ (codes " · 上次日期：" ++ or_dash d.pipeline_last_day))));
  system =
      codes "系统：CPU 平均 "
      ++ (cpu_text d.sys_cpu_avg
          ++ (codes " · 内存 总 "
              ++ (mib_text d.sys_total_mem_kib
                  ++ (codes " / 可用 " ++ mib_text d.sys_free_mem_kib))));
  warnings = d.warnings;
}
