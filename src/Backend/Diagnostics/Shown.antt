-- ===== src/Backend/Diagnostics/Shown.antt =====
-- What a report can warn of, and what the page shows of it.
use search_every.Prelude.{
  ℕ, ◌+◌, ◌*◌, ◌/◌, List, [], ◌∷◌, ◌++◌, Text, Bool, true, false, not, Option, none, some, codes,
  ◌≡◌, ◌≢◌, ◌↔◌, refl, subst, arith, if◌then◌else◌,
}
use search_every.Prelude.Decimal.{show}
use search_every.Types.{DiagnosticsReport}
use search_every.App.View.Pages.{cpu_text, diagnostics_view}
use search_every.Backend.Config
use search_every.Backend.Config.{BackendConfig, Store, default_config, read_config}
use search_every.Backend.Config.Stored.{IsSane, read_config-IsSane}
use search_every.Backend.Diagnostics.{
  Opened, refused, opened, Machine, not_there, reported, no_items, warn_if, status_of, warnings_of,
  report, diagnostics_report,
}

-- The warnings that can come: of the index alone.
abbrev failure_of : Opened → List Text
failure_of (refused e) = (codes "open index failed: " ++ e) ∷ []
failure_of (opened names count) = []

abbrev pub index_warnings : Machine → Text → List Text
index_warnings m dir =
    if m.exists dir then failure_of (m.open_in_dir dir) else codes "index_dir does not exist" ∷ []

no_items_lem : (xs : List Text) → xs ≢ [] → no_items xs ≡ false
no_items_lem [] h = absurd (h refl)
no_items_lem (x ∷ xs) h = refl

index_part :
    (there : Bool) (o : Opened) (missing : Text)
    → warn_if (not there) missing ++ (if there then status_of o else not_there).failures
      ≡ (if there then failure_of o else missing ∷ [])
index_part true (refused e) missing = refl
index_part true (opened names count) missing = refl
index_part false o missing = refl

open_ok_iff :
    (there : Bool) (o : Opened) (missing : Text)
    → ((if there then status_of o else not_there).open_ok ≡ true)
      ↔ ((if there then failure_of o else missing ∷ []) ≡ [])
open_ok_iff true (refused e) missing = (λ h. cc, λ h. cc)
open_ok_iff true (opened names count) missing = (λ h. refl, λ h. refl)
open_ok_iff false o missing = (λ h. cc, λ h. cc)

module _ (host : Config.Host) (m : Machine) where
  warnings_of-IsSane :
      (cfg : BackendConfig)
      → IsSane host cfg
      → warnings_of host m cfg ≡ index_warnings m cfg.index_dir
  unfolding warnings_of
  warnings_of-IsSane cfg h =
      rw (no_items_lem cfg.scan_roots h.0.roots, h.0.dir)
        (index_part (m.exists cfg.index_dir) (m.open_in_dir cfg.index_dir)
          (codes "index_dir does not exist"))

  reported-config :
      (p : Option BackendConfig × Store) (r : DiagnosticsReport) (store : Store)
      → reported host m p ≡ (some r, store)
      → (cfg : BackendConfig) × (p ≡ (some cfg, store)) × (report host m cfg ≡ r)
  reported-config (none, s) r store h = cc
  reported-config (some cfg, s) r store h = (cfg, cc, cc)

  -- Whatever the configuration file holds, if the defaults can be worked with: a report never warns of
  -- the configuration; it warns that the directory of the index is not there, or else that the index
  -- cannot be opened, or of nothing, and it warns of nothing exactly if it says that the index can be
  -- opened.
  pub diagnostics_report_warnings :
      (store store' : Store) (r : DiagnosticsReport)
      → IsSane host (default_config host)
      → diagnostics_report host m store ≡ (some r, store')
      → (r.warnings ≡ index_warnings m r.index_dir) × ((r.index_open_ok ≡ true) ↔ (r.warnings ≡ []))
  unfolding diagnostics_report report
  diagnostics_report_warnings store store' r defaults h =
      let (cfg, read, made) = reported-config (read_config host store) r store' h in
      let sane = read_config-IsSane host store store' cfg defaults read in
      let w = warnings_of-IsSane cfg sane in
      subst
        (λ q.
          (q.warnings ≡ index_warnings m q.index_dir)
          × ((q.index_open_ok ≡ true) ↔ (q.warnings ≡ [])))
        made
        (
          w,
          rw w (
              open_ok_iff (m.exists cfg.index_dir) (m.open_in_dir cfg.index_dir)
                (codes "index_dir does not exist")),
        )

  half_up : (n : ℕ) → (n * 1048576 + 512) / 1024 ≡ n * 1024
  half_up n = omega arith

  -- The library counts the memory in bytes: where it counts some megabytes of 2 ^ 20 bytes, the page
  -- shows 1024 times as many.
  shown_memory :
      (cfg : BackendConfig) (all free : ℕ)
      → m.total_memory ≡ all * 1048576
      → m.free_memory ≡ free * 1048576
      → (diagnostics_view (report host m cfg)).system
        ≡ codes "系统：CPU 平均 "
          ++ (cpu_text m.cpu_avg
              ++ (codes " · 内存 总 "
                  ++ ((show (all * 1024) ++ codes " MiB")
                      ++ (codes " / 可用 " ++ (show (free * 1024) ++ codes " MiB")))))
  unfolding diagnostics_view report
  shown_memory cfg all free a f = rw (a, f, half_up all, half_up free) refl
