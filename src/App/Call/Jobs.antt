-- ===== src/App/Call/Jobs.antt =====
-- The handlers that send one command: that they end.
use search_every.Prelude.{ℕ, ◌+◌, List, Text, true, false, none, ◌≡◌, refl, ap, ◌&&◌}
use search_every.Types.{FileMeta, AppConfig, DupGroup}
use search_every.Constants.{invoke_timeouts}
use search_every.Utils.Csv.{parse_csv}
use search_every.Services.Invoke.{Reply}
use search_every.Services.Api.{
  Command, write_config, reset_config, build_inverted_index, scan_and_index_pipeline,
  delete_file_and_index,
}
use search_every.App.State.{App, Answer, gives, throws}
use search_every.App.Settings.{
  do_save_config, on_save_config, do_reset_config, on_reset_config, config_of,
}
use search_every.App.Scan.{do_index, index_opts, on_index, do_scan_and_index, on_scan_and_index}
use search_every.App.Dup.{handle_delete, on_deleted}
use search_every.App.Call.Limits.{attempts, EndsWithin, carry_out_ends}
use search_every.App.Call.{
  run_save_config, run_index, run_scan_and_index, run_delete, run_reset_config, run_scan,
  run_duplicates,
}
use search_every.App.Call.Scans.{scan_ends, duplicates_end}

save_clears : (s : App) (x : Answer (Unit {0})) → (on_save_config x s).busy ≡ false
unfolding on_save_config
save_clears s (gives u) = refl
save_clears s (throws e) = refl

reset_clears : (s : App) (x : Answer AppConfig) → (on_reset_config x s).busy ≡ false
unfolding on_reset_config
reset_clears s (gives cfg) = refl
reset_clears s (throws e) = refl

index_clears : (s : App) (x : Answer (Unit {0})) → (on_index x s).busy ≡ false
unfolding on_index
index_clears s (gives u) = refl
index_clears s (throws e) = refl

pipeline_clears : (s : App) (x : Answer (Unit {0})) → (on_scan_and_index x s).busy ≡ false
unfolding on_scan_and_index
pipeline_clears s (gives u) = refl
pipeline_clears s (throws e) = refl

delete_clears : (path : Text) (s : App) (x : Answer (Unit {0})) → (on_deleted path x s).busy ≡ false
unfolding on_deleted
delete_clears path s (gives u) = refl
delete_clears path s (throws e) = refl

module _ (default_retries : ℕ) (s : App) (inside : s.in_tauri ≡ true) where
  save_config_ends :
      (replies : Command → ℕ → Reply (Unit {0}))
      → EndsWithin
          (attempts default_retries invoke_timeouts.write_config)
          (run_save_config default_retries replies s)
  unfolding run_save_config do_save_config write_config
  save_config_ends replies =
      carry_out_ends default_retries replies on_save_config (write_config (config_of s)) (s, none)
        inside (save_clears _)

  reset_config_ends :
      (replies : Command → ℕ → Reply AppConfig)
      → EndsWithin
          (attempts default_retries invoke_timeouts.read_config)
          (run_reset_config default_retries replies s)
  unfolding run_reset_config do_reset_config reset_config
  reset_config_ends replies =
      carry_out_ends default_retries replies on_reset_config reset_config (s, none) inside
        (reset_clears _)

  index_ends :
      (replies : Command → ℕ → Reply (Unit {0}))
      → EndsWithin
          (attempts default_retries invoke_timeouts.build_index)
          (run_index default_retries replies s)
  unfolding run_index do_index build_inverted_index
  index_ends replies =
      carry_out_ends default_retries replies on_index
        (build_inverted_index s.scanned (index_opts s)) (s, none) inside (index_clears _)

  scan_and_index_ends :
      (replies : Command → ℕ → Reply (Unit {0}))
      → EndsWithin
          (attempts default_retries invoke_timeouts.pipeline_start)
          (run_scan_and_index default_retries replies s)
  unfolding run_scan_and_index do_scan_and_index scan_and_index_pipeline
  scan_and_index_ends replies =
      carry_out_ends default_retries replies on_scan_and_index
        (scan_and_index_pipeline (parse_csv s.roots) (parse_csv s.exclude) (index_opts s)) (s, none)
        inside (pipeline_clears _)

  delete_ends :
      (replies : Command → ℕ → Reply (Unit {0})) (path : Text)
      → EndsWithin
          (attempts default_retries invoke_timeouts.build_index)
          (run_delete default_retries replies path s)
  unfolding run_delete handle_delete delete_file_and_index
  delete_ends replies path =
      carry_out_ends default_retries replies (on_deleted path)
        (delete_file_and_index path s.index_dir) (s, none) (ap (λ b. b && true) inside)
        (delete_clears path _)

  -- In Tauri, saving and resetting the configuration, building the index, scanning and indexing, a
  -- confirmed deletion, a scan, and the detection of duplicates with or without a scan before it all
  -- come to an end, each within the limits of the attempts that it makes, whatever the back end does and
  -- however the subscription to the progress ends; then `busy` is false.
  pub jobs_end :
      (units : Command → ℕ → Reply (Unit {0})) (configs : Command → ℕ → Reply AppConfig)
      (files : Command → ℕ → Reply (List FileMeta)) (groups : Command → ℕ → Reply (List DupGroup))
      (listening : Answer (Unit {0})) (path : Text)
      → let all = attempts default_retries in
        EndsWithin (all invoke_timeouts.write_config) (run_save_config default_retries units s)
        × EndsWithin (all invoke_timeouts.read_config) (run_reset_config default_retries configs s)
        × EndsWithin (all invoke_timeouts.build_index) (run_index default_retries units s)
        × EndsWithin
            (all invoke_timeouts.pipeline_start)
            (run_scan_and_index default_retries units s)
        × EndsWithin (all invoke_timeouts.build_index) (run_delete default_retries units path s)
        × EndsWithin (all invoke_timeouts.scan_paths) (run_scan default_retries listening files s)
        × EndsWithin
            (all invoke_timeouts.scan_paths + all invoke_timeouts.search_query)
            (run_duplicates default_retries listening files groups s)
  jobs_end units configs files groups listening path = (
    save_config_ends units,
    reset_config_ends configs,
    index_ends units,
    scan_and_index_ends units,
    delete_ends units path,
    scan_ends default_retries files listening s inside,
    duplicates_end default_retries files groups listening s inside,
  )
