-- ===== src/Tests/Settings.antt =====
-- Runs of the configuration of the back end, and its theorems at such runs.
use search_every.Prelude.{
  [], ◌∷◌, Text, split, trim, trim_end, trim_start, is_space, Bool, true, false, none, some, codes,
  ◌≡◌, refl, arith,
}
use search_every.Prelude.Int.{pos}
use search_every.Utils.Csv.{parse_csv}
use search_every.Services.Value.{get}
use search_every.Services.Api
use search_every.App.State.{App, initial, gives}
use search_every.App.Settings.{config_of, on_config_loaded}
use search_every.Backend.Scanner.{contains}
use search_every.Backend.Config.{
  BackendConfig, Host, default_config, write_config, read_config, read_app_config, sent_config,
}
use search_every.Backend.Config.Stored.{IsSane, read_config-IsSane}
use search_every.Backend.Config.Saved.{got, HasSettings, settings_survive}

abbrev no_text : Text → Bool
no_text [] = true
no_text (c ∷ t) = false

-- The page as it is opened.
abbrev pub opened : App
opened = initial true (pos 60)

-- A file that keeps the directory of the index, beside the other settings of the page.
abbrev pub host : Host
host = record {
  default_scan_roots = codes "C:/" ∷ [];
  default_index_dir = codes "index";
  lower = λ t. t;
  is_blank = no_text;
  print = λ cfg. cfg.index_dir;
  parse = λ t. some (record (got opened 60) { index_dir = t });
  has_dir = true;
  can_read = true;
  can_write = true;
  can_remove = true;
}

pub defaults-IsSane : IsSane host (default_config host)
unfolding contains
defaults-IsSane = (
  record { mode = refl; roots = λ e. cc; patterns = λ e. cc; dir = refl; len = omega arith },
  refl,
)

-- A file with an empty directory of the index is repaired.
repaired :
    (read_config host (some [])).0 ≡ some (record (got opened 60) { index_dir = codes "index" })
unfolding read_config contains parse_csv split initial trim trim_end trim_start is_space
repaired = refl

read_config-IsSane_example : IsSane host (record (got opened 60) { index_dir = codes "index" })
unfolding read_config contains parse_csv split initial trim trim_end trim_start is_space
read_config-IsSane_example =
    read_config-IsSane host (some []) (some [])
      (record (got opened 60) { index_dir = codes "index" }) defaults-IsSane refl

opened-HasSettings : HasSettings host opened 60
unfolding contains parse_csv split initial trim trim_end trim_start is_space
opened-HasSettings = record {
  roots = λ e. cc;
  patterns = λ e. cc;
  dir = refl;
  not_empty = λ e. cc;
  outside = refl;
  limit = refl;
  positive = omega arith;
  small = omega arith;
}

settings_survive_example :
    (cfg : BackendConfig) × (read_app_config host
        (get "cfg" (Api.write_config (config_of opened)).payload)
      ≡ some cfg)
    × ((read_config host (write_config host cfg none).1).0 ≡ some cfg)
    × let u = on_config_loaded (gives (sent_config cfg)) (initial true (pos 80)) in
      (parse_csv u.roots ≡ parse_csv opened.roots)
      × (parse_csv u.exclude ≡ parse_csv opened.exclude)
      × (u.index_dir ≡ opened.index_dir)
      × (u.path_max_len ≡ opened.path_max_len)
      × (u.auto_scan_enabled ≡ opened.auto_scan_enabled)
settings_survive_example =
    settings_survive host opened (initial true (pos 80)) 60 none refl refl refl refl refl
      opened-HasSettings
