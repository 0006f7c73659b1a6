-- ===== src/App/Settings/RoundTrip.antt =====
-- Loading a configuration and saving it.
use search_every.Prelude.{
  [], ◌∷◌, Text, Bool, true, some, codes, ◌≡◌, ◌≢◌, refl, ap, ◌∙◌, arith, All,
}
use search_every.Prelude.Int.{ℤ}
use search_every.Types.{AppConfig}
use search_every.Utils.Csv.RoundTrip.{IsItem, join_list, parse_csv-join_list}
use search_every.Services.Api.{write_config}
use search_every.App.State.{App, gives}
use search_every.App.Settings.{or_main, config_of, on_config_loaded, do_save_config}

pub or_main_lem : (t : Text) → t ≢ [] → or_main t ≡ t
or_main_lem [] h = absurd (h refl)
or_main_lem (c ∷ s) h = refl

do_save_config_sends :
    (s : App) → s.in_tauri ≡ true → (do_save_config s).1 ≡ some (write_config (config_of s))
unfolding do_save_config
do_save_config_sends s t = ground arith

config_of_loaded :
    (cfg : AppConfig) (s : App) (n : ℤ) (b : Bool)
    → All IsItem cfg.scan_roots
    → All IsItem cfg.exclude_patterns
    → cfg.index_dir ≢ []
    → cfg.path_max_len ≡ some n
    → cfg.auto_scan_enabled ≡ some b
    → config_of (on_config_loaded (gives cfg) s) ≡ record cfg { search_mode = codes "inverted" }
unfolding on_config_loaded config_of join_list
config_of_loaded cfg s n b roots patterns dir len auto = rw (
  parse_csv-join_list cfg.scan_roots roots,
  parse_csv-join_list cfg.exclude_patterns patterns,
  or_main_lem cfg.index_dir dir,
  len,
  auto,
)

-- Loading a configuration and saving it at once writes the configuration that was read, with the
-- search mode set to inverted, if its roots and patterns are items of a comma list, its index
-- directory is not empty, and the two optional settings are there.
do_save_config_loaded :
    (cfg : AppConfig) (s : App) (n : ℤ) (b : Bool)
    → s.in_tauri ≡ true
    → All IsItem cfg.scan_roots
    → All IsItem cfg.exclude_patterns
    → cfg.index_dir ≢ []
    → cfg.path_max_len ≡ some n
    → cfg.auto_scan_enabled ≡ some b
    → (do_save_config (on_config_loaded (gives cfg) s)).1
      ≡ some (write_config (record cfg { search_mode = codes "inverted" }))
unfolding on_config_loaded
do_save_config_loaded cfg s n b t roots patterns dir len auto =
    do_save_config_sends (on_config_loaded (gives cfg) s) t
    ∙ ap (λ c. some (write_config c)) (config_of_loaded cfg s n b roots patterns dir len auto)
