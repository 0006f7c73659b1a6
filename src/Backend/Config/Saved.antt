-- ===== src/Backend/Config/Saved.antt =====
-- The settings of src/App.tsx, saved by the front end, kept by the back end and loaded again.
use search_every.Prelude.{
  ℕ, ◌^◌, ◌<◌, [], true, false, some, codes, ◌≡◌, ◌≢◌, refl, ap, sym, ◌∙◌, lt→ltb,
}
use search_every.Prelude.Int.{pos}
use search_every.Utils.Csv.{parse_csv}
use search_every.Utils.Csv.RoundTrip.{join_list, parse_csv-join_list, parse_csv-IsItem}
use search_every.Services.Value.{get}
use search_every.Services.Api
use search_every.Services.Api.Contract.{read_values-texts}
use search_every.App.State.{App, gives}
use search_every.App.Settings.{config_of, on_config_loaded}
use search_every.App.Settings.RoundTrip.{or_main_lem}
use search_every.Backend.Config.{
  BackendConfig, Host, Store, in_source, write_config, read_config, read_app_config, sent_config,
}
use search_every.Backend.Config.Stored.{IsSane, read_config-write_config}

-- The configuration that the back end gets from the fields of the page.
abbrev pub got : App → ℕ → BackendConfig
got s n = record {
  search_mode = codes "inverted";
  scan_roots = parse_csv s.roots;
  exclude_patterns = parse_csv s.exclude;
  index_dir = s.index_dir;
  path_max_len = n;
  auto_scan_enabled = s.auto_scan_enabled;
}

-- The fields of the page say what a scan and a search need.
pub record HasSettings (host : Host) (s : App) (n : ℕ) : Type 0 where
  pub roots : parse_csv s.roots ≢ []
  pub patterns : parse_csv s.exclude ≢ []
  pub dir : host.is_blank s.index_dir ≡ false
  pub not_empty : s.index_dir ≢ []
  pub outside : in_source host s.index_dir ≡ false
  pub limit : s.path_max_len ≡ pos n
  pub positive : 0 < n
  pub small : n < 2 ^ 32

read_app_config-write_config :
    (host : Host) (s : App) (n : ℕ)
    → s.path_max_len ≡ pos n
    → n < 2 ^ 32
    → read_app_config host (get "cfg" (Api.write_config (config_of s)).payload) ≡ some (got s n)
unfolding read_app_config Api.write_config config_of
read_app_config-write_config host s n limit small =
    rw
      (
        limit,
        read_values-texts (parse_csv s.roots),
        read_values-texts (parse_csv s.exclude),
        lt→ltb n (2 ^ 32) small,
      )
      refl

-- What the page shows of a configuration that it has loaded.
loaded_lem :
    (s t : App) (n : ℕ)
    → s.index_dir ≢ []
    → let u = on_config_loaded (gives (sent_config (got s n))) t in
      (parse_csv u.roots ≡ parse_csv s.roots)
      × (parse_csv u.exclude ≡ parse_csv s.exclude)
      × (u.index_dir ≡ s.index_dir)
      × (u.path_max_len ≡ pos n)
      × (u.auto_scan_enabled ≡ s.auto_scan_enabled)
unfolding on_config_loaded join_list
loaded_lem s t n h = (
  parse_csv-join_list (parse_csv s.roots) (parse_csv-IsItem s.roots),
  parse_csv-join_list (parse_csv s.exclude) (parse_csv-IsItem s.exclude),
  or_main_lem s.index_dir h,
  refl,
  refl,
)

-- The settings survive: if the fields of the page say what the program needs, the file can be written
-- and read, and the JSON of this configuration is read as the configuration that was printed, then the
-- back end takes the configuration that the page saves, keeps it, and reads it back as it was; and a
-- page that loads it has the same roots, patterns, index directory, length limit and automatic scan,
-- whatever it had before.
pub settings_survive :
    (host : Host) (s t : App) (n : ℕ) (store : Store)
    → host.has_dir ≡ true
    → host.can_write ≡ true
    → host.can_read ≡ true
    → host.is_blank (codes "inverted") ≡ false
    → host.parse (host.print (got s n)) ≡ some (got s n)
    → HasSettings host s n
    → (cfg : BackendConfig) × (read_app_config host
          (get "cfg" (Api.write_config (config_of s)).payload)
        ≡ some cfg)
      × ((read_config host (write_config host cfg store).1).0 ≡ some cfg)
      × let u = on_config_loaded (gives (sent_config cfg)) t in
        (parse_csv u.roots ≡ parse_csv s.roots)
        × (parse_csv u.exclude ≡ parse_csv s.exclude)
        × (u.index_dir ≡ s.index_dir)
        × (u.path_max_len ≡ s.path_max_len)
        × (u.auto_scan_enabled ≡ s.auto_scan_enabled)
settings_survive host s t n store dir writes reads mode serde set =
    let sane : IsSane host (got s n) = (
      record {
        mode = mode;
        roots = set.roots;
        patterns = set.patterns;
        dir = set.dir;
        len = set.positive;
      },
      set.outside,
    ) in
    let (roots, patterns, index, limit, auto) = loaded_lem s t n set.not_empty in
    (
      got s n,
      read_app_config-write_config host s n set.limit set.small,
      ap (λ r. r.0) (read_config-write_config host store (got s n) dir writes reads serde sane),
      (roots, patterns, index, limit ∙ sym set.limit, auto),
    )
