-- ===== src/Backend/Config/Stored.antt =====
-- What the configuration file keeps, and what a configuration that was read is like.
use search_every.Prelude.{
  ◌<◌, List, [], ◌∷◌, Text, true, false, Option, none, some, codes, ◌≡◌, ◌≢◌, refl, ap, sym, ◌∙◌,
  arith, Bool-cases, inl, inr, if◌then◌else◌, subst,
}
use search_every.Backend.Config.{
  BackendConfig, Host, Store, default_config, default_exclude_patterns, in_source, redirect, fill,
  repair, read_text, removed, write_config, read_config, reset_config, or_if_empty,
}

-- No field that a search or a scan needs is empty.
pub record IsFilled (host : Host) (cfg : BackendConfig) : Type 0 where
  pub mode : host.is_blank cfg.search_mode ≡ false
  pub roots : cfg.scan_roots ≢ []
  pub patterns : cfg.exclude_patterns ≢ []
  pub dir : host.is_blank cfg.index_dir ≡ false
  pub len : 0 < cfg.path_max_len

-- A configuration that the program can work with: the index is not below the sources either.
abbrev pub IsSane : Host → BackendConfig → Type 0
IsSane host cfg = IsFilled host cfg × (in_source host cfg.index_dir ≡ false)

or_if_empty-ne : (xs default : List Text) → default ≢ [] → or_if_empty xs default ≢ []
or_if_empty-ne [] default h = h
or_if_empty-ne (x ∷ xs) default h = λ e. cc

or_if_empty_lem : (xs default : List Text) → xs ≢ [] → or_if_empty xs default ≡ xs
or_if_empty_lem [] default h = absurd (h refl)
or_if_empty_lem (x ∷ xs) default h = refl

not_blank :
    (host : Host) (t default : Text)
    → host.is_blank default ≡ false
    → host.is_blank (if host.is_blank t then default else t) ≡ false
not_blank host t default h = elim (Bool-cases (host.is_blank t)) [ inl e ↦ rw e h | inr e ↦ rw e e ]

-- What is assumed of the defaults.
module _ (host : Host) (defaults : IsSane host (default_config host)) where
  fill-IsFilled : (cfg : BackendConfig) → IsFilled host (fill host cfg)
  unfolding fill
  fill-IsFilled cfg = record {
    mode = not_blank host cfg.search_mode (codes "inverted") defaults.0.mode;
    roots = or_if_empty-ne cfg.scan_roots host.default_scan_roots defaults.0.roots;
    patterns = or_if_empty-ne cfg.exclude_patterns default_exclude_patterns defaults.0.patterns;
    dir = not_blank host cfg.index_dir host.default_index_dir defaults.0.dir;
    len = ground arith;
  }

  redirect-IsSane : (cfg : BackendConfig) → IsFilled host cfg → IsSane host (redirect host cfg)
  unfolding redirect
  redirect-IsSane cfg h = elim (Bool-cases (in_source host cfg.index_dir)) [
    | inl e ↦ rw e (
      record {
        mode = h.mode;
        roots = h.roots;
        patterns = h.patterns;
        dir = defaults.0.dir;
        len = h.len;
      },
      defaults.1,
    )
    | inr e ↦ rw e (h, e)
  ]

  repair-IsSane : (cfg : BackendConfig) → IsSane host (repair host cfg)
  unfolding repair
  repair-IsSane cfg = redirect-IsSane (fill host cfg) (fill-IsFilled cfg)

module _ (host : Host) where
  redirect_sane : (cfg : BackendConfig) → IsSane host cfg → redirect host cfg ≡ cfg
  unfolding redirect
  redirect_sane cfg h = rw (h.1) refl

  fill_sane : (cfg : BackendConfig) → IsFilled host cfg → fill host cfg ≡ cfg
  unfolding fill
  fill_sane cfg h =
      rw
        (
          h.mode,
          h.dir,
          or_if_empty_lem cfg.scan_roots host.default_scan_roots h.roots,
          or_if_empty_lem cfg.exclude_patterns default_exclude_patterns h.patterns,
        )
        (ap (λ n. record cfg { path_max_len = n }) (ground arith))

  repair_sane : (cfg : BackendConfig) → IsSane host cfg → repair host cfg ≡ cfg
  unfolding repair
  repair_sane cfg h = ap (redirect host) (fill_sane cfg h.0) ∙ redirect_sane cfg h

-- Reading where there is no file writes the defaults.
read_fresh :
    (host : Host)
    → host.has_dir ≡ true
    → host.can_write ≡ true
    → IsSane host (default_config host)
    → read_config host none ≡ (some (default_config host), some (host.print (default_config host)))
unfolding read_config
read_fresh host dir writes defaults =
    rw (dir, writes, redirect_sane host (default_config host) defaults) refl

read_stored :
    (host : Host) (text : Text)
    → host.has_dir ≡ true
    → host.can_read ≡ true
    → read_config host (some text) ≡ (read_text host (host.parse text), some text)
unfolding read_config
read_stored host text dir reads = ground arith

write_config_sane :
    (host : Host) (store : Store) (cfg : BackendConfig)
    → host.has_dir ≡ true
    → host.can_write ≡ true
    → IsSane host cfg
    → (write_config host cfg store).1 ≡ some (host.print cfg)
unfolding write_config
write_config_sane host store cfg dir writes sane = ground (arith, redirect_sane host cfg sane)

-- A configuration that was read is the default one, or was repaired.
read_fresh-eq :
    (host : Host) (store' : Store) (cfg : BackendConfig)
    → read_config host none ≡ (some cfg, store')
    → cfg ≡ default_config host
unfolding read_config
read_fresh-eq host store' cfg h = ground arith

read_text-eq :
    (host : Host) (o : Option BackendConfig) (cfg : BackendConfig)
    → read_text host o ≡ some cfg
    → (c : BackendConfig) × (repair host c ≡ cfg)
read_text-eq host none cfg h = cc
read_text-eq host (some c) cfg h = (c, cc)

read_stored-eq :
    (host : Host) (text : Text) (store' : Store) (cfg : BackendConfig)
    → read_config host (some text) ≡ (some cfg, store')
    → read_text host (host.parse text) ≡ some cfg
unfolding read_config
read_stored-eq host text store' cfg h = ground arith

-- Whatever the file holds, and whatever the system allows: if the reading of the configuration
-- succeeds, the configuration can be worked with, if the defaults can.
pub read_config-IsSane :
    (host : Host) (store store' : Store) (cfg : BackendConfig)
    → IsSane host (default_config host)
    → read_config host store ≡ (some cfg, store')
    → IsSane host cfg
read_config-IsSane host none store' cfg defaults h =
    subst (IsSane host) (sym (read_fresh-eq host store' cfg h)) defaults
read_config-IsSane host (some text) store' cfg defaults h =
    let (c, e) = read_text-eq host (host.parse text) cfg (read_stored-eq host text store' cfg h) in
    subst (IsSane host) e (repair-IsSane host defaults c)

-- What is written is read back as it was, if it can be worked with, and the file can be written and
-- read.
pub read_config-write_config :
    (host : Host) (store : Store) (cfg : BackendConfig)
    → host.has_dir ≡ true
    → host.can_write ≡ true
    → host.can_read ≡ true
    → host.parse (host.print cfg) ≡ some cfg
    → IsSane host cfg
    → read_config host (write_config host cfg store).1 ≡ (some cfg, some (host.print cfg))
read_config-write_config host store cfg dir writes reads p sane =
    ap (λ o. read_config host o) (write_config_sane host store cfg dir writes sane)
    ∙ read_stored host (host.print cfg) dir reads
    ∙ rw (p, repair_sane host cfg sane) refl

reset_opened :
    (host : Host) (store : Store)
    → host.has_dir ≡ true
    → reset_config host store ≡ read_config host (removed host store)
unfolding reset_config
reset_opened host store dir = ground arith

-- A reset gives the defaults if the file can be removed or is not there, and the new one be written;
-- where it cannot be removed, the reset has no effect but that of reading.
pub reset_config_lem :
    (host : Host) (store : Store)
    → host.has_dir ≡ true
    → host.can_write ≡ true
    → IsSane host (default_config host)
    → reset_config host store ≡ (
        if host.can_remove
        then (some (default_config host), some (host.print (default_config host)))
        else read_config host store)
reset_config_lem host store dir writes defaults =
    reset_opened host store dir
    ∙ elim store
        as (λ (o : Store). read_config host (removed host o) ≡ (
          if host.can_remove
          then (some (default_config host), some (host.print (default_config host)))
          else read_config host o)) [
            | none ↦ ground (arith, read_fresh host dir writes defaults)
            | some text ↦ ground (arith, read_fresh host dir writes defaults)
          ]
