-- ===== src/Config/Accepts.antt =====
-- Which environments are accepted, and what holds of the settings that come out.
use sredevopsorg_sec_feed.Prelude.{
  String, ◌≡◌, refl, Bool, true, false, ◌&&◌, ◌||◌, not, Option, none, some, arith, ◌==◌,
}
use sredevopsorg_sec_feed.Prelude.Int.{ℤ, pos, ◌≤ℤ◌}
use sredevopsorg_sec_feed.Prelude.Dict.{Dict}
use sredevopsorg_sec_feed.Prelude.Results.{is_ok}
use sredevopsorg_sec_feed.Prelude.Texts.{is_blank}
use sredevopsorg_sec_feed.Config.{
  Platform, Settings, max_ℤ, is_local_host, validate_db_endpoint, cert_check, settings_of,
  bad_sizes, from_env,
}

module _ {F : Type 0} (platform : Platform F) where
  -- The mode is not the default, or the host is local (or the URL has no host that could be read).
  abbrev is_protected : String → Option String → Bool
  is_protected sslmode none = true
  is_protected sslmode (some url) =
      not (sslmode == "prefer")
      || is_blank url
      || elim (platform.hostname url) [ none ↦ true | some host ↦ is_local_host platform host ]

  abbrev pub cert_exists : Option String → Bool
  cert_exists none = true
  cert_exists (some path) = platform.is_file path

  -- In the mode `prefer`, which falls back to plaintext, the address names no remote host.
  abbrev pub IsLocalUnderPrefer : String → Option String → Type 0
  IsLocalUnderPrefer sslmode address =
      (url : String) (host : Option String)
      → sslmode ≡ "prefer"
      → address ≡ some url
      → is_blank url ≡ false
      → platform.hostname url ≡ some host
      → is_local_host platform host ≡ true

  -- What the checks establish of the settings.
  pub record IsChecked (s : Settings F) : Type 0 where
    pub pool_from_zero : pos 0 ≤ℤ s.db_pool_min_size
    pub pool_ordered : s.db_pool_min_size ≤ℤ s.db_pool_max_size
    pub pool_not_empty : pos 1 ≤ℤ s.db_pool_max_size
    pub cert_found : cert_exists s.db_sslrootcert ≡ true
    pub runtime_local : IsLocalUnderPrefer s.db_sslmode s.database_url
    pub admin_local : IsLocalUnderPrefer s.db_sslmode s.admin_database_url
    pub cache_ttl : pos 30 ≤ℤ s.feed_cache_ttl
    pub retention : pos 0 ≤ℤ s.retention_days
    pub epss : pos 0 ≤ℤ s.epss_max_cves
    pub osv : pos 0 ≤ℤ s.osv_max_cves_per_run
    pub statement_timeout : pos 0 ≤ℤ s.db_statement_timeout_ms
    pub idle_timeout : pos 0 ≤ℤ s.db_idle_tx_timeout_ms
    pub lock_timeout : pos 0 ≤ℤ s.db_lock_timeout_ms

  validate_db_endpoint_lem :
      (url : Option String) (sslmode : String)
      → is_ok (validate_db_endpoint platform url sslmode) ≡ is_protected sslmode url
  unfolding validate_db_endpoint
  validate_db_endpoint_lem none sslmode = refl
  validate_db_endpoint_lem (some url) sslmode = ground arith

  cert_check_lem : (path : Option String) → is_ok (cert_check platform path) ≡ cert_exists path
  cert_check_lem none = refl
  cert_check_lem (some path) = ground arith

  max_ℤ-le : (a b : ℤ) → a ≤ℤ max_ℤ a b
  max_ℤ-le a b = ground arith

  -- The settings that the environment gives pass every check.
  abbrev pub passes : Settings F → Bool
  passes s =
      not (bad_sizes s.db_pool_min_size s.db_pool_max_size)
      && cert_exists s.db_sslrootcert
      && is_protected s.db_sslmode s.database_url
      && is_protected s.db_sslmode s.admin_database_url

  -- The checks are these, whatever their order.
  pub from_env_accepts :
      (env : Dict String) → is_ok (from_env platform env) ≡ passes (settings_of platform env)
  unfolding from_env
  from_env_accepts env =
      let s = settings_of platform env in
      ground (
        arith,
        cert_check_lem s.db_sslrootcert,
        validate_db_endpoint_lem s.database_url s.db_sslmode,
        validate_db_endpoint_lem s.admin_database_url s.db_sslmode,
      )
