-- ===== src/Config.antt =====
-- The settings (app/config.py): the parsers of the environment's values and `Settings.from_env`.
pub mod Accepts
mod Tests
use sredevopsorg_sec_feed.Prelude.{
  ◌-◌, String, Bool, true, false, ◌&&◌, ◌||◌, not, Option, none, some, List, [], ◌∷◌, map, select,
  member, if◌then◌else◌, ◌==◌,
}
use sredevopsorg_sec_feed.Prelude.Int.{ℤ, pos, ltb_ℤ}
use sredevopsorg_sec_feed.Prelude.Dict.{Dict, lookup}
use sredevopsorg_sec_feed.Prelude.Results.{Result, ok, err, ◌>>=◌, ◌>>◌, guard}
use sredevopsorg_sec_feed.Prelude.Texts.{
  is_blank, text_or, has_prefix, occurs_in, split_on, ends_with, drop_first, drop_last,
}
use sredevopsorg_sec_feed.Runtime.{TextOps}

-- What the module takes from Python: `int` and `float` on texts (`none` is a `ValueError`), the
-- floats with their zero and their `>`, `urlsplit(url).hostname` (the outer `none` is a
-- `ValueError`) and whether a path is a file. `default_db` is `_DEFAULT_SQLITE_DB`.
pub record Platform (F : Type 0) : Type 0 where
  pub ops : TextOps
  pub parse_int : String → Option ℤ
  pub parse_float : String → Option F
  pub of_seconds : ℤ → F
  pub exceeds : F → F → Bool
  pub hostname : String → Option (Option String)
  pub is_file : String → Bool
  pub default_db : String

pub data ConfigError : Type 0 where
  bad_pool_sizes : ConfigError
  no_such_file : String → ConfigError
  plaintext_to : Option String → ConfigError

-- `max(a, b)`
abbrev pub max_ℤ : ℤ → ℤ → ℤ
max_ℤ a b = if ltb_ℤ a b then b else a

abbrev pub or_else {ℓ} : {A : Type ℓ} → Option A → A → A
or_else none d = d
or_else (some a) d = a

-- `env.get(key) or None`, of the value that was found.
abbrev pub or_none : Option String → Option String
or_none none = none
or_none (some s) = if is_blank s then none else some s

abbrev pub local_db_hosts : List String
local_db_hosts = "localhost" ∷ "127.0.0.1" ∷ "::1" ∷ "postgres" ∷ "db" ∷ "database" ∷ []

pub record Settings (F : Type 0) : Type 0 where
  pub database_url : Option String
  pub admin_database_url : Option String
  pub sqlite_db_path : String
  pub db_pool_min_size : ℤ
  pub db_pool_max_size : ℤ
  pub db_pool_timeout : F
  pub db_pool_max_idle : F
  pub db_pool_max_lifetime : F
  pub db_prepare_threshold : Option ℤ
  pub db_connect_timeout : ℤ
  pub db_sslmode : String
  pub db_sslrootcert : Option String
  pub db_application_name : String
  pub db_statement_timeout_ms : ℤ
  pub db_idle_tx_timeout_ms : ℤ
  pub db_lock_timeout_ms : ℤ
  pub opensearch_url : Option String
  pub opensearch_index : String
  pub cors_origins : List String
  pub rate_limit_per_minute : ℤ
  pub rate_limit_trust_proxy : Bool
  pub max_sse_subscribers : ℤ
  pub log_level : String
  pub github_token : Option String
  pub nvd_window_days : ℤ
  pub kev_source_days : ℤ
  pub feed_cache_ttl : ℤ
  pub retention_days : ℤ
  pub epss_max_cves : ℤ
  pub osv_max_cves_per_run : ℤ
  pub discord_webhook_url : Option String
  pub slack_webhook_url : Option String
  pub alert_email_to : Option String
  pub smtp_host : Option String
  pub smtp_port : ℤ
  pub smtp_user : Option String
  pub smtp_password : Option String
  pub alert_from : String

-- `db_pool_min_size < 0 or db_pool_max_size < 1 or db_pool_min_size > db_pool_max_size`
abbrev pub bad_sizes : ℤ → ℤ → Bool
bad_sizes low high = ltb_ℤ low (pos 0) || ltb_ℤ high (pos 1) || ltb_ℤ high low

module _ {F : Type 0} (platform : Platform F) where
  -- `_csv`
  unfoldable pub csv : Option String → List String
  csv none = []
  csv (some value) =
      if is_blank value
      then []
      else map platform.ops.strip
          (select (λ v. not (is_blank (platform.ops.strip v))) (split_on "," value))

  -- `_int`, `_float`, `_opt_int`, `_bool`
  unfoldable pub int_or : Option String → ℤ → ℤ
  int_or none default = default
  int_or (some value) default = or_else (platform.parse_int value) default

  unfoldable pub float_or : Option String → F → F
  float_or none default = default
  float_or (some value) default =
      if is_blank value then default else or_else (platform.parse_float value) default

  unfoldable pub opt_int : Option String → Option ℤ
  opt_int none = none
  opt_int (some value) =
      if is_blank (platform.ops.strip value) then none else platform.parse_int value

  unfoldable pub bool_or : Option String → Bool → Bool
  bool_or none default = default
  bool_or (some value) default =
      member (platform.ops.lower (platform.ops.strip value)) ("1" ∷ "true" ∷ "yes" ∷ "on" ∷ [])

  -- A host in brackets, as an IPv6 address of a URL, without them.
  abbrev pub unbracketed : String → String
  unbracketed host =
      if has_prefix "[" host && ends_with "]" host then drop_last (drop_first host) else host

  unfoldable pub is_local_host : Option String → Bool
  is_local_host none = true
  is_local_host (some host) =
      let normalized = unbracketed (platform.ops.lower (platform.ops.strip host)) in
      is_blank host || member normalized local_db_hosts || not (occurs_in "." normalized)

  -- The host of a URL that could be parsed.
  abbrev pub host_check : Option (Option String) → Result ConfigError (Unit {0})
  host_check none = ok tt
  host_check (some host) = guard (is_local_host host) (plaintext_to host)

  unfoldable pub validate_db_endpoint : Option String → String → Result ConfigError (Unit {0})
  validate_db_endpoint none sslmode = ok tt
  validate_db_endpoint (some url) sslmode =
      if is_blank url || not (sslmode == "prefer")
      then ok tt
      else host_check (platform.hostname url)

  abbrev pub cert_check : Option String → Result ConfigError (Unit {0})
  cert_check none = ok tt
  cert_check (some path) = guard (platform.is_file path) (no_such_file path)

  abbrev pub nonnegative : F → F
  nonnegative x =
      let zero = platform.of_seconds (pos 0) in if platform.exceeds x zero then x else zero

  -- The record that `from_env` makes once the checks have passed.
  unfoldable pub settings_of : Dict String → Settings F
  unfolding csv int_or float_or opt_int bool_or lookup
  settings_of env =
      let get : String → Option String = λ key. lookup key env in
      let option : String → Option String = λ key. or_none (get key) in
      let number : String → ℤ → ℤ = λ key. int_or (get key) in
      let capped : String → ℤ → ℤ = λ key default. max_ℤ (pos 0) (number key default) in
      let seconds : String → ℤ → F =
        λ key default. nonnegative (float_or (get key) (platform.of_seconds default)) in
      record {
        database_url = option "DATABASE_URL";
        admin_database_url = option "ADMIN_DATABASE_URL";
        sqlite_db_path = or_else (get "SECURITY_FEED_DB") platform.default_db;
        db_pool_min_size = number "DB_POOL_MIN_SIZE" (pos 1);
        db_pool_max_size = number "DB_POOL_MAX_SIZE" (pos 4);
        db_pool_timeout = seconds "DB_POOL_TIMEOUT" (pos 30);
        db_pool_max_idle = seconds "DB_POOL_MAX_IDLE" (pos 600);
        db_pool_max_lifetime = seconds "DB_POOL_MAX_LIFETIME" (pos 3600);
        db_prepare_threshold = opt_int (get "DB_PREPARE_THRESHOLD");
        db_connect_timeout = number "DB_CONNECT_TIMEOUT" (pos 10);
        db_sslmode = or_else (option "DB_SSLMODE") "prefer";
        db_sslrootcert = option "DB_SSLROOTCERT";
        db_application_name = or_else (option "DB_APPLICATION_NAME") "security-feed";
        db_statement_timeout_ms = capped "DB_STATEMENT_TIMEOUT_MS" (pos 15_000);
        db_idle_tx_timeout_ms = capped "DB_IDLE_TX_TIMEOUT_MS" (pos 30_000);
        db_lock_timeout_ms = capped "DB_LOCK_TIMEOUT_MS" (pos 5_000);
        opensearch_url = option "OPENSEARCH_URL";
        opensearch_index = or_else (get "OPENSEARCH_INDEX") "security-feed";
        cors_origins = csv (get "CORS_ORIGINS");
        rate_limit_per_minute = number "RATE_LIMIT_PER_MINUTE" (pos 120);
        rate_limit_trust_proxy = bool_or (get "RATE_LIMIT_TRUST_PROXY") true;
        max_sse_subscribers = number "MAX_SSE_SUBSCRIBERS" (pos 100);
        log_level = or_else (get "LOG_LEVEL") "INFO";
        github_token = option "GITHUB_TOKEN";
        nvd_window_days = number "NVD_WINDOW_DAYS" (pos 7);
        kev_source_days = number "KEV_SOURCE_DAYS" (pos 7);
        feed_cache_ttl = max_ℤ (pos 30) (number "FEED_CACHE_TTL" (pos 600));
        retention_days = capped "RETENTION_DAYS" (pos 180);
        epss_max_cves = capped "EPSS_MAX_CVES" (pos 200);
        osv_max_cves_per_run = capped "OSV_MAX_CVES_PER_RUN" (pos 50);
        discord_webhook_url = option "DISCORD_WEBHOOK_URL";
        slack_webhook_url = option "SLACK_WEBHOOK_URL";
        alert_email_to = option "ALERT_EMAIL_TO";
        smtp_host = option "SMTP_HOST";
        smtp_port = number "SMTP_PORT" (pos 587);
        smtp_user = option "SMTP_USER";
        smtp_password = option "SMTP_PASSWORD";
        alert_from = or_else (get "ALERT_FROM") "security-feed@example.com";
      }

  unfoldable pub from_env : Dict String → Result ConfigError (Settings F)
  from_env env = do
    let s = settings_of env
    guard (not (bad_sizes s.db_pool_min_size s.db_pool_max_size)) bad_pool_sizes
    cert_check s.db_sslrootcert
    validate_db_endpoint s.database_url s.db_sslmode
    validate_db_endpoint s.admin_database_url s.db_sslmode
    ok s
