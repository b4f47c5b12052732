-- ===== src/Postgres/Schema.antt =====
-- The schema check at startup and the connection pool of the Postgres adapter
-- (app/postgres_store.py).
use sredevopsorg_sec_feed.Prelude.{
  String, Bool, false, ◌&&◌, Option, none, some, List, [], ◌∷◌, all, if◌then◌else◌, ◌==◌,
}
use sredevopsorg_sec_feed.Prelude.Int.{ℤ}
use sredevopsorg_sec_feed.Prelude.Results.{Result, ok, err}
use sredevopsorg_sec_feed.Prelude.Texts.{text_leb, is_blank}
use sredevopsorg_sec_feed.Store.Stats.{greatest}
use sredevopsorg_sec_feed.Config.{Settings}
use sredevopsorg_sec_feed.Migrate.{File, MigrationError, Database, latest_version}

-- What `init_db` raises; `config_missing` is the `RuntimeError` of a pool without a URL.
pub data SchemaError : Type 0 where
  no_latest : MigrationError → SchemaError
  schema_not_migrated : SchemaError
  store_unavailable : SchemaError
  config_missing : SchemaError

abbrev pub required_tables : List String
required_tables = "feed_items" ∷ "alerted_items" ∷ "source_state" ∷ []

abbrev pub is_version : Option String → String → Bool
is_version none expected = false
is_version (some version) expected = version == expected

-- The check itself, for the tables that the schema has. `max(version)` is in the order of texts.
unfoldable pub verify :
    {S : Type 0} → (S → String → Bool) → String → Database S → Result SchemaError (Unit {0})
verify has_table expected db = elim db.tracking [
  | none ↦ err schema_not_migrated
  | some rows ↦
      if is_version (greatest text_leb rows) expected && all (has_table db.schema) required_tables
      then ok tt
      else err schema_not_migrated
]

-- How the statements under `_connection` end: with a value, with a connection failure
-- (`OperationalError` or `PoolTimeout`), or with another exception.
pub data Body {ℓ} (A : Type ℓ) : Type ℓ where
  returned : A → Body A
  disconnected : Body A
  other_error : SchemaError → Body A

-- `_connection`: a connection failure becomes `StoreUnavailable`, and no other exception changes.
unfoldable pub connection : {A : Type 0} → Body A → Result SchemaError A
connection (returned a) = ok a
connection disconnected = err store_unavailable
connection (other_error e) = err e

-- What the pool is made with.
pub record Pool (F : Type 0) : Type 0 where
  pub dsn : String
  pub min_size : ℤ
  pub max_size : ℤ
  pub timeout : F
  pub max_idle : F
  pub max_lifetime : F
  pub prepare_threshold : Option ℤ
  pub connect_timeout : ℤ
  pub sslmode : String
  pub sslrootcert : Option String
  pub application_name : String
  pub statement_timeout : ℤ
  pub idle_in_transaction_session_timeout : ℤ
  pub lock_timeout : ℤ

module _ {F : Type 0} where
  -- The pool with the session settings of `_configure_connection`.
  abbrev pub pool_of : Settings F → String → Pool F
  pool_of s dsn = record {
    dsn = dsn;
    min_size = s.db_pool_min_size;
    max_size = s.db_pool_max_size;
    timeout = s.db_pool_timeout;
    max_idle = s.db_pool_max_idle;
    max_lifetime = s.db_pool_max_lifetime;
    prepare_threshold = s.db_prepare_threshold;
    connect_timeout = s.db_connect_timeout;
    sslmode = s.db_sslmode;
    sslrootcert = s.db_sslrootcert;
    application_name = s.db_application_name;
    statement_timeout = s.db_statement_timeout_ms;
    idle_in_transaction_session_timeout = s.db_idle_tx_timeout_ms;
    lock_timeout = s.db_lock_timeout_ms;
  }

  -- `_ensure_pool`: the first call makes the pool, from the settings of that time.
  unfoldable pub ensure_pool :
      Settings F → Option (Pool F) → Option (Pool F) × Result SchemaError (Pool F)
  ensure_pool s (some pool) = (some pool, ok pool)
  ensure_pool s none = elim s.database_url [
    | none ↦ (none, err config_missing)
    | some dsn ↦
        if is_blank dsn
        then (none, err config_missing)
        else (some (pool_of s dsn), ok (pool_of s dsn))
  ]

  -- `close`
  unfoldable pub close_pool : Option (Pool F) → Option (Pool F)
  close_pool pool = none

-- `init_db`, where the pool gives a connection; `reachable` says whether its statements run.
unfoldable pub init_db :
    {S : Type 0}
    → (String → Bool)
    → List File
    → (S → String → Bool)
    → Bool
    → Database S
    → Result SchemaError (Unit {0})
unfolding latest_version verify connection
init_db isdigit dir has_table reachable db = elim (latest_version isdigit dir) [
  | err e ↦ err (no_latest e)
  | ok expected ↦ elim (connection (if reachable then returned db else disconnected)) [
    | err e ↦ err e
    | ok seen ↦ verify has_table expected seen
  ]
]
