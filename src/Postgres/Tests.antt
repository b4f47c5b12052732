-- ===== src/Postgres/Tests.antt =====
-- The Postgres adapter at concrete inputs.
use sredevopsorg_sec_feed.Prelude.{
  String, ◌≡◌, refl, Bool, true, false, none, some, List, [], ◌∷◌, member, if◌then◌else◌, ◌==◌,
}
use sredevopsorg_sec_feed.Prelude.Int.{ℤ, pos}
use sredevopsorg_sec_feed.Prelude.Results.{ok, err}
use sredevopsorg_sec_feed.Prelude.Sort.{sort, sort_insert}
use sredevopsorg_sec_feed.Fetcher.Inputs.{plain_ops}
use sredevopsorg_sec_feed.Config.{Platform, settings_of, validate_db_endpoint, is_local_host}
use sredevopsorg_sec_feed.Migrate.{Sql, versioned, migration_files, latest_version, pending_of}
use sredevopsorg_sec_feed.Migrate.Session.{Server, apply_one}
use sredevopsorg_sec_feed.Migrate.Connect.{connect_from, connect}
use sredevopsorg_sec_feed.Migrate.Upgrade.{Runner, apply_each, apply_locked, apply_pending}
use sredevopsorg_sec_feed.Postgres.Schema.{
  schema_not_migrated, config_missing, store_unavailable, verify, connection, init_db, ensure_pool,
  close_pool,
}
use sredevopsorg_sec_feed.Postgres.Ready.{apply_pending-init_db}

program : Unit {0}
unfolding versioned migration_files latest_version pending_of apply_one connect_from connect
    apply_each apply_locked apply_pending validate_db_endpoint is_local_host sort sort_insert verify
    connection init_db ensure_pool close_pool
program = tt

abbrev platform : Platform ℤ
platform = record {
  ops = plain_ops;
  parse_int = λ s. none;
  parse_float = λ s. none;
  of_seconds = λ n. n;
  exceeds = λ a b. false;
  hostname = λ url. some (some "db");
  is_file = λ path. false;
  default_db = "data/feed.db";
}

-- A schema is the list of its tables; a script makes the table that it names, or all three.
abbrev sql : Sql (List String)
sql = record {
  run = λ text schema. some (
      if text == "ALL"
      then "feed_items" ∷ "alerted_items" ∷ "source_state" ∷ schema
      else text ∷ schema);
  has_role = λ schema. true;
  set_password = λ password schema. schema;
}

abbrev has_table : List String → String → Bool
has_table schema table = member table schema

abbrev runner : Runner ℤ (List String)
runner = record {
  platform = platform;
  sslmode = "prefer";
  admin_url = none;
  getenv = λ key. none;
  isdigit = λ s. member s ("0001" ∷ "0002" ∷ []);
  dir =
      record { stem = "0002_extra"; text = "extra" }
      ∷ record { stem = "0001_baseline"; text = "ALL" }
      ∷ [];
  sql = sql;
  waiting = record { started = 0; reaches = λ n. true; clock = λ n. 2000 };
}

abbrev before : Server (List String)
before = record { db = record { schema = []; tracking = none }; locked = false }

abbrev after : Server (List String)
unfolding program
after = (apply_pending runner "postgresql://admin@db/feed" (pos 10) before).0

apply_pending-init_db_example : init_db runner.isdigit runner.dir has_table true after.db ≡ ok tt
unfolding program after
apply_pending-init_db_example =
    apply_pending-init_db runner has_table "postgresql://admin@db/feed" (pos 10) before after
      ("0001" ∷ "0002" ∷ []) (("0001", "ALL") ∷ ("0002", "extra") ∷ []) refl refl
      ((refl, tt), (tt, tt)) tt refl

not_upgraded : init_db runner.isdigit runner.dir has_table true before.db ≡ err schema_not_migrated
unfolding program
not_upgraded = refl

outage : init_db runner.isdigit runner.dir has_table false before.db ≡ err store_unavailable
unfolding program
outage = refl

no_url : ensure_pool (settings_of platform []) none ≡ (none, err config_missing)
unfolding program settings_of
no_url = refl
