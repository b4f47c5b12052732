-- ===== src/Migrate/Tests.antt =====
-- Runs of the migration commands on a server whose schema is the list of the scripts it has run.
use sredevopsorg_sec_feed.Prelude.{
  ◌+◌, ◌*◌, String, ◌≡◌, refl, ◌++◌, true, false, none, some, List, [], ◌∷◌, arith, ltb, member,
  if◌then◌else◌, ◌==◌,
}
use sredevopsorg_sec_feed.Prelude.Int.{ℤ, pos}
use sredevopsorg_sec_feed.Prelude.Results.{ok, err}
use sredevopsorg_sec_feed.Prelude.Sort.{sort, sort_insert}
use sredevopsorg_sec_feed.Fetcher.Inputs.{plain_ops}
use sredevopsorg_sec_feed.Config.{Platform, is_local_host, validate_db_endpoint}
use sredevopsorg_sec_feed.Migrate.{
  File, migration, database, lock_is_held, password_too_short, Sql, versioned, migration_files,
  latest_version, pending_of,
}
use sredevopsorg_sec_feed.Migrate.Session.{Server, apply_one}
use sredevopsorg_sec_feed.Migrate.Connect.{
  Waiting, connected_at, gave_up_at, connect_from, connect, Ticks, Ends, patience, rounds,
  connect-Ends,
}
use sredevopsorg_sec_feed.Migrate.Upgrade.{
  Runner, upgrade_command, check_command, resolve_url, apply_each, apply_locked, apply_pending,
  check_pending, bootstrap_role, exit_code, main,
}
use sredevopsorg_sec_feed.Migrate.Atomic.{Effect, apply_pending-Effect}
use sredevopsorg_sec_feed.Migrate.Complete.{Upgraded, apply_pending-Upgraded}

program : Unit {0}
unfolding versioned migration_files latest_version pending_of apply_one connect_from connect
    resolve_url apply_each apply_locked apply_pending check_pending bootstrap_role exit_code main
    validate_db_endpoint is_local_host sort sort_insert
program = tt

abbrev platform : Platform ℤ
platform = record {
  ops = plain_ops;
  parse_int = λ s. none;
  parse_float = λ s. none;
  of_seconds = λ n. n;
  exceeds = λ a b. false;
  hostname = λ url. some (some "db");
  is_file = λ path. false;
  default_db = "data/feed.db";
}

-- The server answers the third attempt; each failure takes a second.
abbrev waiting : Waiting
waiting = record { started = 100; reaches = λ n. ltb 1 n; clock = λ n. 1100 + 3000 * n }

abbrev sql : Sql (List String)
sql = record {
  run = λ text schema. if text == "BROKEN" then none else some (schema ++ text ∷ []);
  has_role = λ schema. member "ROLE" schema;
  set_password = λ password schema. schema ++ password ∷ [];
}

abbrev runner_of : List File → Runner ℤ (List String)
runner_of dir = record {
  platform = platform;
  sslmode = "prefer";
  admin_url = some "postgresql://admin@db/feed";
  getenv = λ key. some "a-long-enough-password";
  isdigit = λ s. member s ("001" ∷ "002" ∷ "003" ∷ []);
  dir = dir;
  sql = sql;
  waiting = waiting;
}

abbrev initial : File
initial = record { stem = "001_initial"; text = "TABLES" }

abbrev role : File
role = record { stem = "002_role"; text = "ROLE" }

abbrev broken : File
broken = record { stem = "003_broken"; text = "BROKEN" }

abbrev runner : Runner ℤ (List String)
runner = runner_of (role ∷ initial ∷ [])

abbrev empty_server : Server (List String)
empty_server = record { db = record { schema = []; tracking = none }; locked = false }

abbrev migrated_server : Server (List String)
migrated_server = record {
  db = record { schema = "TABLES" ∷ "ROLE" ∷ []; tracking = some ("001" ∷ "002" ∷ []) };
  locked = false;
}

waiting-Ticks : Ticks waiting
waiting-Ticks = record { from_start = omega arith; sleeps = λ n. omega arith }

connect-Ends_example :
    Ends waiting (100 + patience (pos 10)) (rounds (pos 10)) (connect waiting (pos 10))
connect-Ends_example = connect-Ends waiting (pos 10) waiting-Ticks

third_attempt : connect waiting (pos 10) ≡ connected_at 2
unfolding program
third_attempt = refl

impatient : connect waiting (pos 3) ≡ gave_up_at 1
unfolding program
impatient = refl

upgraded :
    apply_pending runner "postgresql://admin@db/feed" (pos 10) empty_server
    ≡ (migrated_server, ok ("001" ∷ "002" ∷ []))
unfolding program
upgraded = refl

again :
    apply_pending runner "postgresql://admin@db/feed" (pos 10) migrated_server
    ≡ (migrated_server, ok [])
unfolding program
again = refl

-- A migration that fails leaves those before it, and a database error that `main` does not catch.
stopped :
    main (runner_of (broken ∷ role ∷ initial ∷ [])) (upgrade_command none (pos 10)) empty_server
    ≡ (migrated_server, err database)
unfolding program
stopped = refl

held :
    apply_pending runner "postgresql://admin@db/feed"
      (pos 10)
      (record empty_server { locked = true })
    ≡ (record empty_server { locked = true }, err (migration lock_is_held))
unfolding program
held = refl

behind : (main runner (check_command none (pos 10)) empty_server).1 ≡ ok 1
unfolding program
behind = refl

current : (main runner (check_command none (pos 10)) migrated_server).1 ≡ ok 0
unfolding program
current = refl

short_password :
    (bootstrap_role runner none (some "short") (pos 10) migrated_server).1
    ≡ err (migration password_too_short)
unfolding program
short_password = refl

apply_pending-Effect_example :
    Effect runner empty_server
      (apply_pending runner "postgresql://admin@db/feed" (pos 10) empty_server).0
      (apply_pending runner "postgresql://admin@db/feed" (pos 10) empty_server).1
apply_pending-Effect_example =
    apply_pending-Effect runner "postgresql://admin@db/feed" (pos 10) empty_server

apply_pending-Upgraded_example :
    (files : List (String × String)) × Upgraded runner empty_server migrated_server
      ("001" ∷ "002" ∷ [])
      files
apply_pending-Upgraded_example =
    apply_pending-Upgraded runner "postgresql://admin@db/feed" (pos 10) empty_server migrated_server
      ("001" ∷ "002" ∷ []) upgraded
