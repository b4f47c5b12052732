-- ===== src/Migrate.antt =====
-- The schema migrations (app/migrate.py): what a runner does to the database, and with which
-- transactions. A connection is a session: the database as committed, what the open transaction has
-- made of it, and the session's advisory lock. A statement opens a transaction if none is open.
pub mod Session
pub mod Connect
pub mod Upgrade
pub mod Loop
pub mod Pending
pub mod Atomic
pub mod Complete
mod Tests
use sredevopsorg_sec_feed.Prelude.{
  String, ◌<>◌, Bool, true, false, not, Option, none, some, List, [], ◌∷◌, ◌++◌, map, select,
  member, if◌then◌else◌,
}
use sredevopsorg_sec_feed.Prelude.Results.{Result, ok, err, ◌>>=◌}
use sredevopsorg_sec_feed.Prelude.Sort.{sort, sort_insert}
use sredevopsorg_sec_feed.Prelude.Texts.{text_leb, text_before}
use sredevopsorg_sec_feed.Config.{ConfigError}

-- A file of the migrations directory, `<stem>.sql`.
pub record File : Type 0 where
  pub stem : String
  pub text : String

-- The `MigrationError`s.
pub data MigrationError : Type 0 where
  no_migrations : MigrationError
  not_numeric : String → MigrationError
  url_not_set : MigrationError
  bad_endpoint : ConfigError → MigrationError
  not_reachable : MigrationError
  lock_is_held : MigrationError
  password_too_short : MigrationError
  role_does_not_exist : MigrationError

-- What ends a command: a `MigrationError`, or an error of the database, which is none. The last
-- stands for a connection loop that has not ended when its fuel is spent.
pub data Failure : Type 0 where
  migration : MigrationError → Failure
  database : Failure
  fuel_spent : Failure

-- `feed_schema_migrations`, if it exists, and all else.
pub record Database (S : Type 0) : Type 0 where
  pub schema : S
  pub tracking : Option (List String)

-- SQL that the program does not contain: a script on the schema (`none` is an error of the
-- database), whether the runtime role exists, and its password.
pub record Sql (S : Type 0) : Type 0 where
  pub run : String → S → Option S
  pub has_role : S → Bool
  pub set_password : String → S → S

-- `sorted(MIGRATIONS_DIR.glob("*.sql"))`: the paths differ in their names alone.
abbrev pub file_before : File → File → Bool
file_before a b = text_leb (a.stem <> ".sql") (b.stem <> ".sql")

-- The body of the loop, for `str.isdigit`, and the loop.
unfoldable pub versioned :
    (String → Bool) → List File → Result MigrationError (List (String × String))
versioned isdigit [] = ok []
versioned isdigit (file ∷ files) =
    let version = text_before "_" file.stem in
    if isdigit version
    then (versioned isdigit files >>= λ rest. ok ((version, file.text) ∷ rest))
    else err (not_numeric (file.stem <> ".sql"))

-- `migration_files`: the version and the text of each file.
unfoldable pub migration_files :
    (String → Bool) → List File → Result MigrationError (List (String × String))
unfolding versioned sort sort_insert
migration_files isdigit [] = err no_migrations
migration_files isdigit (file ∷ files) = versioned isdigit (sort file_before (file ∷ files))

abbrev pub versions : List (String × String) → List String
versions = map (λ (m : String × String). m.0)

abbrev pub last_version : List (String × String) → String
last_version [] = ""
last_version ((version, text) ∷ []) = version
last_version (m ∷ n ∷ rest) = last_version (n ∷ rest)

-- `latest_version`
unfoldable pub latest_version : (String → Bool) → List File → Result MigrationError String
unfolding migration_files
latest_version isdigit dir = migration_files isdigit dir >>= λ files. ok (last_version files)

module _ {S : Type 0} where
  -- `_applied_versions`: none if the table does not exist.
  abbrev pub applied_versions : Database S → List String
  applied_versions db = elim db.tracking [ none ↦ [] | some rows ↦ rows ]

  -- `pending_versions`, of the migrations that the directory has.
  unfoldable pub pending_of : List (String × String) → Database S → List String
  pending_of files db =
      select (λ version. not (member version (applied_versions db))) (versions files)
