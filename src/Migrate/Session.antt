-- ===== src/Migrate/Session.antt =====
-- A session with the database: statements, transactions and the advisory lock.
use sredevopsorg_sec_feed.Prelude.{
  String, Bool, true, false, not, ◌&&◌, Option, none, some, [], ◌∷◌, ◌++◌, member, if◌then◌else◌,
  ◌>>=◌,
}
use sredevopsorg_sec_feed.Prelude.Results.{Result, ok, err}
use sredevopsorg_sec_feed.Migrate.{Database, Sql, Failure, database}

-- The server as all sessions see it; `locked` says that some session holds the advisory lock.
pub record Server (S : Type 0) : Type 0 where
  pub db : Database S
  pub locked : Bool

pub record Session (S : Type 0) : Type 0 where
  pub committed : Database S
  pub working : Option (Database S)
  pub locked : Bool
  pub owns : Bool

module _ {S : Type 0} where
  abbrev pub open_session : Server S → Session S
  open_session server = record {
    committed = server.db;
    working = none;
    locked = server.locked;
    owns = false;
  }

  -- What the statements of the session see.
  abbrev pub view : Session S → Database S
  view s = elim s.working [ none ↦ s.committed | some db ↦ db ]

  -- A statement that always succeeds.
  abbrev pub execute : (Database S → Database S) → Session S → Session S
  execute f s = record s { working = some (f (view s)) }

  abbrev pub commit : Session S → Session S
  commit s = record s { committed = view s; working = none }

  -- `with conn.transaction()`: the outermost block begins and commits, or rolls back; an inner one
  -- is a savepoint.
  abbrev pub transaction :
      (Database S → Option (Database S)) → Session S → Session S × Result Failure (Unit {0})
  transaction body s = elim (body (view s)) [
    | none ↦ (s, err database)
    | some db ↦ elim s.working [
      | none ↦ (record s { committed = db }, ok tt)
      | some outer ↦ (record s { working = some db }, ok tt)
    ]
  ]

  -- `pg_try_advisory_lock` and `pg_advisory_unlock`
  abbrev pub try_lock : Session S → Session S
  try_lock s = if s.locked then s else record s { locked = true; owns = true }

  abbrev pub unlock : Session S → Session S
  unlock s = if s.owns then record s { locked = false; owns = false } else s

  -- Closing a session drops its open transaction and its lock.
  abbrev pub close : Session S → Server S
  close s = record { db = s.committed; locked = s.locked && not s.owns }

  -- `CREATE TABLE IF NOT EXISTS feed_schema_migrations`
  abbrev pub create_tracking : Database S → Database S
  create_tracking db = record db {
    tracking = elim db.tracking [ none ↦ some [] | some rows ↦ some rows ];
  }

  -- `INSERT INTO feed_schema_migrations (version)`: the table must exist, and its primary key must
  -- not be there yet.
  abbrev pub insert_version : String → Database S → Option (Database S)
  insert_version version db = elim db.tracking [
    | none ↦ none
    | some rows ↦
        if member version rows
        then none
        else some (record db { tracking = some (rows ++ version ∷ []) })
  ]

  -- The two statements of one migration.
  unfoldable pub apply_one : Sql S → String × String → Database S → Option (Database S)
  apply_one sql (version, text) db = do
    schema ← sql.run text db.schema
    insert_version version (record db { schema = schema })
