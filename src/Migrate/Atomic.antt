-- ===== src/Migrate/Atomic.antt =====
-- What a run of `apply_pending` does to the server, however it ends.
use sredevopsorg_sec_feed.Prelude.{
  String, All, member, select_none, ◌≡◌, refl, ap, ◌∙◌, inl, inr, Bool, true, false, not, List, [],
  ◌∷◌, select, Bool-cases,
}
use sredevopsorg_sec_feed.Prelude.Int.{ℤ}
use sredevopsorg_sec_feed.Prelude.Results.{Result, Result-cases, ok, err}
use sredevopsorg_sec_feed.Migrate.{
  Failure, migration, database, Database, MigrationError, migration_files, versions, pending_of,
}
use sredevopsorg_sec_feed.Migrate.Session.{Server, Session, open_session, create_tracking}
use sredevopsorg_sec_feed.Migrate.Upgrade.{
  Runner, apply_files, apply_versions, apply_locked, apply_in, apply_if, apply_pending,
}
use sredevopsorg_sec_feed.Migrate.Loop.{
  idle, run_until, Stops, run_until-Stops, apply_each_lem, todo_of,
}
use sredevopsorg_sec_feed.Migrate.Pending.{
  unapplied, todo_of-pending_of, applied_versions-create_tracking,
}

module _ {F S : Type 0} (runner : Runner F S) where
  -- `before` with another database: the advisory lock is as it was.
  abbrev pub with_db : Server S → Database S → Server S
  with_db server db = record server { db = db }

  abbrev pub outcome_of : Bool → List String → Result Failure (List String)
  outcome_of true pending = ok pending
  outcome_of false pending = err database

  -- The run is refused and nothing changes; or the migrations cannot be read and only the tracking
  -- table is there; or what is not applied is, in order, up to the first failure.
  pub data Effect (before : Server S) : Server S → Result Failure (List String) → Type 0 where
    refused : {e : Failure} → Effect before before (err e)
    unreadable :
        {e : MigrationError}
        → Effect before (with_db before (create_tracking before.db)) (err (migration e))
    migrated :
        {files : List (String × String)} {after : Database S} {complete : Bool}
        → migration_files runner.isdigit runner.dir ≡ ok files
        → Stops runner.sql (unapplied files before.db) (create_tracking before.db) after complete
        → Effect before (with_db before after) (outcome_of complete (pending_of files before.db))

  abbrev outcome_session :
      List String → Database S × Bool → Session S × Result Failure (List String)
  outcome_session pending (after, complete) = (idle after true true, outcome_of complete pending)

  apply_versions_lem :
      (pending : List String) (files : List (String × String)) (db : Database S)
      → apply_versions runner pending files (idle db true true)
        ≡ outcome_session pending (run_until runner.sql (todo_of pending files) db)
  apply_versions_lem [] files db =
      let nothing : todo_of [] files ≡ [] = select_none _ files (none_picked files) in
      rw nothing refl
    where
      none_picked :
          (ms : List (String × String)) → All (λ (m : String × String). member m.0 [] ≡ false) ms
      none_picked [] = tt
      none_picked (m ∷ ms) = (refl, none_picked ms)
  apply_versions_lem (version ∷ rest) files db =
      let run = run_until runner.sql (todo_of (version ∷ rest) files) db in
      elim (Bool-cases run.1) [
        | inl e ↦ rw (apply_each_lem runner (version ∷ rest) files db true true, e) refl
        | inr e ↦ rw (apply_each_lem runner (version ∷ rest) files db true true, e) refl
      ]

  apply_files_lem :
      (files : List (String × String)) (db : Database S)
      → apply_files runner files (idle db true true)
        ≡ outcome_session (pending_of files db) (run_until runner.sql (unapplied files db) db)
  apply_files_lem files db =
      apply_versions_lem (pending_of files db) files db
      ∙ ap (λ todo. outcome_session (pending_of files db) (run_until runner.sql todo db))
          (todo_of-pending_of files db)

  same_unapplied :
      (files : List (String × String)) (db : Database S)
      → unapplied files (create_tracking db) ≡ unapplied files db
  same_unapplied files db =
      ap (λ l. select (λ (m : String × String). not (member m.0 l)) files)
        (applied_versions-create_tracking db)

  same_pending :
      (files : List (String × String)) (db : Database S)
      → pending_of files (create_tracking db) ≡ pending_of files db
  unfolding pending_of
  same_pending files db =
      ap (λ l. select (λ version. not (member version l)) (versions files))
        (applied_versions-create_tracking db)

  apply_in-Effect :
      (db : Database S)
      → Effect
          (record { db = db; locked = false })
          (apply_in runner (open_session (record { db = db; locked = false }))).0
          (apply_in runner (open_session (record { db = db; locked = false }))).1
  unfolding apply_locked
  apply_in-Effect db = elim (Result-cases (migration_files runner.isdigit runner.dir)) [
    | inl (files, e) ↦
        let start = create_tracking db in
        rw
          (
            apply_locked,
            e,
            apply_files_lem files start,
            same_unapplied files db,
            same_pending files db,
          )
          (Effect.migrated e (run_until-Stops runner.sql (unapplied files db) start))
    | inr (e, bad) ↦ rw (apply_locked, bad) Effect.unreadable
  ]

  apply_if-Effect :
      (admitted : Result Failure (Unit {0})) (db : Database S) (locked : Bool)
      → Effect
          (record { db = db; locked = locked })
          (apply_if runner admitted (record { db = db; locked = locked })).0
          (apply_if runner admitted (record { db = db; locked = locked })).1
  apply_if-Effect (err e) db locked = Effect.refused
  apply_if-Effect (ok done) db true = Effect.refused
  apply_if-Effect (ok done) db false = apply_in-Effect db

  -- However an upgrade ends, the advisory lock is as it was, and either nothing has changed, or
  -- only the tracking table was made because the files could not be read, or the migrations that
  -- were not applied have been run and recorded in the order of the files, up to the first that
  -- fails, of which nothing remains.
  pub apply_pending-Effect :
      (url : String) (wait_seconds : ℤ) (server : Server S)
      → Effect server
          (apply_pending runner url wait_seconds server).0
          (apply_pending runner url wait_seconds server).1
  unfolding apply_pending
  apply_pending-Effect url wait_seconds server = apply_if-Effect _ server.db server.locked
