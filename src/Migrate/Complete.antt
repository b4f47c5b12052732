-- ===== src/Migrate/Complete.antt =====
-- A run of `apply_pending` that succeeds, and the next one.
use mathlib.Core.List.{append-nil}
use sredevopsorg_sec_feed.Prelude.{
  String, ◌≡◌, refl, ap, ◌∙◌, true, false, some, List, [], ◌∷◌, ◌++◌, arith,
}
use sredevopsorg_sec_feed.Prelude.Int.{ℤ}
use sredevopsorg_sec_feed.Prelude.Results.{Result, ok}
use sredevopsorg_sec_feed.Migrate.{Failure, Database, migration_files, versions, pending_of}
use sredevopsorg_sec_feed.Migrate.Session.{Server, create_tracking}
use sredevopsorg_sec_feed.Migrate.Upgrade.{Runner, apply_pending}
use sredevopsorg_sec_feed.Migrate.Loop.{run_all, Stops, StopsAt}
use sredevopsorg_sec_feed.Migrate.Pending.{
  unapplied, pending_of_done, applied_versions-create_tracking, applied_versions-run_all,
}
use sredevopsorg_sec_feed.Migrate.Atomic.{
  Effect, refused, unreadable, migrated, apply_pending-Effect,
}

module _ {F S : Type 0} (runner : Runner F S) where
  -- What a run that succeeds has found and left.
  pub record Upgraded (before after : Server S) (applied : List String)
      (files : List (String × String)) : Type 0 where
    pub read : migration_files runner.isdigit runner.dir ≡ ok files
    pub reported : applied ≡ pending_of files before.db
    pub scripts_run :
        run_all runner.sql (unapplied files before.db) (create_tracking before.db) ≡ some after.db
    pub none_pending : pending_of files after.db ≡ []
    pub lock_kept : after.locked ≡ before.locked

  whole :
      (todo front rest : List (String × String)) (before after : Database S)
      → todo ≡ front ++ rest
      → run_all runner.sql front before ≡ some after
      → StopsAt runner.sql after true rest
      → run_all runner.sql todo before ≡ some after
  whole todo front [] before after e h s = rw (e, append-nil front) h
  whole todo front (m ∷ later) before after e h s = absurd (ground arith)

  Stops-run_all :
      (todo : List (String × String)) (before after : Database S)
      → Stops runner.sql todo before after true
      → run_all runner.sql todo before ≡ some after
  Stops-run_all todo before after s =
      whole todo s.front s.rest before after s.in_order s.applied s.stopped

  Effect-Upgraded :
      (before after : Server S) (result : Result Failure (List String))
      → Effect runner before after result
      → (applied : List String) → result ≡ ok applied
      → (files : List (String × String)) × Upgraded before after applied files
  Effect-Upgraded before after result (refused {e = e}) applied h = absurd (ground arith)
  Effect-Upgraded before after result (unreadable {e = e}) applied h = absurd (ground arith)
  Effect-Upgraded before after result
        (migrated {files = files} {after = db} {complete = false} e stops) applied h =
      absurd (ground arith)
  Effect-Upgraded before after result
        (migrated {files = files} {after = db} {complete = true} e stops) applied h =
      let complete =
        Stops-run_all (unapplied files before.db) (create_tracking before.db) db stops in
      (
        files,
        record {
          read = e;
          reported = ground arith;
          scripts_run = complete;
          none_pending = pending_of_done files before.db db (
              applied_versions-run_all runner.sql (unapplied files before.db)
                (create_tracking before.db) complete
              ∙ ap (λ l. l ++ versions (unapplied files before.db))
                  (applied_versions-create_tracking before.db));
          lock_kept = refl;
        },
      )

  -- An upgrade that succeeds reports the versions that were pending, has run their scripts in order
  -- on the database of before, leaves no version pending, and leaves the lock as it was.
  pub apply_pending-Upgraded :
      (url : String) (wait_seconds : ℤ) (before after : Server S) (applied : List String)
      → apply_pending runner url wait_seconds before ≡ (after, ok applied)
      → (files : List (String × String)) × Upgraded before after applied files
  apply_pending-Upgraded url wait_seconds before after applied h =
      let effect = apply_pending-Effect runner url wait_seconds before in
      Effect-Upgraded before after (ok applied) (rw h at effect) applied refl
