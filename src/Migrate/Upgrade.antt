-- ===== src/Migrate/Upgrade.antt =====
-- The commands of the runner: `apply_pending`, `check`, `bootstrap_role` and `main`.
use sredevopsorg_sec_feed.Prelude.{
  ℕ, String, Bool, true, false, not, Option, none, some, List, [], ◌∷◌, member, ltb, if◌then◌else◌,
}
use sredevopsorg_sec_feed.Prelude.Int.{ℤ}
use sredevopsorg_sec_feed.Prelude.Results.{Result, ok, err, ◌>>=◌, ◌>>◌}
use sredevopsorg_sec_feed.Prelude.Texts.{is_blank, text_length}
use sredevopsorg_sec_feed.Config.{Platform, ConfigError, validate_db_endpoint}
use sredevopsorg_sec_feed.Migrate.{
  File, MigrationError, url_not_set, bad_endpoint, not_reachable, lock_is_held, password_too_short,
  role_does_not_exist, Failure, migration, database, fuel_spent, Sql, migration_files, pending_of,
}
use sredevopsorg_sec_feed.Migrate.Session.{
  Server, Session, open_session, view, execute, commit, transaction, try_lock, unlock, close,
  create_tracking, apply_one,
}
use sredevopsorg_sec_feed.Migrate.Connect.{Waiting, connect, connected_at, gave_up_at, out_of_fuel}

-- What a run finds outside of the database: `DB_SSLMODE`, `ADMIN_DATABASE_URL`, the directory.
pub record Runner (F S : Type 0) : Type 0 where
  pub platform : Platform F
  pub sslmode : String
  pub admin_url : Option String
  pub getenv : String → Option String
  pub isdigit : String → Bool
  pub dir : List File
  pub sql : Sql S
  pub waiting : Waiting

abbrev pub min_password_length : ℕ
min_password_length = 16

-- `raise MigrationError(str(exc)) from exc`
abbrev as_failure : {A : Type 0} → Result MigrationError A → Result Failure A
as_failure (ok a) = ok a
as_failure (err e) = err (migration e)

abbrev as_migration : {A : Type 0} → Result ConfigError A → Result MigrationError A
as_migration (ok a) = ok a
as_migration (err e) = err (bad_endpoint e)

-- `a or b or ""`
abbrev or_text : Option String → String → String
or_text none t = t
or_text (some s) t = if is_blank s then t else s

-- The command line, once it is parsed.
pub data Command : Type 0 where
  upgrade_command : Option String → ℤ → Command
  check_command : Option String → ℤ → Command
  bootstrap_command : Option String → ℤ → String → Command

-- The exit code, and the exception that leaves `main`: only a `MigrationError` is caught.
unfoldable pub exit_code : {A : Type 0} → (A → ℕ) → Result Failure A → Result Failure ℕ
exit_code code (ok a) = ok (code a)
exit_code code (err (migration e)) = ok 1
exit_code code (err database) = err database
exit_code code (err fuel_spent) = err fuel_spent

module _ {F S : Type 0} (runner : Runner F S) where
  abbrev pub endpoint : String → Result MigrationError (Unit {0})
  endpoint url = as_migration (validate_db_endpoint runner.platform (some url) runner.sslmode)

  unfoldable pub resolve_url : Option String → Result MigrationError String
  resolve_url cli_url =
      let url = or_text cli_url (or_text runner.admin_url "") in
      if is_blank url then err url_not_set else endpoint url >>= λ _. ok url

  -- `_connect`: the session starts on the server as it is found.
  abbrev pub connected : ℤ → Result Failure (Unit {0})
  connected wait_seconds = elim (connect runner.waiting wait_seconds) [
    | connected_at n ↦ ok tt
    | gave_up_at n ↦ err (migration not_reachable)
    | out_of_fuel ↦ err fuel_spent
  ]

  -- The loop over the files; each migration is one transaction, and the first failure ends it.
  unfoldable pub apply_each :
      List String → List (String × String) → Session S → Session S × Result Failure (Unit {0})
  unfolding apply_one
  apply_each pending [] s = (s, ok tt)
  apply_each pending (m ∷ files) s = elim (member m.0 pending) [
    | false ↦ apply_each pending files s
    | true ↦
        let step = transaction (apply_one runner.sql m) s in
        elim step.1 [ ok done ↦ apply_each pending files step.0 | err e ↦ (step.0, err e) ]
  ]

  abbrev pub apply_versions :
      List String → List (String × String) → Session S → Session S × Result Failure (List String)
  apply_versions [] files ready = (ready, ok [])
  apply_versions (version ∷ rest) files ready =
      let run = apply_each (version ∷ rest) files ready in
      (run.0, run.1 >>= λ _. ok (version ∷ rest))

  -- The versions are read, the transaction of the read is ended, and what is pending is applied.
  abbrev pub apply_files :
      List (String × String) → Session S → Session S × Result Failure (List String)
  apply_files files s =
      apply_versions (pending_of files (view s)) files (commit (execute (λ db. db) s))

  -- What is done under the lock.
  unfoldable pub apply_locked : Session S → Session S × Result Failure (List String)
  unfolding migration_files pending_of apply_each
  apply_locked s =
      let tracked = commit (execute create_tracking s) in
      elim (migration_files runner.isdigit runner.dir) [
        | ok files ↦ apply_files files tracked
        | err e ↦ (execute (λ db. db) tracked, err (migration e))
      ]

  -- `SET statement_timeout`, the lock, the work, and the `finally`.
  abbrev pub apply_in : Session S → Server S × Result Failure (List String)
  apply_in fresh =
      let started = commit (execute (λ db. db) fresh) in
      let asked = commit (execute (λ db. db) (try_lock started)) in
      if started.locked
      then (close asked, err (migration lock_is_held))
      else (let run = apply_locked asked in
          (close (commit (execute (λ db. db) (unlock run.0))), run.1))

  abbrev pub apply_if :
      Result Failure (Unit {0}) → Server S → Server S × Result Failure (List String)
  apply_if (err e) server = (server, err e)
  apply_if (ok done) server = apply_in (open_session server)

  unfoldable pub apply_pending : String → ℤ → Server S → Server S × Result Failure (List String)
  unfolding apply_locked
  apply_pending url wait_seconds =
      apply_if (as_failure (endpoint url) >>= λ _. connected wait_seconds)

  -- `check`: the database is only read.
  unfoldable pub check_pending : Option String → ℤ → Server S → Result Failure (List String)
  unfolding pending_of migration_files resolve_url
  check_pending cli_url wait_seconds server = do
    url ← as_failure (resolve_url cli_url)
    connected wait_seconds
    files ← as_failure (migration_files runner.isdigit runner.dir)
    ok (pending_of files server.db)

  abbrev pub set_login : String → Session S → Server S × Result Failure (Unit {0})
  set_login password s =
      let looked = execute (λ db. db) s in
      if not (runner.sql.has_role (view looked).schema)
      then (close looked, err (migration role_does_not_exist))
      else (
        close (
            commit (
              execute (λ db. record db { schema = runner.sql.set_password password db.schema })
                looked)),
        ok tt,
      )

  unfoldable pub bootstrap_role :
      Option String → Option String → ℤ → Server S → Server S × Result Failure (Unit {0})
  unfolding resolve_url
  bootstrap_role cli_url given wait_seconds server =
      let password = or_text given (or_text (runner.getenv "FEED_APP_PASSWORD") "") in
      if ltb (text_length password) min_password_length
      then (server, err (migration password_too_short))
      else elim (as_failure (resolve_url cli_url) >>= λ _. connected wait_seconds) [
        | err e ↦ (server, err e)
        | ok done ↦ set_login password (open_session server)
      ]

  unfoldable pub main : Command → Server S → Server S × Result Failure ℕ
  unfolding exit_code
  main (upgrade_command url wait_seconds) server = elim (resolve_url url) [
    | err e ↦ (server, ok 1)
    | ok found ↦
        let run = apply_pending found wait_seconds server in (run.0, exit_code (λ _. 0) run.1)
  ]
  main (check_command url wait_seconds) server = (
    server,
    exit_code (λ pending. elim pending [ [] ↦ 0 | v ∷ rest ↦ 1 ])
        (check_pending url wait_seconds server),
  )
  main (bootstrap_command url wait_seconds password_env) server =
      let run = bootstrap_role url (runner.getenv password_env) wait_seconds server in
      (run.0, exit_code (λ _. 0) run.1)
