-- ===== src/Postgres/Ready.antt =====
-- After a successful upgrade (app/migrate.py) the API finds the schema current
-- (app/postgres_store.py).
use sredevopsorg_sec_feed.Prelude.{
  String, ◌≡◌, refl, ap, ◌∙◌, inl, inr, Bool, true, some, List, [], ◌∷◌, ◌++◌, length, member,
  member-append, all, All, All-map, All-append, arith, eq_iff, ◌==◌, Bool-cases, Option-cases,
}
use sredevopsorg_sec_feed.Prelude.Int.{ℤ}
use sredevopsorg_sec_feed.Prelude.Results.{Result-cases, ok}
use sredevopsorg_sec_feed.Prelude.Sort.{IsSorted, sort, length-sort}
use sredevopsorg_sec_feed.Prelude.Texts.{text_leb, text_before}
use sredevopsorg_sec_feed.Store.Stats.{greatest}
use sredevopsorg_sec_feed.Migrate.{
  File, file_before, Database, versions, last_version, applied_versions, versioned, migration_files,
  latest_version,
}
use sredevopsorg_sec_feed.Migrate.Session.{Server, create_tracking}
use sredevopsorg_sec_feed.Migrate.Upgrade.{Runner, apply_pending}
use sredevopsorg_sec_feed.Migrate.Pending.{
  unapplied, is_new, member-versions-select, applied_versions-run_all,
  applied_versions-create_tracking,
}
use sredevopsorg_sec_feed.Migrate.Complete.{apply_pending-Upgraded}
use sredevopsorg_sec_feed.Postgres.Schema.{required_tables, verify, connection, init_db}
use sredevopsorg_sec_feed.Postgres.Current.{greatest_lem, text_leb_refl}

length-versioned :
    (isdigit : String → Bool) (dir : List File) (files : List (String × String))
    → versioned isdigit dir ≡ ok files
    → length files ≡ length dir
unfolding versioned
length-versioned isdigit [] [] h = refl
length-versioned isdigit [] (m ∷ files) h = absurd (ground arith)
length-versioned isdigit (f ∷ dir) files h = elim (Bool-cases (isdigit (text_before "_" f.stem))) [
  | inr bad ↦ absurd (ground arith)
  | inl good ↦ elim (Result-cases (versioned isdigit dir)) [
    | inr (e, bad) ↦ absurd (ground arith)
    | inl (rest, e) ↦ ground (arith, length-versioned isdigit dir rest e)
  ]
]

-- There is always a migration.
migration_files-cons :
    (isdigit : String → Bool) (dir : List File) → migration_files isdigit dir ≡ ok [] → ⊥
unfolding migration_files
migration_files-cons isdigit [] h = absurd (ground arith)
migration_files-cons isdigit (f ∷ dir) h =
    let same = length-versioned isdigit (sort file_before (f ∷ dir)) [] h in
    absurd (omega (arith, same, length-sort file_before (f ∷ dir)))

member-All :
    (P : String → Type 0) {v : String} (xs : List String) → All P xs → member v xs ≡ true → P v
member-All P [] h k = absurd (ground arith)
member-All P {v} (x ∷ xs) h k = elim (Bool-cases (x == v)) [
  | inl e ↦ rw (← (eq_iff x v).0 e) h.0
  | inr e ↦ member-All P xs h.1 (ground arith)
]

last-member :
    (m : String × String) (files : List (String × String))
    → member (last_version (m ∷ files)) (versions (m ∷ files)) ≡ true
last-member m [] = ground (arith, eq_iff m.0 m.0)
last-member m (n ∷ files) = ground (arith, last-member n files)

last-greatest :
    (m : String × String) (files : List (String × String))
    → IsSorted text_leb (versions (m ∷ files))
    → All (λ v. text_leb v (last_version (m ∷ files)) ≡ true) (versions (m ∷ files))
last-greatest m [] h = (text_leb_refl m.0, tt)
last-greatest m (n ∷ files) h = (
  member-All (λ v. text_leb m.0 v ≡ true) (versions (n ∷ files)) h.0 (last-member n files),
  last-greatest n files h.1,
)

All-member :
    (P : String → Type 0) (xs : List String) → ((v : String) → member v xs ≡ true → P v) → All P xs
All-member P [] h = tt
All-member P (x ∷ xs) h =
    (h x (ground (arith, eq_iff x x)), All-member P xs (λ v k. h v (ground arith)))

module _ {S : Type 0} where
  -- Once the pending migrations are recorded, the greatest version is that of the last file.
  greatest_recorded :
      (m : String × String) (files : List (String × String)) (before : Database S)
      (recorded : List String)
      → IsSorted text_leb (versions (m ∷ files))
      → All (λ v. member v (versions (m ∷ files)) ≡ true) (applied_versions before)
      → recorded ≡ applied_versions before ++ versions (unapplied (m ∷ files) before)
      → greatest text_leb recorded ≡ some (last_version (m ∷ files))
  greatest_recorded m files before recorded sorted known e =
      let last = last_version (m ∷ files) in
      let all = versions (m ∷ files) in
      let below : (v : String) → member v all ≡ true → text_leb v last ≡ true =
        λ v k. member-All (λ v. text_leb v last ≡ true) all (last-greatest m files sorted) k in
      rw e (
        greatest_lem last (applied_versions before ++ versions (unapplied (m ∷ files) before))
          (rw
            (
              member-append last (applied_versions before)
                  (versions (unapplied (m ∷ files) before)),
              member-versions-select (is_new before) last (m ∷ files),
              last-member m files,
            )
            (ground arith))
          (All-append (λ v. text_leb v last ≡ true) (applied_versions before)
            (versions (unapplied (m ∷ files) before))
            (All-map _ _ below (applied_versions before) known)
            (All-member (λ v. text_leb v last ≡ true) (versions (unapplied (m ∷ files) before))
              λ v k.
                below v (ground (arith, member-versions-select (is_new before) v (m ∷ files))))))

  verify-recorded :
      (has_table : S → String → Bool) (expected : String) (db : Database S)
      → greatest text_leb (applied_versions db) ≡ some expected
      → all (has_table db.schema) required_tables ≡ true
      → verify has_table expected db ≡ ok tt
  unfolding verify
  verify-recorded has_table expected db h tables = elim (Option-cases db.tracking) [
    | inl e ↦ absurd (ground arith)
    | inr (rows, e) ↦
        let found : greatest text_leb rows ≡ some expected = rw e at h in
        rw (e, found, tables) (ground (arith, eq_iff expected expected))
  ]

module _ {F S : Type 0} (runner : Runner F S) (has_table : S → String → Bool) where
  -- After an upgrade that succeeds, the schema check of the API passes, if the versions of the
  -- files are in the order of texts, the database had recorded no other, and the scripts have made
  -- the three tables.
  pub apply_pending-init_db :
      (url : String) (wait_seconds : ℤ) (before after : Server S) (applied : List String)
      (files : List (String × String))
      → apply_pending runner url wait_seconds before ≡ (after, ok applied)
      → migration_files runner.isdigit runner.dir ≡ ok files
      → IsSorted text_leb (versions files)
      → All (λ v. member v (versions files) ≡ true) (applied_versions before.db)
      → all (has_table after.db.schema) required_tables ≡ true
      → init_db runner.isdigit runner.dir has_table true after.db ≡ ok tt
  unfolding init_db latest_version connection
  apply_pending-init_db url wait_seconds before after applied [] run read sorted known tables =
      elim (migration_files-cons runner.isdigit runner.dir read) [ ]
  apply_pending-init_db url wait_seconds before after applied (m ∷ files) run read sorted known
        tables =
      let (found, upgraded) =
        apply_pending-Upgraded runner url wait_seconds before after applied run in
      let same : found ≡ m ∷ files = ground (arith, upgraded.read, read) in
      let scripts = rw same at upgraded.scripts_run in
      let recorded =
        applied_versions-run_all runner.sql (unapplied (m ∷ files) before.db)
          (create_tracking before.db) scripts
        ∙ ap (λ l. l ++ versions (unapplied (m ∷ files) before.db))
            (applied_versions-create_tracking before.db) in
      let newest =
        greatest_recorded m files before.db (applied_versions after.db) sorted known recorded in
      rw (init_db, latest_version, read)
        (verify-recorded has_table (last_version (m ∷ files)) after.db newest tables)
