-- ===== src/Migrate/Loop.antt =====
-- The loop over the migrations against a reference: run the scripts one after another, up to the
-- first that fails.
use sredevopsorg_sec_feed.Prelude.{
  String, ◌≡◌, refl, ap, inl, inr, Bool, true, false, Option, none, some, List, [], ◌∷◌, ◌++◌,
  select, member, arith, Bool-cases, Option-cases, ◌>>=◌,
}
use sredevopsorg_sec_feed.Prelude.Results.{Result, ok, err}
use sredevopsorg_sec_feed.Migrate.{Failure, database, Database, Sql, applied_versions}
use sredevopsorg_sec_feed.Migrate.Session.{Session, transaction, insert_version, apply_one}
use sredevopsorg_sec_feed.Migrate.Upgrade.{Runner, apply_each}

-- The files that are pending.
abbrev pub todo_of : List String → List (String × String) → List (String × String)
todo_of pending = select (λ (m : String × String). member m.0 pending)

abbrev pub as_result : Bool → Result Failure (Unit {0})
as_result true = ok tt
as_result false = err database

module _ {S : Type 0} where
  -- A session with no open transaction.
  abbrev pub idle : Database S → Bool → Bool → Session S
  idle db locked owns = record { committed = db; working = none; locked = locked; owns = owns }

  module _ (sql : Sql S) where
    -- The reference: what the database becomes, and whether all scripts were run.
    abbrev pub run_until : List (String × String) → Database S → Database S × Bool
    run_until [] db = (db, true)
    run_until (m ∷ todo) db = elim (apply_one sql m db) [
      | none ↦ (db, false)
      | some next ↦ run_until todo next
    ]

    -- All of them, or nothing.
    abbrev pub run_all : List (String × String) → Database S → Option (Database S)
    run_all [] db = some db
    run_all (m ∷ todo) db = apply_one sql m db >>= run_all todo

    -- Nothing is left, or the next script fails.
    abbrev pub StopsAt : Database S → Bool → List (String × String) → Type 0
    StopsAt after complete [] = complete ≡ true
    StopsAt after complete (m ∷ later) = (complete ≡ false) × (apply_one sql m after ≡ none)

    -- A run has applied the scripts in front, in order, and stops at the first that fails.
    pub record Stops (todo : List (String × String)) (before after : Database S) (complete : Bool)
        : Type 0 where
      pub front : List (String × String)
      pub rest : List (String × String)
      pub in_order : todo ≡ front ++ rest
      pub applied : run_all front before ≡ some after
      pub stopped : StopsAt after complete rest

    pub run_until-Stops :
        (todo : List (String × String)) (db : Database S)
        → Stops todo db (run_until todo db).0 (run_until todo db).1
    run_until-Stops [] db = record {
      front = [];
      rest = [];
      in_order = refl;
      applied = refl;
      stopped = refl;
    }
    run_until-Stops (m ∷ todo) db = elim (Option-cases (apply_one sql m db)) [
      | inl e ↦
          rw (run_until, e)
            (record {
              front = [];
              rest = m ∷ todo;
              in_order = refl;
              applied = refl;
              stopped = (refl, e);
            })
      | inr (next, e) ↦
          let tail = run_until-Stops todo next in
          rw (run_until, e)
            (record {
              front = m ∷ tail.front;
              rest = tail.rest;
              in_order = ap (◌∷◌ m) tail.in_order;
              applied = rw e tail.applied;
              stopped = tail.stopped;
            })
    ]

    applied_versions-insert_version :
        (version : String) (db next : Database S)
        → insert_version version db ≡ some next
        → applied_versions next ≡ applied_versions db ++ version ∷ []
    applied_versions-insert_version version db next h = elim (Option-cases db.tracking) [
      | inl e ↦ absurd (ground arith)
      | inr (rows, e) ↦ ground arith
    ]

    -- A migration is recorded once it is applied.
    pub applied_versions-apply_one :
        (m : String × String) (db : Database S) {next : Database S}
        → apply_one sql m db ≡ some next
        → applied_versions next ≡ applied_versions db ++ m.0 ∷ []
    unfolding apply_one
    applied_versions-apply_one m db {next} h = elim (Option-cases (sql.run m.1 db.schema)) [
      | inl e ↦ absurd (ground arith)
      | inr (schema, e) ↦
          applied_versions-insert_version m.0 (record db { schema = schema }) next (ground arith)
    ]

  module _ {F : Type 0} (runner : Runner F S) where
    pub apply_each_lem :
        (pending : List String) (files : List (String × String)) (db : Database S)
        (locked owns : Bool)
        → apply_each runner pending files (idle db locked owns) ≡ (
          idle (run_until runner.sql (todo_of pending files) db).0 locked owns,
          as_result (run_until runner.sql (todo_of pending files) db).1,
        )
    unfolding apply_each
    apply_each_lem pending [] db locked owns = refl
    apply_each_lem pending (m ∷ files) db locked owns = elim (Bool-cases (member m.0 pending)) [
      | inl e ↦ elim (Option-cases (apply_one runner.sql m db)) [
        | inl f ↦ rw (e, apply_each, f, transaction, f, run_until) refl
        | inr (next, f) ↦
            rw (e, apply_each, f, transaction, f, run_until)
              (apply_each_lem pending files next locked owns)
      ]
      | inr e ↦ rw (e, apply_each) (apply_each_lem pending files db locked owns)
    ]
