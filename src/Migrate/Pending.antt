-- ===== src/Migrate/Pending.antt =====
-- Which migrations are pending, before and after a run.
use sredevopsorg_sec_feed.Prelude.{
  String, ◌≡◌, refl, ap, sym, ◌∙◌, inl, inr, Bool, true, false, not, ◌&&◌, some, List, [], ◌∷◌,
  ◌++◌, select, member, arith, eq_iff, Option-cases, member-append, All, All-map, select_none,
}
use mathlib.Core.List.{append_assoc, append-nil}
use sredevopsorg_sec_feed.Migrate.{Database, Sql, versions, applied_versions, pending_of}
use sredevopsorg_sec_feed.Migrate.Session.{apply_one, create_tracking}
use sredevopsorg_sec_feed.Migrate.Loop.{run_all, todo_of, applied_versions-apply_one}

select_cong {ℓ} :
    {A : Type ℓ} (p q : A → Bool) (xs : List A)
    → All (λ x. p x ≡ q x) xs
    → select p xs ≡ select q xs
select_cong p q [] h = refl
select_cong p q (x ∷ xs) h = ground (arith, select_cong p q xs h.1)

All-member :
    (extra : List String) (files : List (String × String))
    → All (λ (m : String × String). member m.0 (extra ++ versions files) ≡ true) files
All-member extra [] = tt
All-member extra (m ∷ files) = (
  member-append m.0 extra (m.0 ∷ versions files) ∙ ground (arith, eq_iff m.0 m.0),
  All-map _ _ (λ (x : String × String) h. rw (append_assoc extra (m.0 ∷ []) (versions files)) at h)
      files (All-member (extra ++ m.0 ∷ []) files),
)

pub member-versions-select :
    (p : String → Bool) (v : String) (files : List (String × String))
    → member v (versions (select (λ (m : String × String). p m.0) files))
      ≡ (member v (versions files) && p v)
member-versions-select p v [] = refl
member-versions-select p v (m ∷ files) =
    ground (arith, member-versions-select p v files, eq_iff m.0 v)

module _ {S : Type 0} where
  abbrev pub is_new : Database S → String → Bool
  is_new db version = not (member version (applied_versions db))

  -- The files whose version the database has not recorded.
  abbrev pub unapplied : List (String × String) → Database S → List (String × String)
  unapplied files db = select (λ (m : String × String). is_new db m.0) files

  pending_of-unapplied :
      (files : List (String × String)) (db : Database S)
      → pending_of files db ≡ versions (unapplied files db)
  unfolding pending_of
  pending_of-unapplied [] db = refl
  pending_of-unapplied (m ∷ files) db = ground (arith, pending_of-unapplied files db)

  -- What the loop picks are the files that are not applied.
  pub todo_of-pending_of :
      (files : List (String × String)) (db : Database S)
      → todo_of (pending_of files db) files ≡ unapplied files db
  todo_of-pending_of files db = select_cong _ _ files (
      All-map _ _
        (λ (m : String × String) h.
          ap (member m.0) (pending_of-unapplied files db)
          ∙ member-versions-select (is_new db) m.0 files
          ∙ rw h refl)
        files (All-member [] files))

  pub applied_versions-create_tracking :
      (db : Database S) → applied_versions (create_tracking db) ≡ applied_versions db
  applied_versions-create_tracking db = elim (Option-cases db.tracking) [
    | inl e ↦ rw e refl
    | inr (rows, e) ↦ rw e refl
  ]

  pub applied_versions-run_all :
      (sql : Sql S) (todo : List (String × String)) (db : Database S) {after : Database S}
      → run_all sql todo db ≡ some after
      → applied_versions after ≡ applied_versions db ++ versions todo
  applied_versions-run_all sql [] db {after} h =
      let same : db ≡ after = ground arith in rw (← same) (sym (append-nil (applied_versions db)))
  applied_versions-run_all sql (m ∷ todo) db {after} h = elim (Option-cases (apply_one sql m db)) [
    | inl e ↦ absurd (ground arith)
    | inr (next, e) ↦
        let later : run_all sql todo next ≡ some after = ground arith in
        applied_versions-run_all sql todo next later
        ∙ ap (λ l. l ++ versions todo) (applied_versions-apply_one sql m db e)
        ∙ append_assoc (applied_versions db) (m.0 ∷ []) (versions todo)
  ]

  -- Once all that was not applied is recorded, nothing is pending.
  pub pending_of_done :
      (files : List (String × String)) (before after : Database S)
      → applied_versions after ≡ applied_versions before ++ versions (unapplied files before)
      → pending_of files after ≡ []
  pending_of_done files before after h =
      pending_of-unapplied files after
      ∙ ap versions (
          select_none _ files (
            All-map _ _ (λ (m : String × String) inside. recorded m inside) files
              (All-member [] files)))
    where
      recorded :
          (m : String × String) → member m.0 (versions files) ≡ true → is_new after m.0 ≡ false
      recorded m inside =
          rw
            (
              h,
              member-append m.0 (applied_versions before) (versions (unapplied files before)),
              member-versions-select (is_new before) m.0 files,
              inside,
            )
            (ground arith)
