-- ===== src/Postgres/Pruned.antt =====
-- The retention of the two adapters agrees, on an archive and its image.
use sredevopsorg_sec_feed.Prelude.{
  ℕ, String, ◌≡◌, refl, ap, Bool, true, false, not, ◌&&◌, Option, none, some, select, ltb, arith,
}
use sredevopsorg_sec_feed.Prelude.Dict.{Dict, lookup}
use sredevopsorg_sec_feed.Models.{map_option}
use sredevopsorg_sec_feed.Store.{Row, Engine}
use sredevopsorg_sec_feed.Store.Tables.{
  upsert_row, upsert_rows, mark_one, mark_all, coalesce, text_lt,
}
use sredevopsorg_sec_feed.Store.Tables as LiteTables
use sredevopsorg_sec_feed.Postgres.{FeedRow, Archive}
use sredevopsorg_sec_feed.Postgres.Upkeep as Upkeep
use sredevopsorg_sec_feed.Postgres.Upkeep.{insert_mark, insert_marks, fetch_of}
use sredevopsorg_sec_feed.Postgres.Image.{
  map_dict, lookup-map_dict, select-map_dict, length-map_dict, iso_at, row_image, image, IsMonotone,
}

module _ (engine : Engine) where
  text_lt-iso_at :
      IsMonotone engine → (a b : ℕ) → text_lt (iso_at engine a) (iso_at engine b) ≡ ltb a b
  text_lt-iso_at mono a b = rw (mono b a) (ground arith)

  abbrev gone {ℓ} : {A : Type ℓ} → Option A → Bool
  gone none = true
  gone (some a) = false

  gone-map {ℓ κ} :
      {A : Type ℓ} {B : Type κ} (f : A → B) (o : Option A) → gone (map_option f o) ≡ gone o
  gone-map f none = refl
  gone-map f (some a) = refl

  kept-image :
      IsMonotone engine
      → (before : ℕ) (table : Dict FeedRow)
      → select
          (λ (e : String × Row).
            not (not e.1.is_sample && text_lt e.1.last_seen (iso_at engine before)))
          (map_dict (row_image engine) table)
        ≡ map_dict (row_image engine) (
            select
              (λ (e : String × FeedRow). not (not e.1.is_sample && ltb e.1.last_seen before))
              table)
  kept-image mono before =
      select-map_dict (row_image engine) _ _
        λ k r. ap (λ b. not (not r.is_sample && b)) (text_lt-iso_at mono r.last_seen before)

  marks-image :
      IsMonotone engine
      → (before : ℕ) (kept : Dict FeedRow) (marks : Dict ℕ)
      → select
          (λ (e : String × String). not (
            text_lt e.1 (iso_at engine before)
            && gone (lookup e.0 (map_dict (row_image engine) kept))))
          (map_dict (iso_at engine) marks)
        ≡ map_dict
            (iso_at engine)
            (select (λ (e : String × ℕ). not (ltb e.1 before && gone (lookup e.0 kept))) marks)
  marks-image mono before kept = select-map_dict (iso_at engine) _ _ λ k t.
      rw
        (
          text_lt-iso_at mono t before,
          lookup-map_dict (row_image engine) k kept,
          gone-map (row_image engine) (lookup k kept),
        )
        refl

  pub prune_items-image :
      IsMonotone engine
      → (before : ℕ) (db : Archive)
      → LiteTables.prune_items (iso_at engine before) (image engine db)
        ≡ (image engine (Upkeep.prune_items before db).0, (Upkeep.prune_items before db).1)
  unfolding LiteTables.prune_items Upkeep.prune_items
  prune_items-image mono before db =
      let kept =
        select (λ (e : String × FeedRow). not (not e.1.is_sample && ltb e.1.last_seen before))
          db.feed_items in
      rw
        (
          LiteTables.prune_items,
          kept-image mono before db.feed_items,
          marks-image mono before kept db.alerted_items,
          length-map_dict (row_image engine) db.feed_items,
          length-map_dict (row_image engine) kept,
        )
        refl
