-- ===== src/Postgres/Writes.antt =====
-- The writes of the two adapters agree, on an archive and its image.
use sredevopsorg_sec_feed.Prelude.{
  ℕ, String, ◌≡◌, refl, ap, inl, inr, Option, none, some, List, [], ◌∷◌, map, Option-cases,
}
use sredevopsorg_sec_feed.Prelude.Dict.{Dict, lookup, insert}
use sredevopsorg_sec_feed.Prelude.Texts.{text_or}
use sredevopsorg_sec_feed.Models.{DateTime, naive, aware, utc, ensure_aware, FeedItem, map_option}
use sredevopsorg_sec_feed.Store.{SourceState, Engine}
use sredevopsorg_sec_feed.Store.Tables.{
  upsert_row, upsert_rows, mark_one, mark_all, coalesce, text_lt,
}
use sredevopsorg_sec_feed.Store.Sqlite.{row_of, iso_text, attempt_row}
use sredevopsorg_sec_feed.Store.Tables as LiteTables
use sredevopsorg_sec_feed.Store.Sqlite as Lite
use sredevopsorg_sec_feed.Postgres.{FeedRow, Fetch, Archive}
use sredevopsorg_sec_feed.Postgres.Feed as Feed
use sredevopsorg_sec_feed.Postgres.Upkeep as Upkeep
use sredevopsorg_sec_feed.Postgres.Feed.{entry_of, upsert_entry, upsert_entries}
use sredevopsorg_sec_feed.Postgres.Upkeep.{insert_mark, insert_marks, fetch_of}
use sredevopsorg_sec_feed.Postgres.Image.{
  map_dict, lookup-map_dict, insert-map_dict, iso_at, row_image, fetch_image, image,
}

pub text_or_blank : (s : String) → s ≡ text_or s ""
text_or_blank String.[] = refl
text_or_blank (String.◌∷◌ c s) = refl

module _ (engine : Engine) where
  upsert_row-row_image :
      (r : FeedRow) (table : Dict FeedRow)
      → upsert_row (row_image engine r) (map_dict (row_image engine) table)
        ≡ map_dict (row_image engine) (upsert_entry r table)
  unfolding upsert_row upsert_entry
  upsert_row-row_image r table = elim (Option-cases (lookup r.id table)) [
    | inl e ↦
        rw (upsert_row, upsert_entry, lookup-map_dict (row_image engine) r.id table, e)
          (insert-map_dict (row_image engine) r.id r table)
    | inr (old, e) ↦
        rw (upsert_row, upsert_entry, lookup-map_dict (row_image engine) r.id table, e)
          (insert-map_dict (row_image engine) r.id (record r { first_seen = old.first_seen }) table)
  ]

  pub iso_text-utc :
      (p : Option DateTime)
      → map_option (iso_text engine) p ≡ map_option (iso_at engine) (map_option utc p)
  unfolding ensure_aware
  iso_text-utc none = refl
  iso_text-utc (some (naive wall)) = refl
  iso_text-utc (some (aware moment offset)) = refl

  row_of-entry_of :
      (now : ℕ) (item : FeedItem)
      → row_of engine (iso_at engine now) item ≡ row_image engine (entry_of now item)
  unfolding row_of entry_of
  row_of-entry_of now item =
      rw
        (
          iso_text-utc item.published,
          ← text_or_blank item.summary,
          ← text_or_blank item.url,
          ← text_or_blank item.source,
          ← text_or_blank item.source_url,
        )
        refl

  upsert_rows-map :
      (now : ℕ) (items : List FeedItem) (table : Dict FeedRow)
      → upsert_rows
          (map (row_of engine (iso_at engine now)) items)
          (map_dict (row_image engine) table)
        ≡ map_dict (row_image engine) (upsert_entries (map (entry_of now) items) table)
  unfolding upsert_rows upsert_entries
  upsert_rows-map now [] table = refl
  upsert_rows-map now (item ∷ items) table =
      rw (row_of-entry_of now item, upsert_row-row_image (entry_of now item) table)
        (upsert_rows-map now items (upsert_entry (entry_of now item) table))

  pub upsert_items-image :
      (now : ℕ) (items : List FeedItem) (db : Archive)
      → Lite.upsert_items engine (iso_at engine now) items (image engine db)
        ≡ (image engine (Feed.upsert_items now items db).0, (Feed.upsert_items now items db).1)
  unfolding Lite.upsert_items Feed.upsert_items
  upsert_items-image now [] db = refl
  upsert_items-image now (item ∷ items) db =
      rw (upsert_rows-map now (item ∷ items) db.feed_items) refl

  pub mark_all-map_dict :
      (now : ℕ) (ids : List String) (table : Dict ℕ)
      → mark_all (iso_at engine now) ids (map_dict (iso_at engine) table)
        ≡ map_dict (iso_at engine) (insert_marks now ids table)
  unfolding mark_all mark_one insert_marks insert_mark
  mark_all-map_dict now [] table = refl
  mark_all-map_dict now (k ∷ ids) table = elim (Option-cases (lookup k table)) [
    | inl e ↦
        rw
          (
            mark_all,
            insert_marks,
            mark_one,
            insert_mark,
            lookup-map_dict (iso_at engine) k table,
            e,
            insert-map_dict (iso_at engine) k now table,
          )
          (mark_all-map_dict now ids (insert k now table))
    | inr (t, e) ↦
        rw
          (
            mark_all,
            insert_marks,
            mark_one,
            insert_mark,
            lookup-map_dict (iso_at engine) k table,
            e,
          )
          (mark_all-map_dict now ids table)
  ]

  map-coalesce {ℓ κ} :
      {A : Type ℓ} {B : Type κ} (f : A → B) (new old : Option A)
      → coalesce (map_option f new) (map_option f old) ≡ map_option f (coalesce new old)
  map-coalesce f none old = refl
  map-coalesce f (some a) old = refl

  pub set_source_state-image :
      (source_id : String) (new : Fetch) (db : Archive)
      → LiteTables.set_source_state source_id (fetch_image engine new) (image engine db)
        ≡ image engine (Upkeep.set_source_state source_id new db)
  unfolding LiteTables.set_source_state Upkeep.set_source_state
  set_source_state-image source_id new db = elim (Option-cases (lookup source_id db.source_state)) [
    | inl e ↦
        rw
          (
            LiteTables.set_source_state,
            Upkeep.set_source_state,
            lookup-map_dict (fetch_image engine) source_id db.source_state,
            e,
            insert-map_dict (fetch_image engine) source_id new db.source_state,
          )
          refl
    | inr (old, e) ↦
        let kept : Fetch = record {
          etag = coalesce new.etag old.etag;
          last_modified = coalesce new.last_modified old.last_modified;
          last_fetched_at = new.last_fetched_at;
          last_ok_at = coalesce new.last_ok_at old.last_ok_at;
          last_error = new.last_error;
          last_payload = coalesce new.last_payload old.last_payload;
        } in
        rw
          (
            LiteTables.set_source_state,
            Upkeep.set_source_state,
            lookup-map_dict (fetch_image engine) source_id db.source_state,
            e,
            map-coalesce (iso_at engine) new.last_ok_at old.last_ok_at,
          )
          (ap (λ (t : Dict SourceState). record (image engine db) { source_state = t })
            (insert-map_dict (fetch_image engine) source_id kept db.source_state))
  ]
