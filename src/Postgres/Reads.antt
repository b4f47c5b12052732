-- ===== src/Postgres/Reads.antt =====
-- The reads of the two adapters agree, on an archive and its image.
use sredevopsorg_sec_feed.Store.Stats.{has_any}
use sredevopsorg_sec_feed.Prelude.{
  ◌==◌, ◌||◌, ℕ, String, ◌≡◌, refl, inl, inr, Bool, false, not, Option, none, some, List, map, take,
  select, Bool-cases, Option-cases,
}
use sredevopsorg_sec_feed.Prelude.Dict.{lookup}
use sredevopsorg_sec_feed.Prelude.Sort.{sort}
use sredevopsorg_sec_feed.Prelude.Texts.{is_blank, text_or}
use sredevopsorg_sec_feed.Models.{DateTime, ensure_aware, item_to_dict}
use sredevopsorg_sec_feed.Models.RoundTrip.{IsLawful}
use sredevopsorg_sec_feed.Store.{Row, Engine}
use sredevopsorg_sec_feed.Store.Tables.{
  rows_of, severity_clause, feed_order, published_order, is_marked, unalerted_rows,
}
use sredevopsorg_sec_feed.Store.Sqlite.{
  tag_clause, text_clause, query_rows, search_rows, row_to_item,
}
use sredevopsorg_sec_feed.Postgres.{FeedRow, Archive, Matching}
use sredevopsorg_sec_feed.Postgres.Feed.{
  has_tag, has_severity, matches, entry_order, query_entries, search_entries, entry_to_item,
}
use sredevopsorg_sec_feed.Postgres.Upkeep.{later_published, was_alerted, unalerted_entries}
use sredevopsorg_sec_feed.Postgres.Image.{
  row_image, image, iso_at, lookup-map_dict, IsMonotone, in_table_order,
}
use sredevopsorg_sec_feed.Postgres.Order.{
  select-map, take-map, sort-map, feed_order-row_image, published_order-row_image, rows-image,
  live_clause-hide_sample,
}
use sredevopsorg_sec_feed.Postgres.Writes.{text_or_blank}

-- The JSON text of a list of texts is not empty, reads back, and is "[]" for the empty list alone.
pub record IsJson (engine : Engine) : Type 0 where
  pub filled : (l : List String) → is_blank (engine.dumps l) ≡ false
  pub reads_back : (l : List String) → engine.loads (engine.dumps l) ≡ l
  pub empty : (l : List String) → (engine.dumps l == "[]" || engine.dumps l == "") ≡ not (has_any l)

module _ (engine : Engine) where
  -- SQLite's LIKE on the JSON text finds a tag exactly where Postgres' containment does.
  abbrev pub SameTag : Option String → Type 0
  SameTag tag = (r : FeedRow) → tag_clause engine tag (row_image engine r) ≡ has_tag tag r

  -- LIKE on the columns of SQLite finds a text exactly where ILIKE on those of Postgres does.
  abbrev pub SameText : Matching → String → Type 0
  SameText sql q = (r : FeedRow) → text_clause engine q (row_image engine r) ≡ matches sql q r

  severity_clause-has_severity :
      (severity : Option String) (r : FeedRow)
      → severity_clause severity (row_image engine r) ≡ has_severity severity r
  unfolding severity_clause has_severity
  severity_clause-has_severity none r = refl
  severity_clause-has_severity (some s) r = refl

  -- A selection in an order, cut at the limit, of the image of an archive.
  picked :
      (p : FeedRow → Bool) (q : Row → Bool) (before : FeedRow → FeedRow → Bool)
      (before' : Row → Row → Bool)
      → ((r : FeedRow) → q (row_image engine r) ≡ p r)
      → ((a b : FeedRow) → before' (row_image engine a) (row_image engine b) ≡ before a b)
      → (limit : ℕ) (db : Archive)
      → take limit (sort before' (select q (rows_of (image engine db).feed_items)))
        ≡ map (row_image engine) (take limit (sort before (select p (rows_of db.feed_items))))
  picked p q before before' same order limit db =
      let f = row_image engine in
      rw
        (
          rows-image engine db,
          select-map f p q same (rows_of db.feed_items),
          sort-map f before before' order (select p (rows_of db.feed_items)),
        )
        (take-map f limit (sort before (select p (rows_of db.feed_items))))

  module _ (mono : IsMonotone engine) where
    pub query_rows-image :
        (sql : Matching) (tag severity : Option String) (limit : ℕ) (db : Archive)
        → SameTag tag
        → query_rows engine tag severity limit (image engine db) (image engine db)
          ≡ map (row_image engine) (query_entries (in_table_order sql) tag severity limit db)
    unfolding query_rows query_entries
    query_rows-image sql tag severity limit db same =
        picked _ _ entry_order feed_order
          (λ r.
            rw
              (live_clause-hide_sample engine db r, same r, severity_clause-has_severity severity r)
              refl)
          (feed_order-row_image engine mono) limit db

    pub search_rows-image :
        (sql : Matching) (q : String) (tag severity : Option String) (limit : ℕ) (db : Archive)
        → SameTag tag
        → SameText sql q
        → search_rows engine q tag severity limit (image engine db) (image engine db)
          ≡ map (row_image engine) (search_entries (in_table_order sql) q tag severity limit db)
    unfolding search_rows search_entries
    search_rows-image sql q tag severity limit db same text = elim (Bool-cases (is_blank q)) [
      | inl e ↦ rw e (query_rows-image sql tag severity limit db same)
      | inr e ↦ rw e (
          picked _ _ entry_order feed_order
            (λ r.
              rw
                (
                  live_clause-hide_sample engine db r,
                  text r,
                  same r,
                  severity_clause-has_severity severity r,
                )
                refl)
            (feed_order-row_image engine mono) limit db)
    ]

    is_marked-image : (db : Archive) (k : String) → is_marked (image engine db) k ≡ was_alerted db k
    is_marked-image db k = elim (Option-cases (lookup k db.alerted_items)) [
      | inl e ↦
          rw (is_marked, was_alerted, lookup-map_dict (iso_at engine) k db.alerted_items, e) refl
      | inr (t, e) ↦
          rw (is_marked, was_alerted, lookup-map_dict (iso_at engine) k db.alerted_items, e) refl
    ]

    pub unalerted_rows-image :
        (sql : Matching) (limit : ℕ) (db : Archive)
        → unalerted_rows limit (image engine db)
          ≡ map (row_image engine) (unalerted_entries (in_table_order sql) limit db)
    unfolding unalerted_rows unalerted_entries
    unalerted_rows-image sql limit db =
        picked _ _ later_published published_order
          (λ r. rw (is_marked-image db r.id, live_clause-hide_sample engine db r) refl)
          (published_order-row_image engine mono) limit db

  module _ (json : IsJson engine) where
    pub loads_or : (l : List String) → engine.loads (text_or (engine.dumps l) "[]") ≡ l
    loads_or l = rw (json.filled l) (json.reads_back l)

    module _ (law : IsLawful engine.iso) where
      pub row_to_item-row_image :
          (sql : Matching) (now : DateTime) (r : FeedRow)
          → row_to_item engine now (row_image engine r) ≡ entry_to_item sql engine.iso now r
      unfolding row_to_item entry_to_item item_to_dict ensure_aware
      row_to_item-row_image sql now r = elim (Option-cases r.published) [
        | inl e ↦
            rw
              (
                e,
                loads_or r.tags,
                loads_or r.cves,
                loads_or r.osv_affected,
                loads_or r.osv_fixed,
                ← text_or_blank r.summary,
                ← text_or_blank r.url,
                ← text_or_blank r.source,
                ← text_or_blank r.source_url,
              )
              refl
        | inr (t, e) ↦
            rw
              (
                e,
                law.filled t,
                law.reads_back t,
                loads_or r.tags,
                loads_or r.cves,
                loads_or r.osv_affected,
                loads_or r.osv_fixed,
                ← text_or_blank r.summary,
                ← text_or_blank r.url,
                ← text_or_blank r.source,
                ← text_or_blank r.source_url,
              )
              refl
      ]
