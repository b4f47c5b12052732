-- ===== src/Postgres/Stats.antt =====
-- The counts of the archive in Postgres (`stats` of app/postgres_store.py), and that the adapters
-- agree on them.
use sredevopsorg_sec_feed.Prelude.{
  ℕ, ◌-◌, String, ◌≡◌, refl, ap, ◌∙◌, inl, inr, Bool, ◌&&◌, ◌||◌, ◌==◌, not, List, [], ◌∷◌, map,
  length, length-map, select, leb, arith, Bool-cases, Option-cases,
}
use sredevopsorg_sec_feed.Prelude.Dict.{Dict}
use sredevopsorg_sec_feed.Prelude.Texts.{text_leb}
use sredevopsorg_sec_feed.Models.{Iso, map_option}
use sredevopsorg_sec_feed.Store.{Row, Engine}
use sredevopsorg_sec_feed.Store.Tables.{rows_of}
use sredevopsorg_sec_feed.Store.Stats.{
  Stats, count_all, count_tags, how_many, is_known, has_any, greatest, severity_column,
  last_seen_column,
}
use sredevopsorg_sec_feed.Store.Stats as Lite
use sredevopsorg_sec_feed.Postgres.{FeedRow, Archive, Matching}
use sredevopsorg_sec_feed.Postgres.Image.{row_image, image, iso_at, IsMonotone, HasUtc}
use sredevopsorg_sec_feed.Postgres.Feed.{as_read}
use sredevopsorg_sec_feed.Postgres.Order.{select-map, rows-image}
use sredevopsorg_sec_feed.Postgres.Reads.{IsJson, loads_or}

-- `jsonb_array_elements_text(tags)`, row by row.
unfoldable pub count_row_tags : List FeedRow → Dict ℕ → Dict ℕ
unfolding count_all
count_row_tags [] d = d
count_row_tags (r ∷ rows) d = count_row_tags rows (count_all r.tags d)

abbrev pub severity_values : List FeedRow → List String
severity_values [] = []
severity_values (r ∷ rows) = r.severity ∷ severity_values rows

abbrev pub last_seen_values : List FeedRow → List ℕ
last_seen_values [] = []
last_seen_values (r ∷ rows) = r.last_seen ∷ last_seen_values rows

unfoldable pub stats : Matching → Iso → Archive → Stats
unfolding count_all count_row_tags
stats sql iso db =
    let rows = rows_of db.feed_items in
    let live = how_many (λ (r : FeedRow). not r.is_sample) rows in
    record {
      total = length rows;
      live = live;
      sample = length rows - live;
      urgent = how_many (λ (r : FeedRow). r.urgent) rows;
      by_severity = count_all (severity_values rows) [];
      by_tag = count_row_tags rows [];
      kev = how_many (λ (r : FeedRow). r.kev && not r.is_sample) rows;
      epss = how_many (λ (r : FeedRow). is_known r.epss_score && not r.is_sample) rows;
      osv = how_many (λ (r : FeedRow). not r.is_sample && has_any r.osv_affected) rows;
      latest_seen =
          map_option (λ t. iso.isoformat (as_read sql t)) (greatest leb (last_seen_values rows));
    }

module _ (engine : Engine) where
  how_many-map :
      (p : FeedRow → Bool) (q : Row → Bool)
      → ((r : FeedRow) → q (row_image engine r) ≡ p r)
      → (rows : List FeedRow) → how_many q (map (row_image engine) rows) ≡ how_many p rows
  how_many-map p q same rows =
      ap length (select-map (row_image engine) p q same rows)
      ∙ length-map (row_image engine) (select p rows)

  severity_column-map :
      (rows : List FeedRow) → severity_column (map (row_image engine) rows) ≡ severity_values rows
  severity_column-map [] = refl
  severity_column-map (r ∷ rows) = ap (◌∷◌ r.severity) (severity_column-map rows)

  greatest-map :
      IsMonotone engine
      → (rows : List FeedRow)
      → greatest text_leb (last_seen_column (map (row_image engine) rows))
        ≡ map_option (iso_at engine) (greatest leb (last_seen_values rows))
  greatest-map mono [] = refl
  greatest-map mono (r ∷ rows) = elim (Option-cases (greatest leb (last_seen_values rows))) [
    | inl e ↦ rw (greatest-map mono rows, e) refl
    | inr (t, e) ↦ elim (Bool-cases (leb r.last_seen t)) [
      | inl up ↦ rw (greatest-map mono rows, e, mono r.last_seen t, up) refl
      | inr down ↦ rw (greatest-map mono rows, e, mono r.last_seen t, down) refl
    ]
  ]

  module _ (json : IsJson engine) where
    osv-same :
        (r : FeedRow)
        → (not r.is_sample
            && not (engine.dumps r.osv_affected == "[]" || engine.dumps r.osv_affected == ""))
          ≡ (not r.is_sample && has_any r.osv_affected)
    osv-same r = rw (json.empty r.osv_affected) (ground arith)

    count_tags-map :
        (rows : List FeedRow) (d : Dict ℕ)
        → count_tags engine (map (row_image engine) rows) d ≡ count_row_tags rows d
    unfolding count_tags count_row_tags
    count_tags-map [] d = refl
    count_tags-map (r ∷ rows) d =
        rw (count_tags, loads_or engine json r.tags) (count_tags-map rows (count_all r.tags d))

    pub stats-image :
        IsMonotone engine
        → (sql : Matching) → HasUtc sql
        → (db : Archive) → Lite.stats engine (image engine db) ≡ stats sql engine.iso db
    unfolding Lite.stats stats
    stats-image mono sql utc db =
        let rows = rows_of db.feed_items in
        rw
          (
            utc,
            rows-image engine db,
            length-map (row_image engine) rows,
            how_many-map (λ (r : FeedRow). not r.is_sample) (λ (r : Row). not r.is_sample)
                (λ r. refl) rows,
            how_many-map (λ (r : FeedRow). r.urgent) (λ (r : Row). r.urgent) (λ r. refl) rows,
            how_many-map (λ (r : FeedRow). r.kev && not r.is_sample)
                (λ (r : Row). r.kev && not r.is_sample) (λ r. refl) rows,
            how_many-map (λ (r : FeedRow). is_known r.epss_score && not r.is_sample)
                (λ (r : Row). is_known r.epss_score && not r.is_sample) (λ r. refl) rows,
            how_many-map (λ (r : FeedRow). not r.is_sample && has_any r.osv_affected)
                (λ (r : Row).
                  not r.is_sample && not (r.osv_affected == "[]" || r.osv_affected == ""))
                osv-same rows,
            severity_column-map rows,
            greatest-map mono rows,
            count_tags-map rows [],
          )
          refl
