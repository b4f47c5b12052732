-- ===== src/Postgres/Upkeep.antt =====
-- The alerts, the fetch states and the retention in the Postgres adapter (app/postgres_store.py).
use sredevopsorg_sec_feed.Prelude.{
  ℕ, ◌-◌, String, Bool, true, false, ◌&&◌, not, Option, none, some, List, [], ◌∷◌, map, length,
  take, select, ltb, if◌then◌else◌,
}
use sredevopsorg_sec_feed.Prelude.Dict.{Dict, lookup, insert}
use sredevopsorg_sec_feed.Prelude.Sort.{sort}
use sredevopsorg_sec_feed.Models.{DateTime, utc, ItemDict, Iso, map_option}
use sredevopsorg_sec_feed.Store.{SourceState}
use sredevopsorg_sec_feed.Store.Tables.{rows_of, coalesce}
use sredevopsorg_sec_feed.Postgres.{FeedRow, Fetch, Archive, Matching}
use sredevopsorg_sec_feed.Postgres.Feed.{as_read, entry_to_item, hide_sample, published_later}

abbrev pub was_alerted : Archive → String → Bool
was_alerted db k = elim (lookup k db.alerted_items) [ none ↦ false | some t ↦ true ]

-- `ORDER BY f.published DESC NULLS LAST`
abbrev pub later_published : FeedRow → FeedRow → Bool
later_published a b = published_later a.published b.published

unfoldable pub unalerted_entries : Matching → ℕ → Archive → List FeedRow
unfolding hide_sample
unalerted_entries sql limit db = take limit (
    sort later_published (
      sql.scan (
        select
          (λ (r : FeedRow). r.urgent && not (was_alerted db r.id) && hide_sample db.feed_items r)
          (rows_of db.feed_items))))

unfoldable pub unalerted_urgent_items : Matching → Iso → DateTime → ℕ → Archive → List ItemDict
unalerted_urgent_items sql iso now limit db =
    map (entry_to_item sql iso now) (unalerted_entries sql limit db)

-- `ON CONFLICT DO NOTHING`, for one id.
unfoldable pub insert_mark : ℕ → String → Dict ℕ → Dict ℕ
insert_mark now k table = elim (lookup k table) [ none ↦ insert k now table | some t ↦ table ]

unfoldable pub insert_marks : ℕ → List String → Dict ℕ → Dict ℕ
unfolding insert_mark
insert_marks now [] table = table
insert_marks now (k ∷ ids) table = insert_marks now ids (insert_mark now k table)

unfoldable pub mark_alerted : ℕ → List String → Archive → Archive
unfolding insert_marks
mark_alerted now ids db = record db { alerted_items = insert_marks now ids db.alerted_items }

-- The values of one fetch attempt.
unfoldable pub fetch_of :
    ℕ
    → Option String
    → Option String
    → Option DateTime
    → Bool
    → Option String
    → Option (List ItemDict)
    → Fetch
fetch_of now etag last_modified fetched_at ok error payload = record {
  etag = etag;
  last_modified = last_modified;
  last_fetched_at = coalesce (map_option utc fetched_at) (some now);
  last_ok_at = if ok then some now else none;
  last_error = error;
  last_payload = payload;
}

unfoldable pub set_source_state : String → Fetch → Archive → Archive
set_source_state source_id new db = record db {
  source_state = elim (lookup source_id db.source_state) [
    | none ↦ insert source_id new db.source_state
    | some old ↦
        insert source_id
          (record {
            etag = coalesce new.etag old.etag;
            last_modified = coalesce new.last_modified old.last_modified;
            last_fetched_at = new.last_fetched_at;
            last_ok_at = coalesce new.last_ok_at old.last_ok_at;
            last_error = new.last_error;
            last_payload = coalesce new.last_payload old.last_payload;
          })
          db.source_state
  ];
}

-- The dictionary of a row: a moment is the ISO text of what the driver gives.
abbrev pub state_of : Matching → Iso → Fetch → SourceState
state_of sql iso s = record {
  etag = s.etag;
  last_modified = s.last_modified;
  last_fetched_at = map_option (λ t. iso.isoformat (as_read sql t)) s.last_fetched_at;
  last_ok_at = map_option (λ t. iso.isoformat (as_read sql t)) s.last_ok_at;
  last_error = s.last_error;
  last_payload = s.last_payload;
}

unfoldable pub get_source_state : Matching → Iso → String → Archive → Option SourceState
get_source_state sql iso source_id db =
    map_option (state_of sql iso) (lookup source_id db.source_state)

-- Both deletions are one transaction; the second sees the first.
unfoldable pub prune_items : ℕ → Archive → Archive × ℕ
prune_items before db =
    let kept =
      select (λ (e : String × FeedRow). not (not e.1.is_sample && ltb e.1.last_seen before))
        db.feed_items in
    let marks =
      select
        (λ (e : String × ℕ).
          not (ltb e.1 before && elim (lookup e.0 kept) [ none ↦ true | some r ↦ false ]))
        db.alerted_items in
    (record db { feed_items = kept; alerted_items = marks }, length db.feed_items - length kept)
