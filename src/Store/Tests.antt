-- ===== src/Store/Tests.antt =====
-- The SQLite adapter on a small archive, and the theorems on it.
use sredevopsorg_sec_feed.Prelude.{
  if◌then◌else◌, ◌≡◌, refl, true, not, ◌&&◌, none, some, List, [], ◌∷◌, map, if◌then◌else◌,
}
use sredevopsorg_sec_feed.Prelude.Dict.{lookup, insert}
use sredevopsorg_sec_feed.Prelude.Sort.{sort, sort_insert}
use sredevopsorg_sec_feed.Fetcher.Inputs.{low_item, high_item, other_item}
use sredevopsorg_sec_feed.Models.{FeedItem}
use sredevopsorg_sec_feed.Store.{SourceState, Db, Engine}
use sredevopsorg_sec_feed.Store.Tables.{
  empty_db, feed_order, text_lt, unalerted_rows, mark_alerted, get_source_state, set_source_state,
  prune_items,
}
use sredevopsorg_sec_feed.Store.Sqlite.{row_of, upsert_items, query_rows}
use sredevopsorg_sec_feed.Store.Writes.{
  IsTable, overwritten, rows_with_id, lookup-upsert_items, upsert_items-IsTable,
}
use sredevopsorg_sec_feed.Store.Prune.{lookup-prune_items}

program : Unit {0}
unfolding empty_db upsert_items lookup insert query_rows unalerted_rows mark_alerted
    get_source_state set_source_state prune_items feed_order sort sort_insert
program = tt

-- An engine whose texts say as little as possible; `LIKE` always matches.
abbrev engine : Engine
engine = record {
  iso = record { isoformat = λ d. "T"; fromisoformat = λ s. none };
  dumps = λ l. "[]";
  loads = λ s. [];
  like = λ p s. true;
}

abbrev items : List FeedItem
items = low_item ∷ other_item ∷ []

abbrev archive : Db
unfolding program
archive = (upsert_items engine "B" items empty_db).0

later : Db
unfolding program
later = (upsert_items engine "D" (high_item ∷ []) archive).0

merged_row :
    lookup "runc" later.feed_items
    ≡ some (record (row_of engine "D" high_item) { first_seen = "B" })
unfolding program later
merged_row = refl

empty-IsTable : IsTable empty_db.feed_items
unfolding program
empty-IsTable = record { distinct = tt; keyed = tt }

archive-IsTable : IsTable archive.feed_items
unfolding archive upsert_items
archive-IsTable = upsert_items-IsTable engine "B" items empty_db empty-IsTable

lookup-upsert_items_example :
    (lookup "runc" (upsert_items engine "B" items empty_db).0.feed_items
      ≡ overwritten
          (lookup "runc" empty_db.feed_items)
          (rows_with_id "runc" (map (row_of engine "B") items)))
    × ((upsert_items engine "B" items empty_db).0.alerted_items ≡ empty_db.alerted_items)
    × ((upsert_items engine "B" items empty_db).0.source_state ≡ empty_db.source_state)
lookup-upsert_items_example = lookup-upsert_items engine "B" items empty_db "runc"

lookup-prune_items_example :
    lookup "runc" (prune_items "C" archive).0.feed_items ≡ elim (lookup "runc" archive.feed_items) [
      | none ↦ none
      | some r ↦ if not r.is_sample && text_lt r.last_seen "C" then none else some r
    ]
lookup-prune_items_example = lookup-prune_items "C" archive archive-IsTable "runc"

pruned : lookup "runc" (prune_items "C" archive).0.feed_items ≡ none
unfolding program
pruned = refl

abbrev attempt : SourceState
attempt = record {
  etag = some "1";
  last_modified = none;
  last_fetched_at = some "T";
  last_ok_at = none;
  last_error = some "timeout";
  last_payload = none;
}
