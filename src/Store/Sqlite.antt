-- ===== src/Store/Sqlite.antt =====
-- The operations of the SQLite adapter on items (app/sqlite_store.py).
use sredevopsorg_sec_feed.Prelude.{
  ℕ, String, ◌<>◌, Bool, true, ◌&&◌, ◌||◌, Option, none, some, List, map, length, take, select, ltb,
  if◌then◌else◌,
}
use sredevopsorg_sec_feed.Prelude.Sort.{sort, sort_insert}
use sredevopsorg_sec_feed.Prelude.Sets.{uniq}
use sredevopsorg_sec_feed.Prelude.Texts.{is_blank, text_or, text_leb, replace_char}
use sredevopsorg_sec_feed.Models.{
  DateTime, ensure_aware, FeedItem, ItemDict, map_option, item_to_dict,
}
use sredevopsorg_sec_feed.Models.Samples.{sample_items}
use sredevopsorg_sec_feed.Store.{Row, SourceState, Db, Engine}
use sredevopsorg_sec_feed.Store.Tables.{
  rows_of, upsert_rows, live_count, feed_order, severity_clause, live_clause, unalerted_rows,
  coalesce,
}

-- `sorted(item.tags)`
unfoldable pub sorted_texts : List String → List String
unfolding sort sort_insert
sorted_texts = sort text_leb

-- `_escape_like`
unfoldable pub escape_like : String → String
escape_like value = replace_char "_" "\\_" (replace_char "%" "\\%" (replace_char "\\" "\\\\" value))

module _ (engine : Engine) where
  abbrev pub iso_text : DateTime → String
  iso_text t = engine.iso.isoformat (ensure_aware t)

  -- The tuple of values for one item; `now` is `_now_iso()`.
  unfoldable pub row_of : String → FeedItem → Row
  unfolding sorted_texts
  row_of now item = record {
    id = item.id;
    title = item.title;
    summary = item.summary;
    url = item.url;
    source = item.source;
    source_url = item.source_url;
    published = map_option iso_text item.published;
    tags = engine.dumps (sorted_texts item.tags);
    cves = engine.dumps item.cves;
    severity = item.severity;
    urgent = item.urgent;
    kev = item.kev;
    epss_score = item.epss_score;
    is_sample = item.is_sample;
    osv_affected = engine.dumps item.osv_affected;
    osv_fixed = engine.dumps item.osv_fixed;
    osv_severity = item.osv_severity;
    patch_status = item.patch_status;
    first_seen = now;
    last_seen = now;
  }

  unfoldable pub upsert_items : String → List FeedItem → Db → Db × ℕ
  unfolding row_of upsert_rows
  upsert_items now items db =
      (record db { feed_items = upsert_rows (map (row_of now) items) db.feed_items }, length items)

  -- `if tag:` and `if severity:`, each an optional clause; an empty text is no filter.
  unfoldable pub tag_clause : Option String → Row → Bool
  unfolding escape_like
  tag_clause none row = true
  tag_clause (some tag) row =
      if is_blank tag then true else engine.like ("%\"" <> escape_like tag <> "\"%") row.tags

  unfoldable pub text_clause : String → Row → Bool
  unfolding escape_like
  text_clause q row =
      let pattern = "%" <> escape_like q <> "%" in
      engine.like pattern row.title
      || engine.like pattern row.summary
      || engine.like pattern row.source
      || engine.like pattern row.cves

  unfoldable pub row_to_item : DateTime → Row → ItemDict
  unfolding uniq
  row_to_item now row =
      let published : Option DateTime = elim row.published [
        | none ↦ none
        | some text ↦ if is_blank text then none else engine.iso.fromisoformat text
      ] in
      item_to_dict engine.iso
        (record {
          id = row.id;
          title = row.title;
          summary = row.summary;
          url = row.url;
          source = row.source;
          source_url = row.source_url;
          published = published;
          tags = uniq (engine.loads (text_or row.tags "[]"));
          cves = engine.loads (text_or row.cves "[]");
          severity = text_or row.severity "unknown";
          urgent = row.urgent;
          kev = row.kev;
          epss_score = row.epss_score;
          is_sample = row.is_sample;
          osv_affected = engine.loads (text_or row.osv_affected "[]");
          osv_fixed = engine.loads (text_or row.osv_fixed "[]");
          osv_severity = row.osv_severity;
          patch_status = text_or row.patch_status "unknown";
        })
        now

  -- The rows of `query_feed`: the live rows are counted in one state and the feed is selected in
  -- another.
  unfoldable pub query_rows : Option String → Option String → ℕ → Db → Db → List Row
  unfolding live_count live_clause tag_clause severity_clause
  query_rows tag severity limit counted db = take limit (
      sort feed_order (
        select
          (λ (r : Row).
            live_clause (live_count counted) r && tag_clause tag r && severity_clause severity r)
          (rows_of db.feed_items)))

  unfoldable pub query_feed : DateTime → Option String → Option String → ℕ → Db → Db → List ItemDict
  query_feed now tag severity limit counted db =
      map (row_to_item now) (query_rows tag severity limit counted db)

  unfoldable pub search_rows : String → Option String → Option String → ℕ → Db → Db → List Row
  unfolding live_count live_clause tag_clause severity_clause text_clause
  search_rows q tag severity limit counted db =
      if is_blank q
      then query_rows tag severity limit counted db
      else take limit (
          sort feed_order (
            select
              (λ (r : Row).
                live_clause (live_count counted) r
                && text_clause q r
                && tag_clause tag r
                && severity_clause severity r)
              (rows_of db.feed_items)))

  unfoldable pub search_feed :
      DateTime → String → Option String → Option String → ℕ → Db → Db → List ItemDict
  search_feed now q tag severity limit counted db =
      map (row_to_item now) (search_rows q tag severity limit counted db)

  -- `hash` and `moment` are those of `_sample_items`.
  unfoldable pub seed_if_empty : (String → String) → ℕ → String → Db → Db × ℕ
  unfolding upsert_items
  seed_if_empty hash moment now db =
      if ltb 0 (length db.feed_items)
      then (db, 0)
      else upsert_items now (sample_items hash moment) db

  unfoldable pub unalerted_urgent_items : DateTime → ℕ → Db → List ItemDict
  unalerted_urgent_items now limit db = map (row_to_item now) (unalerted_rows limit db)

  -- The values of one fetch attempt; `ok` says whether it succeeded.
  unfoldable pub attempt_row :
      String
      → Option String
      → Option String
      → Option DateTime
      → Bool
      → Option String
      → Option (List ItemDict)
      → SourceState
  attempt_row now etag last_modified fetched_at ok error payload = record {
    etag = etag;
    last_modified = last_modified;
    last_fetched_at = coalesce (map_option iso_text fetched_at) (some now);
    last_ok_at = if ok then some now else none;
    last_error = error;
    last_payload = payload;
  }
