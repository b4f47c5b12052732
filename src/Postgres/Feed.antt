-- ===== src/Postgres/Feed.antt =====
-- The operations of the Postgres adapter on items and fetch states (app/postgres_store.py).
use sredevopsorg_sec_feed.Prelude.{
  ℕ, String, ◌<>◌, Bool, true, false, ◌&&◌, ◌||◌, not, Option, none, some, List, [], ◌∷◌, map,
  length, take, select, any, member, ltb, leb, if◌then◌else◌, ◌==◌,
}
use sredevopsorg_sec_feed.Prelude.Dict.{Dict, lookup, insert}
use sredevopsorg_sec_feed.Prelude.Sort.{sort}
use sredevopsorg_sec_feed.Prelude.Sets.{uniq}
use sredevopsorg_sec_feed.Prelude.Texts.{is_blank, text_or}
use sredevopsorg_sec_feed.Models.{
  DateTime, aware, utc, FeedItem, ItemDict, Iso, map_option, item_to_dict,
}
use sredevopsorg_sec_feed.Models.Samples.{sample_items}
use sredevopsorg_sec_feed.Store.Tables.{rows_of, bit_geq}
use sredevopsorg_sec_feed.Store.Sqlite.{sorted_texts, escape_like}
use sredevopsorg_sec_feed.Postgres.{FeedRow, Archive, Matching}

-- The tuple of values for one item; `now` is `_now_iso()`.
unfoldable pub entry_of : ℕ → FeedItem → FeedRow
unfolding sorted_texts
entry_of now item = record {
  id = item.id;
  title = item.title;
  summary = text_or item.summary "";
  url = text_or item.url "";
  source = text_or item.source "";
  source_url = text_or item.source_url "";
  published = map_option utc item.published;
  tags = sorted_texts item.tags;
  cves = item.cves;
  severity = item.severity;
  urgent = item.urgent;
  kev = item.kev;
  epss_score = item.epss_score;
  is_sample = item.is_sample;
  osv_affected = item.osv_affected;
  osv_fixed = item.osv_fixed;
  osv_severity = item.osv_severity;
  patch_status = item.patch_status;
  first_seen = now;
  last_seen = now;
}

-- `INSERT ... ON CONFLICT(id) DO UPDATE SET ...`: every column but `id` and `first_seen`.
unfoldable pub upsert_entry : FeedRow → Dict FeedRow → Dict FeedRow
upsert_entry row table = elim (lookup row.id table) [
  | none ↦ insert row.id row table
  | some old ↦ insert row.id (record row { first_seen = old.first_seen }) table
]

-- `executemany`, in one transaction.
unfoldable pub upsert_entries : List FeedRow → Dict FeedRow → Dict FeedRow
unfolding upsert_entry
upsert_entries [] table = table
upsert_entries (row ∷ rows) table = upsert_entries rows (upsert_entry row table)

unfoldable pub upsert_items : ℕ → List FeedItem → Archive → Archive × ℕ
unfolding entry_of upsert_entries
upsert_items now [] db = (db, 0)
upsert_items now (item ∷ items) db = (
  record db { feed_items = upsert_entries (map (entry_of now) (item ∷ items)) db.feed_items },
  length (item ∷ items),
)

-- `hash` and `moment` are those of `_sample_items`.
unfoldable pub seed_if_empty : (String → String) → ℕ → ℕ → Archive → Archive × ℕ
unfolding upsert_items
seed_if_empty hash moment now db =
    if ltb 0 (length db.feed_items) then (db, 0) else upsert_items now (sample_items hash moment) db

-- A moment, as the driver gives it.
abbrev pub as_read : Matching → ℕ → DateTime
as_read sql t = aware t (sql.timezone t)

unfoldable pub entry_to_item : Matching → Iso → DateTime → FeedRow → ItemDict
unfolding uniq
entry_to_item sql iso now row =
    item_to_dict iso
      (record {
        id = row.id;
        title = row.title;
        summary = text_or row.summary "";
        url = text_or row.url "";
        source = text_or row.source "";
        source_url = text_or row.source_url "";
        published = map_option (as_read sql) row.published;
        tags = uniq row.tags;
        cves = row.cves;
        severity = text_or row.severity "unknown";
        urgent = row.urgent;
        kev = row.kev;
        epss_score = row.epss_score;
        is_sample = row.is_sample;
        osv_affected = row.osv_affected;
        osv_fixed = row.osv_fixed;
        osv_severity = row.osv_severity;
        patch_status = text_or row.patch_status "unknown";
      })
      now

-- `_HIDE_SAMPLE`: the subquery sees the state that the query sees.
unfoldable pub hide_sample : Dict FeedRow → FeedRow → Bool
hide_sample table row =
    not row.is_sample || not (any (λ (r : FeedRow). not r.is_sample) (rows_of table))

-- `tags @> '["tag"]'::jsonb`, if a tag is given; and `severity = %s`.
unfoldable pub has_tag : Option String → FeedRow → Bool
has_tag none row = true
has_tag (some tag) row = if is_blank tag then true else member tag row.tags

unfoldable pub has_severity : Option String → FeedRow → Bool
has_severity none row = true
has_severity (some severity) row = if is_blank severity then true else row.severity == severity

-- `published DESC NULLS LAST`
abbrev pub published_later : Option ℕ → Option ℕ → Bool
published_later a none = true
published_later none (some b) = false
published_later (some a) (some b) = leb b a

-- `ORDER BY published DESC NULLS LAST, urgent DESC, last_seen DESC NULLS LAST`
unfoldable pub entry_order : FeedRow → FeedRow → Bool
entry_order a b =
    if not (published_later b.published a.published)
    then true
    else if not (published_later a.published b.published)
    then false
    else if not (bit_geq b.urgent a.urgent)
    then true
    else if not (bit_geq a.urgent b.urgent)
    then false
    else leb b.last_seen a.last_seen

unfoldable pub query_entries : Matching → Option String → Option String → ℕ → Archive → List FeedRow
unfolding hide_sample has_tag has_severity
query_entries sql tag severity limit db = take limit (
    sort entry_order (
      sql.scan (
        select
          (λ (r : FeedRow). hide_sample db.feed_items r && has_tag tag r && has_severity severity r)
          (rows_of db.feed_items))))

unfoldable pub query_feed :
    Matching → Iso → DateTime → Option String → Option String → ℕ → Archive → List ItemDict
query_feed sql iso now tag severity limit db =
    map (entry_to_item sql iso now) (query_entries sql tag severity limit db)

unfoldable pub matches : Matching → String → FeedRow → Bool
unfolding escape_like
matches sql q row =
    let pattern = "%" <> escape_like q <> "%" in
    sql.ilike pattern row.title
    || sql.ilike pattern row.summary
    || sql.ilike pattern row.source
    || sql.ilike pattern (sql.jsonb_text row.cves)

unfoldable pub search_entries :
    Matching → String → Option String → Option String → ℕ → Archive → List FeedRow
unfolding hide_sample has_tag has_severity matches
search_entries sql q tag severity limit db =
    if is_blank q
    then query_entries sql tag severity limit db
    else take limit (
        sort entry_order (
          sql.scan (
            select
              (λ (r : FeedRow).
                hide_sample db.feed_items r
                && matches sql q r
                && has_tag tag r
                && has_severity severity r)
              (rows_of db.feed_items))))

unfoldable pub search_feed :
    Matching → Iso → DateTime → String → Option String → Option String → ℕ → Archive → List ItemDict
search_feed sql iso now q tag severity limit db =
    map (entry_to_item sql iso now) (search_entries sql q tag severity limit db)
