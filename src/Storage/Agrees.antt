-- ===== src/Storage/Agrees.antt =====
-- The two adapters are interchangeable: one simulates the other.
use sredevopsorg_sec_feed.Prelude.{
  ℕ, String, ◌≡◌, refl, ap, inl, inr, Bool, true, false, Option, none, some, List, map, take,
  length, ltb, if◌then◌else◌, Bool-cases,
}
use sredevopsorg_sec_feed.Prelude.Dict.{Dict}
use sredevopsorg_sec_feed.Models.{
  DateTime, naive, aware, ensure_aware, FeedItem, ItemDict, map_option, utc,
}
use sredevopsorg_sec_feed.Models.RoundTrip.{IsLawful}
use sredevopsorg_sec_feed.Models.Samples.{sample_items}
use sredevopsorg_sec_feed.Store.{Row, Engine}
use sredevopsorg_sec_feed.Store.Tables.{coalesce}
use sredevopsorg_sec_feed.Store.Tables as LiteTables
use sredevopsorg_sec_feed.Store.Sqlite.{iso_text, query_rows, search_rows, attempt_row, row_to_item}
use sredevopsorg_sec_feed.Store.Sqlite as Lite
use sredevopsorg_sec_feed.Postgres.{FeedRow, Archive, Matching}
use sredevopsorg_sec_feed.Postgres.Feed.{
  query_entries, search_entries, entry_to_item, entry_order, published_later,
}
use sredevopsorg_sec_feed.Postgres.Upkeep.{fetch_of, unalerted_entries, later_published}
use sredevopsorg_sec_feed.Postgres.Feed as Feed
use sredevopsorg_sec_feed.Postgres.Upkeep as Upkeep
use sredevopsorg_sec_feed.Postgres.Image.{
  iso_at, row_image, fetch_image, image, IsMonotone, IsScan, HasUtc, length-map_dict,
  lookup-map_dict,
}
use sredevopsorg_sec_feed.Postgres.Writes.{
  upsert_items-image, mark_all-map_dict, set_source_state-image,
}
use sredevopsorg_sec_feed.Postgres.Pruned.{prune_items-image}
use sredevopsorg_sec_feed.Postgres.Reads.{
  IsJson, SameTag, SameText, query_rows-image, search_rows-image, unalerted_rows-image,
  row_to_item-row_image,
}
use sredevopsorg_sec_feed.Postgres.Stats.{stats-image}
use sredevopsorg_sec_feed.Postgres.Ties.{EqualUpToTies, take-sort-EqualUpToTies}
use sredevopsorg_sec_feed.Postgres.Keys.{
  Key, key_of, key_before, key_before-entry_order, key_total, key_trans, key_antisym, rank_of_item,
  rank-entry_to_item, published_total, published_trans, published_antisym,
}
use sredevopsorg_sec_feed.Prelude.Sort.{sort}
use sredevopsorg_sec_feed.Prelude.Texts.{is_blank}
use mathlib.Core.List.Perm
use sredevopsorg_sec_feed.Storage.{Attempt, Storage, sqlite, postgres}

-- `small` shows what `big` does, at the view `f` of its state: each write leaves the view of what
-- it leaves; the fetch states and the counts are the same; the feed and the alerts are the same up
-- to the choice between rows that the order of the query leaves equal.
pub record Simulates {S T : Type 0} (f : S → T) (big : Storage S) (small : Storage T) : Type 0 where
  pub seeds :
      (hash : String → String) (moment now : ℕ) (s : S)
      → small.seed_if_empty hash moment now (f s)
        ≡ (f (big.seed_if_empty hash moment now s).0, (big.seed_if_empty hash moment now s).1)
  pub upserts :
      (now : ℕ) (items : List FeedItem) (s : S)
      → small.upsert_items now items (f s)
        ≡ (f (big.upsert_items now items s).0, (big.upsert_items now items s).1)
  pub marks :
      (now : ℕ) (ids : List String) (s : S)
      → small.mark_alerted now ids (f s) ≡ f (big.mark_alerted now ids s)
  pub records :
      (now : ℕ) (source_id : String) (attempt : Attempt) (s : S)
      → small.set_source_state now source_id attempt (f s)
        ≡ f (big.set_source_state now source_id attempt s)
  pub prunes :
      (before : ℕ) (s : S)
      → small.prune_items before (f s)
        ≡ (f (big.prune_items before s).0, (big.prune_items before s).1)
  pub feeds :
      (now : DateTime) (severity : Option String) (limit : ℕ) (s : S)
      → EqualUpToTies rank_of_item limit
          (small.query_feed now none severity limit (f s))
          (big.query_feed now none severity limit s)
  pub alerts :
      (now : DateTime) (limit : ℕ) (s : S)
      → EqualUpToTies
          (λ (item : ItemDict). item.published)
          limit
          (small.unalerted_urgent_items now limit (f s))
          (big.unalerted_urgent_items now limit s)
  pub states :
      (source_id : String) (s : S)
      → small.get_source_state source_id (f s) ≡ big.get_source_state source_id s
  pub counts : (s : S) → small.stats (f s) ≡ big.stats s

map-map_same {ℓ κ μ} :
    {A : Type ℓ} {B : Type κ} {C : Type μ} (f : A → B) (g : B → C) (h : A → C)
    → ((a : A) → g (f a) ≡ h a)
    → (xs : List A) → map g (map f xs) ≡ map h xs
map-map_same f g h same List.[] = refl
map-map_same f g h same (List.◌∷◌ x xs) = rw (same x, map-map_same f g h same xs) refl

module _ (engine : Engine) (matching : Matching) (mono : IsMonotone engine)
    (law : IsLawful engine.iso) (json : IsJson engine) (scans : IsScan matching)
    (utc_session : HasUtc matching) where
  fetched_at_same :
      (now : ℕ) (t : Option DateTime)
      → coalesce (map_option (iso_text engine) t) (some (iso_at engine now))
        ≡ map_option (iso_at engine) (coalesce (map_option utc t) (some now))
  unfolding ensure_aware
  fetched_at_same now none = refl
  fetched_at_same now (some (naive wall)) = refl
  fetched_at_same now (some (aware moment offset)) = refl

  ok_at_same :
      (now : ℕ) (ok : Bool)
      → (if ok then some (iso_at engine now) else none)
        ≡ map_option (iso_at engine) (if ok then some now else none)
  ok_at_same now true = refl
  ok_at_same now false = refl

  attempt_row-fetch_of :
      (now : ℕ) (a : Attempt)
      → attempt_row engine
          (iso_at engine now)
          a.etag
          a.last_modified
          a.fetched_at
          a.ok
          a.error
          a.payload
        ≡ fetch_image engine
            (fetch_of now a.etag a.last_modified a.fetched_at a.ok a.error a.payload)
  unfolding attempt_row fetch_of
  attempt_row-fetch_of now a = rw (fetched_at_same now a.fetched_at, ok_at_same now a.ok) refl

  seed-image :
      (hash : String → String) (moment now : ℕ) (db : Archive)
      → Lite.seed_if_empty engine hash moment (iso_at engine now) (image engine db) ≡ (
        image engine (Feed.seed_if_empty hash moment now db).0,
        (Feed.seed_if_empty hash moment now db).1,
      )
  unfolding Lite.seed_if_empty Feed.seed_if_empty
  seed-image hash moment now db = elim (Bool-cases (ltb 0 (length db.feed_items))) [
    | inl full ↦ rw (length-map_dict (row_image engine) db.feed_items, full) refl
    | inr empty ↦
        rw (length-map_dict (row_image engine) db.feed_items, empty)
          (upsert_items-image engine now (sample_items hash moment) db)
  ]

  feed-image :
      (now : DateTime) (rows : List Row) (entries : List FeedRow)
      → rows ≡ map (row_image engine) entries
      → map (row_to_item engine now) rows ≡ map (entry_to_item matching engine.iso now) entries
  feed-image now rows entries e = rw e (
      map-map_same (row_image engine) (row_to_item engine now)
        (entry_to_item matching engine.iso now) (row_to_item-row_image engine json law matching now)
        entries)

  -- The rows of a query in the order of the feed, in the order of the table and as they are met.
  scanned :
      (now : DateTime) (limit : ℕ) (chosen : List FeedRow)
      → EqualUpToTies rank_of_item limit
          (map (entry_to_item matching engine.iso now) (take limit (sort entry_order chosen)))
          (map
            (entry_to_item matching engine.iso now)
            (take limit (sort entry_order (matching.scan chosen))))
  scanned now limit chosen =
      take-sort-EqualUpToTies (hlevel) key_before key_total key_trans key_antisym key_of entry_order
        key_before-entry_order (entry_to_item matching engine.iso now) rank_of_item
        (λ (k : Key). (map_option (iso_at engine) k.0, some k.1.0))
        (rank-entry_to_item engine matching now) limit (Perm.symm (scans chosen))

  feed-EqualUpToTies :
      (now : DateTime) (severity : Option String) (limit : ℕ) (s : Archive)
      → EqualUpToTies rank_of_item limit
          (Lite.query_feed engine now none severity limit (image engine s) (image engine s))
          (Feed.query_feed matching engine.iso now none severity limit s)
  unfolding Lite.query_feed Feed.query_feed query_entries Feed.has_tag Lite.tag_clause
  feed-EqualUpToTies now severity limit s =
      rw
        (feed-image now _ _
          (query_rows-image engine mono matching none severity limit s (λ r. refl)))
        (scanned now limit _)

  alerts-EqualUpToTies :
      (now : DateTime) (limit : ℕ) (s : Archive)
      → EqualUpToTies
          (λ (item : ItemDict). item.published)
          limit
          (Lite.unalerted_urgent_items engine now limit (image engine s))
          (Upkeep.unalerted_urgent_items matching engine.iso now limit s)
  unfolding Lite.unalerted_urgent_items Upkeep.unalerted_urgent_items unalerted_entries
  alerts-EqualUpToTies now limit s =
      rw (feed-image now _ _ (unalerted_rows-image engine mono matching limit s)) (
        take-sort-EqualUpToTies (hlevel) published_later published_total published_trans
          published_antisym (λ (r : FeedRow). r.published) later_published (λ a b. refl)
          (entry_to_item matching engine.iso now) (λ (item : ItemDict). item.published)
          (map_option (iso_at engine))
          (λ r.
            ap (λ (p : Option String × Option Bool). p.0)
              (rank-entry_to_item engine matching now r))
          limit (Perm.symm (scans _)))

  -- The two storage adapters are interchangeable. If ISO texts are in the order of their moments
  -- and read back, and so do JSON lists, if the session of Postgres is in UTC, and in whatever
  -- order its queries meet the rows: on the archive of the Postgres adapter as SQLite would hold
  -- it, every write of the SQLite adapter leaves what the Postgres adapter leaves, with the same
  -- number; the fetch states and the counts are the same; and the feed (of every severity, without
  -- a tag) and the rows to alert have the same published times (the feed also the same urgency) one
  -- by one, and the same elements in some order unless the limit cuts them.
  pub postgres-Simulates : Simulates (image engine) (postgres engine matching) (sqlite engine)
  unfolding postgres sqlite LiteTables.mark_alerted Upkeep.mark_alerted LiteTables.get_source_state
      Upkeep.get_source_state
  postgres-Simulates = record {
    seeds = seed-image;
    upserts = upsert_items-image engine;
    marks = λ now ids s.
        ap (λ (t : Dict String). record (image engine s) { alerted_items = t })
          (mark_all-map_dict engine now ids s.alerted_items);
    records = λ now source_id a s.
        rw (attempt_row-fetch_of now a) (set_source_state-image engine source_id _ s);
    prunes = prune_items-image engine mono;
    feeds = feed-EqualUpToTies;
    alerts = alerts-EqualUpToTies;
    states = λ source_id s.
        rw utc_session (lookup-map_dict (fetch_image engine) source_id s.source_state);
    counts = stats-image engine json mono matching utc_session;
  }

  -- Where both find a text and a tag in the same rows, the searches agree up to ties.
  pub search_feed-EqualUpToTies :
      (now : DateTime) (q : String) (tag severity : Option String) (limit : ℕ) (s : Archive)
      → SameTag engine tag
      → SameText engine matching q
      → EqualUpToTies rank_of_item limit
          (Lite.search_feed engine now q tag severity limit (image engine s) (image engine s))
          (Feed.search_feed matching engine.iso now q tag severity limit s)
  unfolding Lite.search_feed Feed.search_feed search_entries query_entries
  search_feed-EqualUpToTies now q tag severity limit s same text =
      let lite =
        feed-image now _ _
          (search_rows-image engine mono matching q tag severity limit s same text) in
      elim (Bool-cases (is_blank q)) [
        | inl e ↦ rw (lite, e) (scanned now limit _)
        | inr e ↦ rw (lite, e) (scanned now limit _)
      ]
