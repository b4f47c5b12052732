-- ===== src/Web/Served.antt =====
-- What the feed endpoint answers.
use sredevopsorg_sec_feed.Prelude.{
  ℕ, ◌≤◌, ◌<◌, ◌≡◌, refl, inl, inr, Bool, false, not, ◌&&◌, Option, length, length-map, arith,
  Bool-cases, String,
}
use sredevopsorg_sec_feed.Prelude.Int.{ℤ}
use sredevopsorg_sec_feed.Prelude.Results.{ok}
use sredevopsorg_sec_feed.Models.{DateTime}
use sredevopsorg_sec_feed.Store.{Db, Engine}
use sredevopsorg_sec_feed.Store.Tables.{live_count}
use sredevopsorg_sec_feed.Store.Sqlite.{query_rows, query_feed, row_to_item}
use sredevopsorg_sec_feed.Store.Reads.{query_rows_lem}
use sredevopsorg_sec_feed.Pipeline.{FeedCache}
use sredevopsorg_sec_feed.Pipeline.Flight.{Scheduler, get_feed, is_stale_cache, refresh_in_flight}
use sredevopsorg_sec_feed.Search.Live.{AllLive, query_feed-AllLive}
use sredevopsorg_sec_feed.Web.Api.{FeedReply, api_feed}
use sredevopsorg_sec_feed.Web.Lifespan.{schedule-in_flight}

module _ (engine : Engine) (ttl : ℤ) (now : DateTime) (tag severity : Option String)
    (limit : ℕ) where
  -- The reply counts its items, which are at most `limit` and all live; and if the cache was stale,
  -- a refresh is on its way.
  pub record IsServed (before : FeedCache) (scheduler : Scheduler) (reply : FeedReply)
      : Type 0 where
    pub counted : reply.count ≡ length reply.items
    pub short : length reply.items ≤ limit
    pub live : AllLive reply.items
    pub refreshing :
        (is_stale_cache before.fetched_at ttl now && not (refresh_in_flight scheduler)) ≡ false

  get_feed_refreshes :
      (fetched_at : Option DateTime) (s : Scheduler)
      → (is_stale_cache fetched_at ttl now
          && not (refresh_in_flight (get_feed fetched_at ttl now s)))
        ≡ false
  unfolding get_feed
  get_feed_refreshes fetched_at s = ground (arith, schedule-in_flight s)

  length-query_feed :
      (counted db : Db) → length (query_feed engine now tag severity limit counted db) ≤ limit
  unfolding query_feed
  length-query_feed counted db =
      let (short, sorted, passing) = query_rows_lem engine tag severity limit counted db in
      omega (
        arith,
        short,
        length-map (row_to_item engine now) (query_rows engine tag severity limit counted db),
      )

  -- When the feed endpoint answers and a live row was counted, the reply counts its items, which
  -- are at most limit and none a sample; and if the cache was stale, a refresh is in flight.
  pub api_feed-IsServed :
      (readable : Bool) (counted db : Db) (before cache : FeedCache) (s : Scheduler)
      (reply : FeedReply)
      → 0 < live_count counted
      → (api_feed engine ttl now tag severity limit readable counted db before cache s).1 ≡ ok reply
      → IsServed before
          (api_feed engine ttl now tag severity limit readable counted db before cache s).0
          reply
  unfolding api_feed
  api_feed-IsServed readable counted db before cache s reply h e = elim (Bool-cases readable) [
    | inl up ↦
        let items_eq : query_feed engine now tag severity limit counted db ≡ reply.items =
          ground arith in
        let count_eq : length (query_feed engine now tag severity limit counted db) ≡ reply.count =
          ground arith in
        record {
          counted = rw (← count_eq, items_eq) refl;
          short = rw (← items_eq) (length-query_feed counted db);
          live = rw (← items_eq) (query_feed-AllLive engine now tag severity limit counted db h);
          refreshing = get_feed_refreshes before.fetched_at s;
        }
    | inr down ↦ absurd (ground arith)
  ]
