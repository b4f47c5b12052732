-- ===== src/Pipeline.antt =====
-- The refresh pipeline (app/pipeline.py). Flight has the scheduling of the refreshes, this file
-- the refresh itself. The enrichment, the search index and the gathering of the sources are an
-- interface; the store, the broker and the alerts are those of their modules.
pub mod Flight
pub mod Steps
pub mod Retention
mod Tests
use sredevopsorg_sec_feed.Prelude.{
  ℕ, ◌+◌, ◌-◌, ◌*◌, String, ◌≡◌, Bool, true, false, not, Option, none, some, List, [], ◌∷◌, length,
  ltb, leb, if◌then◌else◌,
}
use sredevopsorg_sec_feed.Prelude.Int.{ℤ, pos, pos_part, ltb_ℤ}
use sredevopsorg_sec_feed.Prelude.Dict.{Dict, insert}
use sredevopsorg_sec_feed.Runtime.{TextOps}
use sredevopsorg_sec_feed.Models.{DateTime, aware, utc, FeedItem}
use sredevopsorg_sec_feed.Sources.{Source}
use sredevopsorg_sec_feed.Events.{Broker, publish}
use sredevopsorg_sec_feed.Store.{Db, Engine}
use sredevopsorg_sec_feed.Store.Tables.{prune_items}
use sredevopsorg_sec_feed.Store.Sqlite.{iso_text, upsert_items}
use sredevopsorg_sec_feed.Alerts.{AlertSettings, Channels, send_urgent_alerts}
use sredevopsorg_sec_feed.Fetcher.Gather.{FetchResult, fetch_all}

-- `time.time()` in seconds.
abbrev pub prune_interval : ℕ
prune_interval = 24 * 60 * 60

abbrev pub day : ℕ
day = 24 * 3_600 * 1_000_000

pub record FeedCache : Type 0 where
  pub fetched_at : Option DateTime
  pub generated_at : Option DateTime
  pub errors : List String
  pub steps : Dict String

-- The event `feed_updated`.
pub record FeedUpdated : Type 0 where
  pub generated_at : String
  pub count : ℕ

-- The state of the process, the archive and the outside.
pub record App (N : Type 0) : Type 0 where
  pub db : Db
  pub broker : Broker FeedUpdated
  pub net : N
  pub cache : FeedCache
  pub last_prune_at : Option ℕ

-- What the pipeline calls: the sources, the two enrichments (an exception leaves what was done to
-- the items), the index, the clocks, and whether the database answers. `mark_ok` and `marked_at` are
-- the outcome and the time of writing the marks at the end of a run of the alerts that starts in
-- the given state.
pub record Outside (N : Type 0) : Type 0 where
  pub gather : Db → N → (Db × N) × List (Source × FetchResult)
  pub enrich_items : List FeedItem → N → N × List FeedItem
  pub enrich_with_osv : List FeedItem → N → N × List FeedItem
  pub index : List FeedItem → Db → N → N × Bool
  pub clock : N → DateTime
  pub time : N → ℕ
  pub db_ok : N → Bool
  pub mark_ok : N → Bool
  pub marked_at : N → String

pub record Settings : Type 0 where
  pub retention_days : ℤ
  pub feed_cache_ttl : ℤ

abbrev pub outcome : Bool → String
outcome true = "ok"
outcome false = "error"

module _ {N : Type 0} where
  -- `CACHE.steps[step] = ...`
  unfoldable pub record_step : String → App N × Bool → App N
  record_step step (a, ok) = record a {
    cache = record (a.cache) { steps = insert step (outcome ok) a.cache.steps };
  }

module _ {N : Type 0} (engine : Engine) (outside : Outside N) where
  -- A step says whether it went through; `false` is an exception.
  unfoldable pub persist : List FeedItem → App N → App N × Bool
  persist items a =
      let now = iso_text engine (outside.clock a.net) in
      if outside.db_ok a.net
      then (record a { db = (upsert_items engine now items a.db).0 }, true)
      else (a, false)

  -- `now - timedelta(days)` raises if that is before the first moment.
  unfoldable pub prune_step : Settings → App N → App N × Bool
  prune_step settings a =
      let days = pos_part settings.retention_days in
      let now = outside.time a.net in
      let moment = utc (outside.clock a.net) in
      let throttled : Bool = elim a.last_prune_at [
        | none ↦ false
        | some last ↦ ltb now (last + prune_interval)
      ] in
      if not (ltb_ℤ (pos 0) settings.retention_days)
      then (a, true)
      else if throttled
      then (a, true)
      else if ltb moment (days * day)
      then (a, false)
      else if not (outside.db_ok a.net)
      then (a, false)
      else (
        record a {
          db = (prune_items (iso_text engine (aware (moment - days * day) (pos 0))) a.db).0;
          last_prune_at = some now;
        },
        true,
      )

  unfoldable pub index_step : List FeedItem → App N → App N × Bool
  index_step items a =
      let (net, ok) = outside.index items a.db a.net in (record a { net = net }, ok)

  -- Publishing does not fail.
  unfoldable pub publish_step : DateTime → ℕ → App N → App N × Bool
  publish_step generated_at count a = (
    record a {
      broker =
          publish a.broker
            (record { generated_at = engine.iso.isoformat generated_at; count = count });
    },
    true,
  )

  -- `send_urgent_alerts` catches what it meets; nothing else writes the archive meanwhile.
  unfoldable pub alert_step : TextOps → AlertSettings → Channels N → App N → App N × Bool
  alert_step ops alerts channels a =
      let ((db, net), alerted) =
        send_urgent_alerts ops alerts channels engine (outside.db_ok a.net) (outside.clock a.net)
          a.db (outside.mark_ok a.net) (outside.marked_at a.net) a.db a.net in
      (record a { db = db; net = net }, true)

  -- The five steps after the cache is made anew; each runs whatever becomes of the others.
  unfoldable pub downstream :
      TextOps → AlertSettings → Channels N → Settings → List FeedItem → DateTime → App N → App N
  downstream ops alerts channels settings items generated_at a =
      let a1 = record_step "persist" (persist items a) in
      let a2 = record_step "prune" (prune_step settings a1) in
      let a3 = record_step "index" (index_step items a2) in
      let a4 = record_step "publish" (publish_step generated_at (length items) a3) in
      record_step "alert" (alert_step ops alerts channels a4)

  -- `hash` and `netloc` are those of the fetcher. The lock lets one refresh at a time through.
  unfoldable pub refresh_feed :
      TextOps
      → (Source → String)
      → (String → String)
      → AlertSettings
      → Channels N
      → Settings
      → App N
      → App N × List FeedItem
  refresh_feed ops netloc hash alerts channels settings a =
      let ((db, net), results) = outside.gather a.db a.net in
      let (raw, errors) = fetch_all ops netloc hash (utc (outside.clock net)) results in
      let (net1, enriched) = outside.enrich_items raw net in
      let (net2, items) = outside.enrich_with_osv enriched net1 in
      let now = outside.clock net2 in
      let cache : FeedCache = record {
        fetched_at = some now;
        generated_at = some now;
        errors = errors;
        steps = [];
      } in
      (
        downstream ops alerts channels settings items now
            (record a { db = db; net = net2; cache = cache }),
        items,
      )
