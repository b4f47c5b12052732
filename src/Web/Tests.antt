-- ===== src/Web/Tests.antt =====
-- The API process at concrete inputs.
use sredevopsorg_sec_feed.Prelude.{
  ℕ, ◌≡◌, refl, true, false, none, some, List, [], ◌∷◌, arith, leb, if◌then◌else◌, ◌==◌,
}
use sredevopsorg_sec_feed.Prelude.Int.{pos}
use sredevopsorg_sec_feed.Prelude.Dict.{insert, lookup}
use sredevopsorg_sec_feed.Prelude.Results.{err}
use sredevopsorg_sec_feed.Fetcher.Inputs.{plain_ops, low_item}
use sredevopsorg_sec_feed.Runtime.{TextOps}
use sredevopsorg_sec_feed.Models.{DateTime, aware}
use sredevopsorg_sec_feed.RateLimit.{RateLimiter}
use sredevopsorg_sec_feed.Events.{Broker}
use sredevopsorg_sec_feed.Events.Cap.{IsValid}
use sredevopsorg_sec_feed.Store.{Db, Engine}
use sredevopsorg_sec_feed.Store.Tables.{empty_db, upsert_rows, live_count}
use sredevopsorg_sec_feed.Store.Sqlite.{upsert_items, row_of, query_feed, query_rows, row_to_item}
use sredevopsorg_sec_feed.Pipeline.{FeedCache}
use sredevopsorg_sec_feed.Pipeline.Flight.{
  idle, refresh_in_flight, schedule_refresh, get_feed, is_stale_cache,
}
use sredevopsorg_sec_feed.Web.Startup.{
  Init, initialised, not_migrated, unavailable, init_from, init_store, Ends, init_store-Ends,
}
use sredevopsorg_sec_feed.Web.Lifespan.{
  Boot, Process, degraded, schema_not_migrated, lifespan, Justified, lifespan-Justified,
}
use sredevopsorg_sec_feed.Web.Clients.{Request, client_key}
use sredevopsorg_sec_feed.Web.Forged.{proxied, IsAddress, client_key_lem}
use sredevopsorg_sec_feed.Web.Stats.{StatsCall, reads, api_stats}
use sredevopsorg_sec_feed.Web.Api.{Gate, FeedReply, api_feed, api_events}
use sredevopsorg_sec_feed.Web.Served.{IsServed, api_feed-IsServed}
use sredevopsorg_sec_feed.Web.Streams.{Opens, api_events-Opens}

program : Unit {0}
unfolding init_from init_store schedule_refresh refresh_in_flight lifespan client_key reads
    api_stats empty_db upsert_items row_of upsert_rows live_count query_feed query_rows row_to_item
    insert lookup api_feed get_feed is_stale_cache
program = tt

-- The database comes up at the third attempt.
abbrev third : ℕ → Init
third n = if leb 3 n then initialised else unavailable

init_store-Ends_example : Ends third (init_store third)
init_store-Ends_example = init_store-Ends third

three_attempts :
    init_store third ≡ record { attempts = 3; pauses = 1 ∷ 2 ∷ []; ended = initialised }
unfolding program
three_attempts = refl

-- A stale schema ends the startup at once.
stale_schema :
    init_store (λ n. not_migrated) ≡ record { attempts = 1; pauses = []; ended = not_migrated }
unfolding program
stale_schema = refl

abbrev boot : Boot ℕ
boot = record {
  store_init = λ n. unavailable;
  seed = λ w. (w, true);
  sync = λ w. (w, true);
  has_database_url = true;
}

abbrev process : Process ℕ
process = record { world = 7; scheduler = idle }

abbrev started : Process ℕ
unfolding program
started = (lifespan boot process).0

lifespan-Justified_example :
    Justified boot process.world degraded × (refresh_in_flight started.scheduler ≡ true)
unfolding program started
lifespan-Justified_example = lifespan-Justified boot process started degraded refl

never_stale :
    (lifespan (record boot { store_init = λ n. not_migrated }) process).1 ≡ err schema_not_migrated
unfolding program
never_stale = refl

-- `strip`, on the two texts of the test.
abbrev ops : TextOps
ops = record plain_ops { strip = λ s. if s == " 10.0.0.7" then "10.0.0.7" else s }

address : IsAddress ops "10.0.0.7"
address = record { spaced = refl; bare = refl; not_blank = refl; no_comma = refl }

client_key_lem_example :
    client_key ops true (record {
      forwarded_for = some (proxied (some "1.2.3.4, 5.6.7.8") "10.0.0.7");
      client_host = none;
    })
    ≡ "10.0.0.7"
client_key_lem_example = client_key_lem ops (some "1.2.3.4, 5.6.7.8") none "10.0.0.7" address

-- Without a proxy to trust, the header does not count.
untrusted :
    client_key ops false (record { forwarded_for = some "1.2.3.4"; client_host = some "10.0.0.7" })
    ≡ "10.0.0.7"
unfolding program
untrusted = refl

abbrev calls : List (StatsCall ℕ)
calls =
    record { now = 0; stats = some 5; after = 10 }
    ∷ record { now = 30_009; stats = some 6; after = 30_020 }
    ∷ record { now = 30_010; stats = some 7; after = 30_030 }
    ∷ []

two_reads : reads calls none ≡ 10 ∷ 30_030 ∷ []
unfolding program
two_reads = refl

abbrev engine : Engine
engine = record {
  iso = record { isoformat = λ d. "T"; fromisoformat = λ s. none };
  dumps = λ l. "[]";
  loads = λ s. [];
  like = λ p s. true;
}

abbrev now : DateTime
now = aware 5_000_000 (pos 0)

abbrev archive : Db
unfolding program
archive = (upsert_items engine "B" (low_item ∷ []) empty_db).0

abbrev cold : FeedCache
cold = record { fetched_at = none; generated_at = none; errors = []; steps = [] }

abbrev reply : FeedReply
unfolding program
reply = record {
  generated_at = none;
  fetched_at = none;
  source_errors = [];
  count = 1;
  items = query_feed engine now none none 50 archive archive;
}

api_feed-IsServed_example :
    IsServed engine
      (pos 600)
      now
      none
      none
      50
      cold
      (api_feed engine (pos 600) now none none 50 true archive archive cold cold idle).0
      reply
unfolding program archive
api_feed-IsServed_example =
    api_feed-IsServed engine (pos 600) now none none 50 true archive archive cold cold idle reply
      (omega arith) refl

abbrev gate : Gate
gate = record { ops = ops; ticks = 1000; trust_proxy = true }

abbrev broker : Broker ℕ
broker = record {
  max_subscribers = pos 2;
  subscribers = record { ident = 0; events = 4 ∷ [] } ∷ [];
  fresh = 1;
}

broker-IsValid : IsValid broker
broker-IsValid = record {
  capped = λ on. omega arith;
  bounded = (record { known = omega arith; small = omega arith }, tt);
}

abbrev limiter : RateLimiter
limiter = record { max_requests = pos 1; window_seconds = 60_000; hits = [] }

abbrev request : Request
request = record { forwarded_for = none; client_host = some "10.0.0.7" }

api_events-Opens_example :
    Opens broker
      (api_events gate request 5 limiter broker).0.1
      (api_events gate request 5 limiter broker).1
api_events-Opens_example = api_events-Opens gate request 5 limiter broker broker-IsValid
