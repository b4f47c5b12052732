-- ===== src/Web/Api.antt =====
-- The endpoints of the API (app/main.py). A database outage (`StoreUnavailable`) is answered by
-- `_database_unavailable`; a parameter that FastAPI's bounds on `limit` refuse is not seen here.
use sredevopsorg_sec_feed.Prelude.{
  ℕ, ◌-◌, ◌/◌, String, Bool, true, false, Option, none, some, List, map, length, if◌then◌else◌,
}
use sredevopsorg_sec_feed.Prelude.Int.{ℤ}
use sredevopsorg_sec_feed.Prelude.Dict.{Dict}
use sredevopsorg_sec_feed.Prelude.Results.{Result, ok, err}
use sredevopsorg_sec_feed.Runtime.{TextOps}
use sredevopsorg_sec_feed.Models.{DateTime, utc, ItemDict, map_option}
use sredevopsorg_sec_feed.Sources.{Source, sources}
use sredevopsorg_sec_feed.RateLimit.{RateLimiter}
use sredevopsorg_sec_feed.Events.{Broker, subscribe, unsubscribe, receive}
use sredevopsorg_sec_feed.Store.{Db, Engine}
use sredevopsorg_sec_feed.Store.Sqlite.{sorted_texts, query_feed}
use sredevopsorg_sec_feed.Pipeline.{FeedCache}
use sredevopsorg_sec_feed.Pipeline.Flight.{Scheduler, get_feed}
use sredevopsorg_sec_feed.Search.{OpenSearch, SearchState, SearchResult, search}
use sredevopsorg_sec_feed.Web.Clients.{Request, HttpError, rate_limit}

-- `_database_unavailable`
unfoldable pub database_unavailable : HttpError
database_unavailable = record {
  status_code = 503;
  detail = "database unavailable";
  retry_after = "5";
}

abbrev pub or_unavailable : {A : Type 0} → Option A → Result HttpError A
or_unavailable none = err database_unavailable
or_unavailable (some a) = ok a

pub record Health : Type 0 where
  pub status : String
  pub cache_fetched_at : Option String
  pub cache_age_seconds : Option ℕ
  pub pipeline : Dict String

-- The age is never negative, as in `max(0, ...)`.
unfoldable pub health : Engine → DateTime → FeedCache → Health
health engine now cache = record {
  status = "ok";
  cache_fetched_at = map_option engine.iso.isoformat cache.fetched_at;
  cache_age_seconds = map_option (λ (t : DateTime). (utc now - utc t) / 1_000_000) cache.fetched_at;
  pipeline = cache.steps;
}

-- `store.ping` answers within two seconds, or it does not.
unfoldable pub ready : Bool → Result HttpError (String × String)
ready true = ok ("ready", "ok")
ready false = err (record { status_code = 503; detail = "not_ready"; retry_after = "5" })

pub record FeedReply : Type 0 where
  pub generated_at : Option String
  pub fetched_at : Option String
  pub source_errors : List String
  pub count : ℕ
  pub items : List ItemDict

-- `default` is the cache as it stands when the archive has been read; `readable` says whether the
-- database answers, and `counted` and `db` are the archive at the two statements of the query.
unfoldable pub api_feed :
    Engine
    → ℤ
    → DateTime
    → Option String
    → Option String
    → ℕ
    → Bool
    → Db
    → Db
    → FeedCache
    → FeedCache
    → Scheduler
    → Scheduler × Result HttpError FeedReply
api_feed engine ttl now tag severity limit readable counted db before cache scheduler =
    let items = query_feed engine now tag severity limit counted db in
    (
      get_feed before.fetched_at ttl now scheduler,
      if readable
          then ok (record {
            generated_at = map_option engine.iso.isoformat cache.generated_at;
            fetched_at = map_option engine.iso.isoformat cache.fetched_at;
            source_errors = cache.errors;
            count = length items;
            items = items;
          })
          else err database_unavailable,
    )

unfoldable pub api_items :
    Engine
    → DateTime
    → Option String
    → Option String
    → ℕ
    → Bool
    → Db
    → Db
    → Result HttpError (ℕ × List ItemDict)
api_items engine now tag severity limit readable counted db =
    let items = query_feed engine now tag severity limit counted db in
    if readable then ok (length items, items) else err database_unavailable

-- What the limited endpoints share of the process: the limiter, and the number of clock ticks in a
-- second.
pub record Gate : Type 0 where
  pub ops : TextOps
  pub ticks : ℕ
  pub trust_proxy : Bool

-- `dependencies=[Depends(_rate_limit)]`: the body runs if no exception is raised.
abbrev pub limited :
    {S A : Type 0}
    → Gate
    → Request
    → ℕ
    → (S → S × Result HttpError A)
    → RateLimiter
    → S
    → (RateLimiter × S) × Result HttpError A
limited gate request timestamp body limiter s =
    let (limiter', refused) =
      rate_limit gate.ops gate.ticks gate.trust_proxy request timestamp limiter in
    elim refused [
      | some e ↦ ((limiter', s), err e)
      | none ↦ let (s', result) = body s in ((limiter', s'), result)
    ]

module _ {N : Type 0} (gate : Gate) where
  -- `sql` is what `store.search_feed` would give; `none` is an outage.
  unfoldable pub api_search :
      OpenSearch N
      → Engine
      → DateTime
      → Option (List ItemDict)
      → String
      → Option String
      → Option String
      → ℕ
      → Request
      → ℕ
      → RateLimiter
      → SearchState N
      → (RateLimiter × SearchState N) × Result HttpError SearchResult
  unfolding search rate_limit
  api_search server engine now sql q tag severity limit request timestamp =
      limited gate request timestamp λ s.
        let (s', found) = search server engine.iso now sql q tag severity limit s in
        (s', or_unavailable found)

module _ {A : Type 0} where
  abbrev pub open_stream : Broker A → Broker A × Result HttpError ℕ
  open_stream broker =
      let (broker', queue) = subscribe broker in
      elim queue [
        | none ↦ (
          broker',
          err (record {
            status_code = 503;
            detail = "Too many event subscribers";
            retry_after = "30";
          }),
        )
        | some q ↦ (broker', ok q)
      ]

module _ {A : Type 0} (gate : Gate) where
  -- `api_events` up to the response; the queue is the one that its stream reads.
  unfoldable pub api_events :
      Request → ℕ → RateLimiter → Broker A → (RateLimiter × Broker A) × Result HttpError ℕ
  unfolding subscribe rate_limit
  api_events request timestamp = limited gate request timestamp open_stream

-- What a stream sends: the greeting, an event, or a heartbeat after fifteen seconds without one.
pub data Chunk (A : Type 0) : Type 0 where
  greeting : Chunk A
  event : A → Chunk A
  heartbeat : Chunk A

-- One round of the loop of `event_stream`.
unfoldable pub stream_round : {A : Type 0} → ℕ → Broker A → Broker A × Chunk A
stream_round q broker =
    let (broker', got) = receive broker q in
    elim got [ none ↦ (broker', heartbeat) | some e ↦ (broker', event e) ]

-- Closing `event_stream`: its `finally` runs only if the greeting was asked for; Python does not run
-- a generator that was never started.
unfoldable pub stream_closed : {A : Type 0} → Bool → ℕ → Broker A → Broker A
stream_closed started q broker = if started then unsubscribe broker q else broker

pub record SourceReply : Type 0 where
  pub id : String
  pub name : String
  pub kind : String
  pub url : String
  pub tags : List String

unfoldable pub api_sources : List SourceReply
unfolding sources sorted_texts
api_sources =
    map
      (λ (s : Source). record {
        id = s.id;
        name = s.name;
        kind = s.kind;
        url = s.url;
        tags = sorted_texts s.tags;
      })
      sources
