-- ===== src/Fetcher/Gather.antt =====
-- Fetch orchestration (app/fetcher.py): the retry of one source, the error lines, and `fetch_all`.
-- The outside world, the database included, is a state that is passed along; one attempt at a
-- source is a function on it.
pub mod Retry
pub mod Fallback
mod Tests
use sredevopsorg_sec_feed.Prelude.{
  ℕ, zero, suc, ◌+◌, String, ◌<>◌, Bool, true, false, ◌&&◌, ◌||◌, not, Option, none, some, List, [],
  ◌∷◌, ◌++◌, length, ltb, nat_eq, if◌then◌else◌,
}
use sredevopsorg_sec_feed.Prelude.Texts.{is_blank, text_or}
use sredevopsorg_sec_feed.Runtime.{TextOps}
use sredevopsorg_sec_feed.Models.{FeedItem}
use sredevopsorg_sec_feed.Models.Samples.{sample_items}
use sredevopsorg_sec_feed.Sources.{Source}
use sredevopsorg_sec_feed.Fetcher.Dedupe.{dedupe}

-- What an exception says of itself: `type(exc).__name__`, `str(exc)`, and whether it is an
-- `httpx.TimeoutException` or an `httpx.TransportError`.
pub record ErrorInfo : Type 0 where
  pub kind : String
  pub message : String
  pub is_timeout : Bool
  pub is_transport : Bool

-- An exception with the chain of its `__cause__ or __context__`.
pub data Error : Type 0 where
  root : ErrorInfo → Error
  caused_by : ErrorInfo → Error → Error

abbrev pub info : Error → ErrorInfo
info (root i) = i
info (caused_by i cause) = i

-- A source is fetched, is not due (`SKIPPED`), or raises.
pub data FetchResult : Type 0 where
  fetched : List FeedItem → FetchResult
  skipped : FetchResult
  raised : Error → FetchResult

abbrev pub fetch_attempts : ℕ
fetch_attempts = 2

-- `for _ in range(rounds)` along the chain of causes.
unfoldable pub detail_from : TextOps → ℕ → Error → String
detail_from ops zero e = ""
detail_from ops (suc rounds) (root i) = ops.strip i.message
detail_from ops (suc rounds) (caused_by i cause) =
    let further = detail_from ops rounds cause in
    if is_blank (ops.strip i.message) then further else ops.strip i.message

unfoldable pub error_detail : TextOps → Error → String
unfolding detail_from
error_detail ops e = detail_from ops 5 e

-- `netloc` is `urllib.parse.urlsplit(source.url).netloc`.
unfoldable pub describe_fetch_error : TextOps → String → Source → Error → String
unfolding error_detail
describe_fetch_error ops netloc source e =
    let head = source.id <> ": " <> (info e).kind in
    let unreachable = head <> " reaching " <> text_or netloc source.url in
    let detail = error_detail ops e in
    if (info e).is_timeout
    then unreachable
    else if is_blank detail
    then unreachable
    else head <> ": " <> detail

-- `once` is `_fetch_source_once`, and `pause n` the sleep of `n * FETCH_RETRY_DELAY`.
module _ {W : Type 0} (once : Source → W → W × FetchResult) (pause : ℕ → W → W) where
  -- The rounds left of `for attempt in range(FETCH_ATTEMPTS)`; only a transport error goes on to
  -- the next round, after a pause if there is one. `last` is `last_exc`.
  unfoldable pub fetch_rounds : Source → ℕ → ℕ → FetchResult → W → W × FetchResult
  fetch_rounds source attempt zero last w = (w, last)
  fetch_rounds source attempt (suc rounds) last w =
      let (w', result) = once source w in
      let more = ltb (attempt + 1) fetch_attempts in
      let w'' = if more then pause (attempt + 1) w' else w' in
      let again = fetch_rounds source (attempt + 1) rounds result w'' in
      elim result [
        | fetched items ↦ (w', fetched items)
        | skipped ↦ (w', skipped)
        | raised e ↦ if (info e).is_transport then again else (w', raised e)
      ]

  -- `skipped` stands for the `None` that `last_exc` starts with; it is never returned.
  unfoldable pub fetch_source : Source → W → W × FetchResult
  unfolding fetch_rounds
  fetch_source source w = fetch_rounds source 0 fetch_attempts skipped w

-- What the loop over `zip(SOURCES, results)` collects.
pub record Collected : Type 0 where
  pub items : List FeedItem
  pub errors : List String
  pub skips : ℕ

unfoldable pub collect : TextOps → (Source → String) → List (Source × FetchResult) → Collected
unfolding describe_fetch_error
collect ops netloc [] = record { items = []; errors = []; skips = 0 }
collect ops netloc ((source, fetched items) ∷ rest) =
    let r = collect ops netloc rest in record r { items = items ++ r.items }
collect ops netloc ((source, skipped) ∷ rest) =
    let r = collect ops netloc rest in record r { skips = suc r.skips }
collect ops netloc ((source, raised e) ∷ rest) =
    let r = collect ops netloc rest in
    record r { errors = describe_fetch_error ops (netloc source) source e ∷ r.errors }

abbrev pub is_nil : List FeedItem → Bool
is_nil [] = true
is_nil (x ∷ xs) = false

-- The sample fallback: `samples` is `_sample_items()`.
unfoldable pub with_fallback : List FeedItem → Collected → List FeedItem
with_fallback samples c =
    if is_nil c.items && nat_eq c.skips 0
    then samples
    else if not (is_nil c.items) && ltb (length c.items) 4 && nat_eq c.skips 0
    then c.items ++ samples
    else c.items

-- The results come from `asyncio.gather`, one for each source, in the order of the sources.
unfoldable pub fetch_all :
    TextOps
    → (Source → String)
    → (String → String)
    → ℕ
    → List (Source × FetchResult)
    → List FeedItem × List String
fetch_all ops netloc hash now results =
    let c = collect ops netloc results in
    (dedupe (with_fallback (sample_items hash now) c), c.errors)
