-- ===== src/Lib.antt =====
-- The security feed's backend (app/): what its parts do to their state, and what that guarantees.
--
-- The program fetches advisories from a fixed roster of sources (app/sources.py, app/fetcher.py),
-- normalizes and deduplicates them, stores them through one of two adapters (app/store.py,
-- app/sqlite_store.py, app/postgres_store.py), indexes them for search (app/search.py), publishes
-- an event to the connected clients (app/events.py) and alerts about the urgent ones
-- (app/alerts.py); app/pipeline.py runs all this as one refresh at a time. Requests to the API
-- (app/main.py) pass a limiter (app/ratelimit.py). The settings come from the environment
-- (app/config.py), and the schema of Postgres from the migrations (app/migrate.py).
--
-- Files. Prelude: lists, dictionaries, sorting, sets, texts and results over the native numbers.
-- Runtime: the operations of Python's str and re that are parameters. RateLimit: class RateLimiter
-- of app/ratelimit.py, one function for each method. Models: app/models.py, items and their
-- dictionaries. Events: class Broker of app/events.py and the stream loop of app/main.py. Sources:
-- the roster of app/sources.py. Fetcher: app/fetcher.py, with Infer for the text inference, Patch
-- for the patch status, Dedupe for _dedupe, Gather for _fetch_source and fetch_all, Fetching for
-- the fetch state and _fetch_source_once, Rss for _fetch_rss, Nvd for _fetch_nvd with its slots and
-- its URL, Ghsa for _fetch_ghsa, Redhat for _fetch_redhat, and Newest for the sort by date that Nvd
-- and Ghsa share; Inputs holds items for the tests. Store: app/sqlite_store.py, with Tables for the
-- SQL statements, Sqlite for the functions around them and Stats for the counts. Postgres:
-- app/postgres_store.py, with Feed for the items, Upkeep for alerts, fetch states and retention,
-- Stats for the counts, Schema for the schema check and the pool; Image, Order, Writes, Pruned,
-- Reads, Keys and Ties relate it to the SQLite adapter. Storage: the port of app/store.py and its
-- two implementations. Alerts: app/alerts.py. Enrich: app/enrich.py, with Kev for fetch_recent_kev.
-- Osv: app/osv.py. Pipeline: app/pipeline.py, with Flight for the scheduling of the refreshes.
-- Config: app/config.py. Migrate: app/migrate.py, with Session for transactions and locks, Connect
-- for the connection loop and Upgrade for the commands. Search: app/search.py. Web: app/main.py,
-- with Startup and Lifespan for the startup, Clients for the identity and the limit of a client,
-- Stats for the cached statistics and Api for the endpoints. The modules below each of these, and
-- those named Tests, hold the theorems and their runs at concrete inputs.
--
-- State. Each component's state is a record that its operations take and return. A dictionary or a
-- table with a primary key is an association list without repeated keys. What the code reads from
-- outside (clocks, the hash of an item, HTTP answers, success or failure of the database and of a
-- channel) is an argument. A moment is a number of microseconds; a score is in millionths. The
-- SQLite adapter holds a moment as its ISO text and a list as its JSON text, the Postgres adapter
-- holds both as they are. A session with Postgres is the committed database, the open transaction
-- and the lock.
--
-- Bounds. The recursions are structural. The retry runs on the two rounds of FETCH_ATTEMPTS, and
-- the walk along an exception's causes on the five of the code; both end by a return, as in the
-- code. The batches of CVEs are made on fuel, for which the number of CVEs is enough. The startup
-- runs on its five attempts. The connection loop of the migrations runs on fuel: a round for every
-- two seconds of patience and two more, which is enough when each pause takes its two seconds.
--
-- Parameters. TextOps (lowercase, uppercase, strip, split and the regular expressions), Iso (the
-- ISO format of times; its laws are a hypothesis of the round trip, with an instance), Engine (JSON
-- of lists and SQLite's LIKE), Matching (ILIKE, the text of a JSON list, the order in which a query
-- of Postgres meets its rows and the time zone of its session), Channels (the posts to Discord,
-- Slack and SMTP), Http (the HTTP client and the feed parser), RestClient (the HTTP client and its
-- JSON), UrlOps (the query of a URL and strftime), EventLoop (the running loop, its clock and its
-- sleep), KevOps (the NVD link of a note and strptime), Fetchers (the five fetchers, as one attempt
-- at a source calls them), Outside (what a refresh calls: gathering, enrichment, index, clocks),
-- Services (the KEV catalog and the EPSS scores), for Osv the server, the clock and the match of a
-- version number, Platform (int, float, the URL parser, the file system), Sql (the scripts of the
-- migrations), Waiting (the attempts to connect and their clock), OpenSearch (the requests to the
-- search server) and Boot (what the startup calls). Of rows that a query's order leaves equal,
-- Postgres may choose: there they come as the query meets them, in any order. SQLite's come in the
-- order of the table.
--
-- Not modelled: answers of the NVD, Red Hat and GitHub APIs that break the types of their formats;
-- the creation of SQLite's tables and ping; a connection to Postgres that breaks during a
-- migration; the wiring of FastAPI, its checks of query parameters, CORS and the response classes;
-- the browser's code.
pub mod Prelude
pub mod RateLimit
pub mod Runtime
pub mod Models
pub mod Events
pub mod Sources
pub mod Fetcher
pub mod Store
pub mod Postgres
pub mod Storage
pub mod Alerts
pub mod Enrich
pub mod Osv
pub mod Pipeline
pub mod Config
pub mod Migrate
pub mod Search
pub mod Web
