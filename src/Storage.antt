-- ===== src/Storage.antt =====
-- The storage facade (app/store.py): the port that both adapters implement, and the one that the
-- settings select. A time is a moment; a read is one statement on one state, where the SQLite
-- adapter may count the live rows in an earlier one (see Store.Sqlite).
pub mod Agrees
mod Tests
use sredevopsorg_sec_feed.Prelude.{ℕ, String, Bool, Option, none, some, List, if◌then◌else◌}
use sredevopsorg_sec_feed.Prelude.Texts.{is_blank}
use sredevopsorg_sec_feed.Models.{DateTime, FeedItem, ItemDict}
use sredevopsorg_sec_feed.Store.{SourceState, Db, Engine}
use sredevopsorg_sec_feed.Store.Stats.{Stats}
use sredevopsorg_sec_feed.Store.Stats as LiteStats
use sredevopsorg_sec_feed.Store.Tables as LiteTables
use sredevopsorg_sec_feed.Store.Sqlite as Lite
use sredevopsorg_sec_feed.Postgres.{Archive, Matching}
use sredevopsorg_sec_feed.Postgres.Feed as Feed
use sredevopsorg_sec_feed.Postgres.Upkeep as Upkeep
use sredevopsorg_sec_feed.Postgres.Stats as FeedStats
use sredevopsorg_sec_feed.Postgres.Image.{iso_at}

-- What `set_source_state` is given, besides the source's id.
pub record Attempt : Type 0 where
  pub etag : Option String
  pub last_modified : Option String
  pub fetched_at : Option DateTime
  pub ok : Bool
  pub error : Option String
  pub payload : Option (List ItemDict)

-- `Storage`: an operation that writes takes its time, and gives the new state.
pub record Storage (S : Type 0) : Type 0 where
  pub seed_if_empty : (String → String) → ℕ → ℕ → S → S × ℕ
  pub upsert_items : ℕ → List FeedItem → S → S × ℕ
  pub query_feed : DateTime → Option String → Option String → ℕ → S → List ItemDict
  pub search_feed : DateTime → String → Option String → Option String → ℕ → S → List ItemDict
  pub stats : S → Stats
  pub unalerted_urgent_items : DateTime → ℕ → S → List ItemDict
  pub mark_alerted : ℕ → List String → S → S
  pub get_source_state : String → S → Option SourceState
  pub set_source_state : ℕ → String → Attempt → S → S
  pub prune_items : ℕ → S → S × ℕ

module _ (engine : Engine) where
  unfoldable pub sqlite : Storage Db
  sqlite = record {
    seed_if_empty = λ hash moment now. Lite.seed_if_empty engine hash moment (iso_at engine now);
    upsert_items = λ now. Lite.upsert_items engine (iso_at engine now);
    query_feed = λ now tag severity limit db. Lite.query_feed engine now tag severity limit db db;
    search_feed =
        λ now q tag severity limit db. Lite.search_feed engine now q tag severity limit db db;
    stats = LiteStats.stats engine;
    unalerted_urgent_items = Lite.unalerted_urgent_items engine;
    mark_alerted = λ now. LiteTables.mark_alerted (iso_at engine now);
    get_source_state = LiteTables.get_source_state;
    set_source_state = λ now source_id a. LiteTables.set_source_state source_id (
        Lite.attempt_row engine (iso_at engine now) a.etag a.last_modified a.fetched_at a.ok a.error
          a.payload);
    prune_items = λ before. LiteTables.prune_items (iso_at engine before);
  }

  unfoldable pub postgres : Matching → Storage Archive
  postgres matching = record {
    seed_if_empty = Feed.seed_if_empty;
    upsert_items = Feed.upsert_items;
    query_feed = Feed.query_feed matching engine.iso;
    search_feed = Feed.search_feed matching engine.iso;
    stats = FeedStats.stats matching engine.iso;
    unalerted_urgent_items = Upkeep.unalerted_urgent_items matching engine.iso;
    mark_alerted = Upkeep.mark_alerted;
    get_source_state = Upkeep.get_source_state matching engine.iso;
    set_source_state = λ now source_id a.
        Upkeep.set_source_state source_id
          (Upkeep.fetch_of now a.etag a.last_modified a.fetched_at a.ok a.error a.payload);
    prune_items = Upkeep.prune_items;
  }

pub data Backend : Type 0 where
  postgres_store : Backend
  sqlite_store : Backend

-- `if settings.database_url:`
unfoldable pub select_backend : Option String → Backend
select_backend none = sqlite_store
select_backend (some url) = if is_blank url then sqlite_store else postgres_store
