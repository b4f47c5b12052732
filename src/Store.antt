-- ===== src/Store.antt =====
-- The SQLite storage adapter (app/sqlite_store.py). A table is a dictionary from its primary key to
-- its rows, in the order of insertion; a time is its ISO text. The adapter opens a connection for
-- each statement or transaction, so a function that opens two takes the state that each finds.
pub mod Tables
pub mod Sqlite
pub mod Writes
pub mod Reads
pub mod Precedence
pub mod Asked
pub mod Prune
pub mod Alerted
pub mod State
pub mod Stats
mod Tests
use sredevopsorg_sec_feed.Prelude.{ℕ, String, Bool, Option, List}
use sredevopsorg_sec_feed.Prelude.Dict.{Dict}
use sredevopsorg_sec_feed.Models.{Iso, ItemDict}

-- A row of `feed_items`; `tags`, `cves`, `osv_affected` and `osv_fixed` are JSON texts.
pub record Row : Type 0 where
  pub id : String
  pub title : String
  pub summary : String
  pub url : String
  pub source : String
  pub source_url : String
  pub published : Option String
  pub tags : String
  pub cves : String
  pub severity : String
  pub urgent : Bool
  pub kev : Bool
  pub epss_score : Option ℕ
  pub is_sample : Bool
  pub osv_affected : String
  pub osv_fixed : String
  pub osv_severity : Option String
  pub patch_status : String
  pub first_seen : String
  pub last_seen : String

-- A row of `source_state`, without its key. The payload is JSON, kept as what it encodes.
pub record SourceState : Type 0 where
  pub etag : Option String
  pub last_modified : Option String
  pub last_fetched_at : Option String
  pub last_ok_at : Option String
  pub last_error : Option String
  pub last_payload : Option (List ItemDict)

-- `alerted_items` maps an item's id to `created_at`.
pub record Db : Type 0 where
  pub feed_items : Dict Row
  pub alerted_items : Dict String
  pub source_state : Dict SourceState

-- What the adapter takes from the libraries: ISO times, `json.dumps` and `json.loads` on lists of
-- texts, and SQLite's `text LIKE pattern ESCAPE '\'`.
pub record Engine : Type 0 where
  pub iso : Iso
  pub dumps : List String → String
  pub loads : String → List String
  pub like : String → String → Bool
