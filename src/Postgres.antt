-- ===== src/Postgres.antt =====
-- The Postgres storage adapter (app/postgres_store.py). A TIMESTAMPTZ column holds a moment, which
-- is read with the offset of the session's time zone; a JSONB column holds the list that it encodes.
-- A table is a dictionary from its primary key to its rows.
pub mod Feed
pub mod Upkeep
pub mod Schema
pub mod Current
pub mod Ready
pub mod Image
pub mod Writes
pub mod Pruned
pub mod Order
pub mod Reads
pub mod Ties
pub mod Keys
pub mod Stats
pub mod Codec
mod Tests
use sredevopsorg_sec_feed.Prelude.{ℕ, String, Bool, Option, List}
use sredevopsorg_sec_feed.Prelude.Int.{ℤ}
use sredevopsorg_sec_feed.Prelude.Dict.{Dict}
use sredevopsorg_sec_feed.Models.{ItemDict}

-- A row of `feed_items`.
pub record FeedRow : Type 0 where
  pub id : String
  pub title : String
  pub summary : String
  pub url : String
  pub source : String
  pub source_url : String
  pub published : Option ℕ
  pub tags : List String
  pub cves : List String
  pub severity : String
  pub urgent : Bool
  pub kev : Bool
  pub epss_score : Option ℕ
  pub is_sample : Bool
  pub osv_affected : List String
  pub osv_fixed : List String
  pub osv_severity : Option String
  pub patch_status : String
  pub first_seen : ℕ
  pub last_seen : ℕ

-- A row of `source_state`, without its key.
pub record Fetch : Type 0 where
  pub etag : Option String
  pub last_modified : Option String
  pub last_fetched_at : Option ℕ
  pub last_ok_at : Option ℕ
  pub last_error : Option String
  pub last_payload : Option (List ItemDict)

-- The database; `alerted_items` maps an item's id to `created_at`.
pub record Archive : Type 0 where
  pub feed_items : Dict FeedRow
  pub alerted_items : Dict ℕ
  pub source_state : Dict Fetch

-- What the queries take from the server: `text ILIKE pattern`, with the backslash as escape, the
-- text of a JSONB list, the order in which a statement meets the rows that it sorts, which no
-- clause fixes and which decides between rows that ORDER BY leaves equal, and the offset of the
-- session's TimeZone at a moment.
pub record Matching : Type 0 where
  pub ilike : String → String → Bool
  pub jsonb_text : List String → String
  pub scan : List FeedRow → List FeedRow
  pub timezone : ℕ → ℤ
