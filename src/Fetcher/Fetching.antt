-- ===== src/Fetcher/Fetching.antt =====
-- The stored fetch state and one attempt at a source (app/fetcher.py): `_load_state`,
-- `_save_state`, `_validator_headers`, `_stored_items`, `_is_due` and `_fetch_source_once`. The
-- fetchers of the five kinds are an interface here; they are in Rss, Ghsa, Nvd, Redhat and Kev.
pub mod Due
pub mod Retried
mod Tests
use sredevopsorg_sec_feed.Prelude.{
  ℕ, ◌+◌, ◌*◌, String, ◌<>◌, Bool, true, false, ◌||◌, not, Option, none, some, List, [], ◌∷◌, ◌++◌,
  leb, nat_eq, if◌then◌else◌, ◌==◌, ◌>>=◌,
}
use sredevopsorg_sec_feed.Prelude.Texts.{is_blank, text_take}
use sredevopsorg_sec_feed.Models.{
  DateTime, utc, ensure_aware, FeedItem, Iso, ItemDict, item_from_dict,
}
use sredevopsorg_sec_feed.Sources.{Source}
use sredevopsorg_sec_feed.Store.{SourceState, Db, Engine}
use sredevopsorg_sec_feed.Store.Tables.{get_source_state, set_source_state}
use sredevopsorg_sec_feed.Store.Sqlite.{iso_text, attempt_row}
use sredevopsorg_sec_feed.Fetcher.Gather.{
  Error, info, FetchResult, fetched, skipped, raised, fetch_source,
}

-- The archive, and all else that is outside the program.
pub record World (N : Type 0) : Type 0 where
  pub db : Db
  pub net : N

-- What the program reads of the outside: the time, and whether the database answers.
pub record Senses (N : Type 0) : Type 0 where
  pub clock : N → DateTime
  pub db_ok : N → Bool

-- A text that Python takes for true.
abbrev pub filled : Option String → Bool
filled none = false
filled (some s) = not (is_blank s)

abbrev header : String → Option String → List (String × String)
header name none = []
header name (some value) = if is_blank value then [] else (name, value) ∷ []

unfoldable pub validator_headers : Option SourceState → List (String × String)
validator_headers none = []
validator_headers (some state) =
    header "If-None-Match" state.etag ++ header "If-Modified-Since" state.last_modified

abbrev pub etag_of : Option SourceState → Option String
etag_of none = none
etag_of (some state) = state.etag

abbrev pub last_modified_of : Option SourceState → Option String
last_modified_of none = none
last_modified_of (some state) = state.last_modified

-- `[item_from_dict(row) for row in payload]`; `none` is an exception of one of them.
unfoldable pub items_from_dicts : Iso → List ItemDict → Option (List FeedItem)
items_from_dicts iso [] = some []
items_from_dicts iso (row ∷ rows) = do
  item ← item_from_dict iso row
  items ← items_from_dicts iso rows
  some (item ∷ items)

unfoldable pub stored_items : Iso → Option SourceState → Option (List FeedItem)
unfolding items_from_dicts
stored_items iso none = none
stored_items iso (some state) = elim state.last_payload [
  | none ↦ none
  | some [] ↦ none
  | some (row ∷ rows) ↦ items_from_dicts iso (row ∷ rows)
]

abbrev pub second : ℕ
second = 1_000_000

-- `now` is the time of the call; both times are compared in microseconds.
unfoldable pub is_due : Iso → Source → Option SourceState → DateTime → Bool
unfolding ensure_aware
is_due iso source none now = true
is_due iso source (some state) now =
    if nat_eq source.min_interval_seconds 0 then true else elim state.last_fetched_at [
      | none ↦ true
      | some raw ↦ if is_blank raw then true else elim (iso.fromisoformat raw) [
        | none ↦ true
        | some last ↦ leb (source.min_interval_seconds * second + utc (ensure_aware last)) (utc now)
      ]
    ]

module _ {N : Type 0} (engine : Engine) (senses : Senses N) where
  -- A read that fails counts as no state.
  unfoldable pub load_state : String → World N → Option SourceState
  load_state source_id w = if senses.db_ok w.net then get_source_state source_id w.db else none

  -- A write that fails is passed over.
  unfoldable pub save_state :
      Source
      → Option String
      → Option String
      → Option (List ItemDict)
      → Bool
      → Option String
      → World N
      → World N
  save_state source etag last_modified payload ok error w =
      let now = senses.clock w.net in
      if senses.db_ok w.net
      then record w {
        db =
            set_source_state source.id
              (attempt_row engine (iso_text engine now) etag last_modified (some now) ok error
                payload)
              w.db;
      }
      else w

-- The fetchers: each asks its source and gives its items, or raises. Those of the first two kinds
-- save their own state.
pub record Fetchers (N : Type 0) : Type 0 where
  pub fetch_rss : Source → World N → World N × FetchResult
  pub fetch_ghsa : Source → World N → World N × FetchResult
  pub fetch_nvd : Source → World N → World N × FetchResult
  pub fetch_redhat : Source → World N → World N × FetchResult
  pub fetch_recent_kev : Source → World N → World N × FetchResult

abbrev pub error_line : Error → String
error_line e = text_take 500 ((info e).kind <> ": " <> (info e).message)

module _ {N : Type 0} (engine : Engine) (senses : Senses N) (fetchers : Fetchers N) where
  -- A source of an unknown kind has no items.
  unfoldable pub ask : Source → World N → World N × FetchResult
  ask source w =
      if source.kind == "kev"
      then fetchers.fetch_recent_kev source w
      else if source.kind == "rss"
      then fetchers.fetch_rss source w
      else if source.kind == "ghsa"
      then fetchers.fetch_ghsa source w
      else if source.kind == "nvd"
      then fetchers.fetch_nvd source w
      else if source.kind == "redhat-api"
      then fetchers.fetch_redhat source w
      else (w, fetched [])

  abbrev pub saves_itself : Source → Bool
  saves_itself source = source.kind == "rss" || source.kind == "ghsa"

  unfoldable pub fetch_source_once : Source → World N → World N × FetchResult
  fetch_source_once source w =
      let state = load_state engine senses source.id w in
      let save : Bool → Option String → World N → World N =
        save_state engine senses source (etag_of state) (last_modified_of state) none in
      if is_due engine.iso source state (senses.clock w.net)
      then (let (w', result) = ask source w in
          elim result [
            | fetched items ↦ (if saves_itself source then w' else save true none w', fetched items)
            | skipped ↦ (w', skipped)
            | raised e ↦ (save false (some (error_line e)) w', raised e)
          ])
      else (w, skipped)
