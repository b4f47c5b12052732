-- ===== src/Search.antt =====
-- The search backend (app/search.py): the index in OpenSearch and the fallback to the archive.
-- OpenSearch is an interface; every exception of a call is one outcome.
pub mod Live
pub mod Fallback
pub mod Throttle
mod Tests
use sredevopsorg_sec_feed.Prelude.{
  ℕ, ◌+◌, ◌-◌, ◌*◌, ◌/◌, String, Bool, true, false, not, ◌&&◌, Option, none, some, List, [], ◌∷◌,
  ◌++◌, map, length, select, any, all, ltb, nat_eq, if◌then◌else◌,
}
use sredevopsorg_sec_feed.Prelude.Texts.{is_blank, replace_char}
use sredevopsorg_sec_feed.Models.{
  DateTime, utc, ensure_aware, FeedItem, ItemDict, Iso, item_to_dict, time_ago, map_option,
  or_false,
}

-- A clause of a query's `must` or `filter`.
pub data Clause : Type 0 where
  multi_match : String → Clause
  match_all : Clause
  term : String → String → Clause

pub record Query : Type 0 where
  pub size : ℕ
  pub must : List Clause
  pub filter : List Clause

-- The requests to the server: `none` and `false` are exceptions, those of `raise_for_status` too.
pub record OpenSearch (N : Type 0) : Type 0 where
  pub head : N → N × Option ℕ
  pub put_index : N → N × Bool
  pub post_bulk : List ItemDict → N → N × Bool
  pub delete_samples : N → N × Option ℕ
  pub post_search : Query → N → N × Option (List ItemDict)

-- `OPENSEARCH_URL` is set or not; `_last_sync_at` in seconds.
pub record SearchState (N : Type 0) : Type 0 where
  pub configured : Bool
  pub net : N
  pub last_sync_at : Option ℕ

pub record SearchResult : Type 0 where
  pub backend : String
  pub count : ℕ
  pub items : List ItemDict

abbrev pub sync_interval : ℕ
sync_interval = 30 * 60

abbrev pub list_or_empty {ℓ} : {A : Type ℓ} → Option (List A) → List A
list_or_empty none = []
list_or_empty (some l) = l

abbrev pub is_sample_doc : ItemDict → Bool
is_sample_doc doc = or_false doc.is_sample

abbrev pub is_identified : ItemDict → Bool
is_identified doc = elim doc.id [ none ↦ false | some id ↦ true ]

-- `doc.pop("time_ago", None)`
abbrev pub without_age : ItemDict → ItemDict
without_age doc = record doc { time_ago = none }

-- `_needs_sample_purge`
unfoldable pub needs_sample_purge : List ItemDict → Bool
needs_sample_purge items = any (λ item. not (is_sample_doc item)) items

module _ (iso : Iso) where
  -- `_doc_from_item`
  unfoldable pub doc_from_item : DateTime → FeedItem → ItemDict
  unfolding item_to_dict
  doc_from_item now item = without_age (item_to_dict iso item now)

  abbrev pub age_text : DateTime → Option String → Option String
  age_text now none = none
  age_text now (some text) =
      map_option (λ published. time_ago ((utc now - utc (ensure_aware published)) / 1_000_000))
        (iso.fromisoformat (replace_char "Z" "+00:00" text))

  -- `_hit_to_item`. An indexed document has the two lists, or lacks the keys.
  unfoldable pub hit_to_item : DateTime → ItemDict → ItemDict
  unfolding time_ago ensure_aware
  hit_to_item now source = record source {
    tags = some (list_or_empty source.tags);
    cves = some (list_or_empty source.cves);
    time_ago = age_text now source.published;
  }

abbrev pub or_zero : Option ℕ → ℕ
or_zero none = 0
or_zero (some n) = n

abbrev pub term_of : String → Option String → List Clause
term_of key none = []
term_of key (some value) = if is_blank value then [] else term key value ∷ []

-- The body of the query of `_search_opensearch`.
unfoldable pub query_of : String → Option String → Option String → ℕ → Query
query_of q tag severity limit = record {
  size = limit;
  must = (if is_blank q then match_all else multi_match q) ∷ [];
  filter = term_of "tags" tag ++ term_of "severity" severity;
}

abbrev pub sql_result : Option (List ItemDict) → Option SearchResult
sql_result = map_option (λ items. record { backend = "sql"; count = length items; items = items })

module _ {N : Type 0} (server : OpenSearch N) where
  unfoldable pub ensure_index : SearchState N → SearchState N
  ensure_index s =
      if not s.configured
      then s
      else (let (asked, status) = server.head s.net in
          let there : Bool = elim status [ none ↦ true | some code ↦ nat_eq code 200 ] in
          record s { net = if there then asked else (server.put_index asked).0 })

  -- `_bulk`: `none` is an exception, of the server or of a document without an id.
  unfoldable pub bulk : List ItemDict → N → N × Option ℕ
  bulk [] net = (net, some 0)
  bulk (doc ∷ docs) net =
      let (net', done) = server.post_bulk (doc ∷ docs) net in
      if all is_identified (doc ∷ docs)
      then (net', if done then some (length (doc ∷ docs)) else none)
      else (net, none)

  unfoldable pub index_items : Iso → DateTime → List FeedItem → SearchState N → SearchState N × ℕ
  unfolding bulk doc_from_item
  index_items iso now items s =
      if not s.configured
      then (s, 0)
      else (let (net, count) =
            bulk
              (map (doc_from_item iso now) (select (λ (item : FeedItem). not item.is_sample) items))
              s.net in
          (record s { net = net }, or_zero count))

  -- `archive` is what `store.query_feed` gives, `none` an exception.
  unfoldable pub sync_archive : Option (List ItemDict) → SearchState N → SearchState N × ℕ
  unfolding bulk needs_sample_purge
  sync_archive none s = (s, 0)
  sync_archive (some items) s =
      if not s.configured
      then (s, 0)
      else (let (net, count) = bulk (map without_age items) s.net in
          elim count [
            | none ↦ (record s { net = net }, 0)
            | some indexed ↦ (
              record s {
                net = if needs_sample_purge items then (server.delete_samples net).0 else net;
              },
              indexed,
            )
          ])

  unfoldable pub maybe_sync_archive :
      Bool → ℕ → Option (List ItemDict) → SearchState N → SearchState N × ℕ
  unfolding sync_archive
  maybe_sync_archive force now archive s =
      let recent : Bool = elim s.last_sync_at [
        | none ↦ false
        | some last ↦ ltb now (last + sync_interval)
      ] in
      if not s.configured
      then (s, 0)
      else if not force && recent
      then (s, 0)
      else (let (s', count) = sync_archive archive s in
          (if ltb 0 count then record s' { last_sync_at = some now } else s', count))

  unfoldable pub search_opensearch :
      Iso → DateTime → String → Option String → Option String → ℕ → N → N × Option SearchResult
  unfolding query_of hit_to_item
  search_opensearch iso now q tag severity limit net =
      let (net', hits) = server.post_search (query_of q tag severity limit) net in
      (
        net',
        map_option
            (λ found.
              let items = map (hit_to_item iso now) found in
              record { backend = "opensearch"; count = length items; items = items })
            hits,
      )

  -- `sql` is what `store.search_feed` gives; `none` is an exception.
  unfoldable pub search :
      Iso
      → DateTime
      → Option (List ItemDict)
      → String
      → Option String
      → Option String
      → ℕ
      → SearchState N
      → SearchState N × Option SearchResult
  unfolding search_opensearch
  search iso now sql q tag severity limit s =
      if not s.configured
      then (s, sql_result sql)
      else (let (net, found) = search_opensearch iso now q tag severity limit s.net in
          (
            record s { net = net },
            elim found [ none ↦ sql_result sql | some result ↦ some result ],
          ))
