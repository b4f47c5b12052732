-- ===== src/Search/Tests.antt =====
-- The search backend with an index that is a list of documents.
use sredevopsorg_sec_feed.Prelude.{
  if◌then◌else◌, ℕ, ◌≡◌, refl, ◌++◌, true, false, not, none, some, List, [], ◌∷◌, length,
  All-append, All-select, select, select-IsTrue, All-map, arith,
}
use sredevopsorg_sec_feed.Models.{DateTime, aware, ItemDict}
use sredevopsorg_sec_feed.Prelude.Int.{pos}
use sredevopsorg_sec_feed.Prelude.Dict.{insert}
use sredevopsorg_sec_feed.Fetcher.Inputs.{low_item, high_item}
use sredevopsorg_sec_feed.Store.{Db, Engine}
use sredevopsorg_sec_feed.Store.Tables.{empty_db, upsert_rows, live_count}
use sredevopsorg_sec_feed.Store.Sqlite.{query_feed, query_rows, row_to_item, upsert_items, row_of}
use sredevopsorg_sec_feed.Search.{
  Query, ensure_index, OpenSearch, SearchState, is_sample_doc, needs_sample_purge, bulk,
  doc_from_item, index_items, sync_archive, maybe_sync_archive, query_of, hit_to_item,
  search_opensearch, search, multi_match, term,
}
use sredevopsorg_sec_feed.Search.Live.{
  AllLive, IsIndex, Op, refreshed, synced, ensured, run_ops, run_ops-AllLive,
}
use sredevopsorg_sec_feed.Search.Fallback.{Asks, Answers, search-Answers}
use sredevopsorg_sec_feed.Search.Throttle.{Attempt, synced_at}

program : Unit {0}
unfolding needs_sample_purge bulk doc_from_item index_items sync_archive maybe_sync_archive query_of
    hit_to_item search_opensearch search synced_at ensure_index query_feed query_rows insert
    row_to_item empty_db upsert_items row_of upsert_rows live_count
program = tt

abbrev now : DateTime
now = aware 5_000_000 (pos 0)

abbrev engine : Engine
engine = record {
  iso = record { isoformat = λ d. "T"; fromisoformat = λ s. none };
  dumps = λ l. "[]";
  loads = λ s. [];
  like = λ p s. true;
}

-- A server that keeps what it is given and finds all of it.
abbrev server : OpenSearch (List ItemDict)
server = record {
  head = λ net. (net, some 404);
  put_index = λ net. (net, true);
  post_bulk = λ docs net. (net ++ docs, true);
  delete_samples = λ net. (select (λ d. not (is_sample_doc d)) net, some 1);
  post_search = λ q net. (net, some net);
}

-- A server that is down.
abbrev down : OpenSearch (List ItemDict)
down = record server {
  head = λ net. (net, none);
  post_bulk = λ docs net. (net, false);
  post_search = λ q net. (net, none);
}

abbrev documents : List ItemDict → List ItemDict
documents net = net

server-IsIndex : IsIndex server documents
server-IsIndex = record {
  head_keeps = λ net. refl;
  put_keeps = λ net. refl;
  bulk_adds = λ docs net live h. All-append _ net docs h live;
  deletes = λ net count e. live_ones net;
  delete_adds_none = λ net h. All-select _ (λ d. not (is_sample_doc d)) net h;
}
  where
    live_ones : (net : List ItemDict) → AllLive (select (λ d. not (is_sample_doc d)) net)
    live_ones net =
        All-map _ _ (λ (d : ItemDict) e. ground arith) (select (λ d. not (is_sample_doc d)) net)
          (select-IsTrue (λ d. not (is_sample_doc d)) net)

abbrev state : SearchState (List ItemDict)
state = record { configured = true; net = []; last_sync_at = none }

abbrev archive : Db
unfolding program
archive = (upsert_items engine "B" (low_item ∷ []) empty_db).0

abbrev ops : List Op
ops =
    ensured
    ∷ refreshed (high_item ∷ record low_item { is_sample = true } ∷ [])
    ∷ synced false 100 true archive
    ∷ []

run_ops-AllLive_example : AllLive (documents (run_ops engine now server ops state).net)
unfolding program
run_ops-AllLive_example =
    run_ops-AllLive engine now server documents server-IsIndex ops state
      (tt, (tt, (omega arith, tt))) tt

-- The refresh indexes the live item alone, and the sync the row of the archive.
two_documents : length (run_ops engine now server ops state).net ≡ 2
unfolding program
two_documents = refl

search-Answers_example :
    (query : Query) × Asks "runc" (some "kubernetes") none 50 query
    × Answers engine.iso now
        (some [])
        (if state.configured then (server.post_search query state.net).1 else none)
        (search server engine.iso now (some []) "runc" (some "kubernetes") none 50 state).1
search-Answers_example =
    search-Answers engine.iso now server (some []) "runc" (some "kubernetes") none 50 state

fallback :
    (search down engine.iso now (some []) "runc" none none 50 state).1
    ≡ some (record { backend = "sql"; count = 0; items = [] })
unfolding program
fallback = refl

filters :
    query_of "runc" (some "") (some "high") 50
    ≡ record { size = 50; must = multi_match "runc" ∷ []; filter = term "severity" "high" ∷ [] }
unfolding program
filters = refl

abbrev at_time : ℕ → Attempt
unfolding program
at_time t = record { time = t; archive = some (query_feed engine now none none 10 archive archive) }

-- The second attempt comes too early.
two_syncs : synced_at server (at_time 0 ∷ at_time 1799 ∷ at_time 1800 ∷ []) state ≡ 0 ∷ 1800 ∷ []
unfolding program at_time
two_syncs = refl
