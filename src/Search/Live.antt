-- ===== src/Search/Live.antt =====
-- The search index holds no sample item once the archive holds a live one.
use sredevopsorg_sec_feed.Prelude.{
  ℕ, ◌<◌, ◌≡◌, inl, inr, Bool, true, false, not, Option, none, some, List, [], ◌∷◌, map, select,
  all, arith, if◌then◌else◌, All, All-map, select-IsTrue, Bool-cases, Option-cases, String,
}
use sredevopsorg_sec_feed.Models.{DateTime, FeedItem, ItemDict, Iso, item_to_dict}
use sredevopsorg_sec_feed.Store.{Row, Db, Engine}
use sredevopsorg_sec_feed.Store.Tables.{live_count, live_clause}
use sredevopsorg_sec_feed.Store.Sqlite.{query_rows, query_feed, row_to_item}
use sredevopsorg_sec_feed.Store.Reads.{query_rows_lem}
use sredevopsorg_sec_feed.Search.{
  OpenSearch, SearchState, list_or_empty, is_sample_doc, without_age, needs_sample_purge,
  doc_from_item, bulk, index_items, sync_archive, maybe_sync_archive, ensure_index, is_identified,
}

abbrev pub AllLive : List ItemDict → Type 0
AllLive docs = All (λ doc. is_sample_doc doc ≡ false) docs

-- What the server does with its documents, whatever its answer: a bulk request writes at most the
-- documents that it is given, and a deletion that succeeds leaves no sample document, and one that
-- fails adds none.
pub record IsIndex {N : Type 0} (server : OpenSearch N) (documents : N → List ItemDict)
    : Type 0 where
  pub head_keeps : (net : N) → documents (server.head net).0 ≡ documents net
  pub put_keeps : (net : N) → documents (server.put_index net).0 ≡ documents net
  pub bulk_adds :
      (docs : List ItemDict) (net : N)
      → AllLive docs
      → AllLive (documents net)
      → AllLive (documents (server.post_bulk docs net).0)
  pub deletes :
      (net : N) (count : ℕ)
      → (server.delete_samples net).1 ≡ some count
      → AllLive (documents (server.delete_samples net).0)
  pub delete_adds_none :
      (net : N) → AllLive (documents net) → AllLive (documents (server.delete_samples net).0)

All-map_list {ℓ κ μ} :
    {A : Type ℓ} {B : Type κ} (P : B → Type μ) (f : A → B) (xs : List A)
    → All (λ x. P (f x)) xs
    → All P (map f xs)
All-map_list P f [] h = tt
All-map_list P f (x ∷ xs) h = (h.0, All-map_list P f xs h.1)

-- Once a live row was counted, the feed of the archive has live items alone.
pub query_feed-AllLive :
    (engine : Engine) (now : DateTime) (tag severity : Option String) (limit : ℕ) (counted db : Db)
    → 0 < live_count counted
    → AllLive (query_feed engine now tag severity limit counted db)
unfolding query_feed row_to_item item_to_dict live_clause
query_feed-AllLive engine now tag severity limit counted db h =
    let (short, sorted, passing) = query_rows_lem engine tag severity limit counted db in
    All-map_list _ (row_to_item engine now) (query_rows engine tag severity limit counted db) (
      All-map _ _ (λ (r : Row) p. ground arith) (query_rows engine tag severity limit counted db)
        passing)

module _ {N : Type 0} (server : OpenSearch N) (documents : N → List ItemDict)
    (index : IsIndex server documents) where
  bulk-AllLive :
      (docs : List ItemDict) (net : N)
      → AllLive docs
      → AllLive (documents net)
      → AllLive (documents (bulk server docs net).0)
  unfolding bulk
  bulk-AllLive [] net h k = k
  bulk-AllLive (doc ∷ docs) net h k = elim (Bool-cases (all is_identified (doc ∷ docs))) [
    | inl e ↦ rw e (index.bulk_adds (doc ∷ docs) net h k)
    | inr e ↦ rw e k
  ]

  index_items-AllLive :
      (iso : Iso) (now : DateTime) (items : List FeedItem) (s : SearchState N)
      → AllLive (documents s.net)
      → AllLive (documents (index_items server iso now items s).0.net)
  unfolding index_items doc_from_item item_to_dict
  index_items-AllLive iso now items s h = elim (Bool-cases s.configured) [
    | inl e ↦ rw e (
        bulk-AllLive _ s.net
          (All-map_list _ (doc_from_item iso now)
            (select (λ (item : FeedItem). not item.is_sample) items)
            (All-map _ _ (λ (item : FeedItem) p. ground arith) _
              (select-IsTrue (λ (item : FeedItem). not item.is_sample) items)))
          h)
    | inr e ↦ rw e h
  ]

  sync_archive-AllLive :
      (archive : Option (List ItemDict)) (s : SearchState N)
      → AllLive (list_or_empty archive)
      → AllLive (documents s.net)
      → AllLive (documents (sync_archive server archive s).0.net)
  unfolding sync_archive
  sync_archive-AllLive none s live h = h
  sync_archive-AllLive (some items) s live h = elim (Bool-cases s.configured) [
    | inr e ↦ rw e h
    | inl e ↦
        let docs : AllLive (map without_age items) = All-map_list _ without_age items live in
        let written = bulk-AllLive (map without_age items) s.net docs h in
        elim (Option-cases (bulk server (map without_age items) s.net).1) [
          | inl bad ↦ rw (e, bad) written
          | inr (n, good) ↦ elim (Bool-cases (needs_sample_purge items)) [
            | inl purge ↦ rw (e, good, purge) (index.delete_adds_none _ written)
            | inr keep ↦ rw (e, good, keep) written
          ]
        ]
  ]

  maybe_sync_archive-AllLive :
      (force : Bool) (now : ℕ) (archive : Option (List ItemDict)) (s : SearchState N)
      → AllLive (list_or_empty archive)
      → AllLive (documents s.net)
      → AllLive (documents (maybe_sync_archive server force now archive s).0.net)
  unfolding maybe_sync_archive
  maybe_sync_archive-AllLive force now archive s live h =
      ground (arith, sync_archive-AllLive archive s live h)

  ensure_index_keeps : (s : SearchState N) → documents (ensure_index server s).net ≡ documents s.net
  unfolding ensure_index
  ensure_index_keeps s =
      ground (arith, index.head_keeps s.net, index.put_keeps (server.head s.net).0)

  ensure_index-AllLive :
      (s : SearchState N)
      → AllLive (documents s.net)
      → AllLive (documents (ensure_index server s).net)
  ensure_index-AllLive s h = rw (ensure_index_keeps s) h

-- What the application does with the index: a refresh indexes its items, the archive is synced
-- (unless it cannot be read), the index is made sure of.
pub data Op : Type 0 where
  refreshed : List FeedItem → Op
  synced : Bool → ℕ → Bool → Db → Op
  ensured : Op

-- The archive of a sync has a live row.
abbrev pub HasLive : Op → Type 0
HasLive (refreshed items) = Unit
HasLive (synced force time readable db) = 0 < live_count db
HasLive ensured = Unit

module _ {N : Type 0} (engine : Engine) (now : DateTime) (server : OpenSearch N) where
  abbrev pub archive_of : Bool → Db → Option (List ItemDict)
  archive_of readable db =
      if readable then some (query_feed engine now none none 10_000 db db) else none

  abbrev pub apply_op : Op → SearchState N → SearchState N
  apply_op (refreshed items) s = (index_items server engine.iso now items s).0
  apply_op (synced force time readable db) s =
      (maybe_sync_archive server force time (archive_of readable db) s).0
  apply_op ensured s = ensure_index server s

  abbrev pub run_ops : List Op → SearchState N → SearchState N
  run_ops [] s = s
  run_ops (op ∷ ops) s = run_ops ops (apply_op op s)

  module _ (documents : N → List ItemDict) (index : IsIndex server documents) where
    archive_of-AllLive :
        (readable : Bool) (db : Db)
        → 0 < live_count db
        → AllLive (list_or_empty (archive_of readable db))
    archive_of-AllLive true db h = query_feed-AllLive engine now none none 10_000 db db h
    archive_of-AllLive false db h = tt

    apply_op-AllLive :
        (op : Op) (s : SearchState N)
        → HasLive op
        → AllLive (documents s.net)
        → AllLive (documents (apply_op op s).net)
    apply_op-AllLive (refreshed items) s live h =
        index_items-AllLive server documents index engine.iso now items s h
    apply_op-AllLive (synced force time readable db) s live h =
        maybe_sync_archive-AllLive server documents index force time (archive_of readable db) s
          (archive_of-AllLive readable db live) h
    apply_op-AllLive ensured s live h = ensure_index-AllLive server documents index s h

    -- While every sync finds a live row in the archive, the index never gets a sample item: if it
    -- holds none, it holds none after any refreshes, syncs (throttled or forced, of a readable
    -- archive or not) and index checks, for a server that writes at most the documents it is given.
    pub run_ops-AllLive :
        (ops : List Op) (s : SearchState N)
        → All HasLive ops
        → AllLive (documents s.net)
        → AllLive (documents (run_ops ops s).net)
    run_ops-AllLive [] s live h = h
    run_ops-AllLive (op ∷ ops) s live h =
        run_ops-AllLive ops (apply_op op s) live.1 (apply_op-AllLive op s live.0 h)
