-- ===== src/Search/Fallback.antt =====
-- What a search asks for and what it answers.
use sredevopsorg_sec_feed.Prelude.{
  ℕ, ◌-◌, ◌/◌, String, ◌≡◌, refl, inl, inr, true, false, not, Option, none, some, List, [], ◌∷◌,
  ◌++◌, map, length, if◌then◌else◌, Bool-cases, Option-cases,
}
use sredevopsorg_sec_feed.Prelude.Texts.{is_blank, replace_char}
use sredevopsorg_sec_feed.Models.{DateTime, utc, ensure_aware, time_ago, ItemDict, Iso}
use sredevopsorg_sec_feed.Search.{
  Clause, multi_match, match_all, term, Query, term_of, OpenSearch, SearchState, SearchResult,
  sql_result, hit_to_item, query_of, search_opensearch, search,
}

-- A filter on a key, for a value that is given and not empty.
abbrev pub filter_of : String → Option String → List Clause
filter_of key none = []
filter_of key (some value) = if not (is_blank value) then term key value ∷ [] else []

filter_same : (key : String) (value : Option String) → term_of key value ≡ filter_of key value
filter_same key none = refl
filter_same key (some value) = elim (Bool-cases (is_blank value)) [
  | inl e ↦ rw e refl
  | inr e ↦ rw e refl
]

-- What is asked for: at most `limit` hits, for the text if there is one and for everything
-- otherwise, with the tag and the severity that are given.
pub record Asks (q : String) (tag severity : Option String) (limit : ℕ) (query : Query)
    : Type 0 where
  pub limited : query.size ≡ limit
  pub any_text : is_blank q ≡ true → query.must ≡ match_all ∷ []
  pub with_text : is_blank q ≡ false → query.must ≡ multi_match q ∷ []
  pub filtered : query.filter ≡ filter_of "tags" tag ++ filter_of "severity" severity

query_of-Asks :
    (q : String) (tag severity : Option String) (limit : ℕ)
    → Asks q tag severity limit (query_of q tag severity limit)
unfolding query_of
query_of-Asks q tag severity limit = record {
  limited = refl;
  any_text = λ e. rw e refl;
  with_text = λ e. rw e refl;
  filtered = rw (filter_same "tags" tag, filter_same "severity" severity) refl;
}

module _ (iso : Iso) (now : DateTime) where
  -- What becomes of a hit: every field is that of the document, a missing list is empty, and the
  -- age is that of the published time, if this can be read.
  pub record IsHit (doc item : ItemDict) : Type 0 where
    pub same_texts :
        (item.id ≡ doc.id)
        × (item.title ≡ doc.title)
        × (item.summary ≡ doc.summary)
        × (item.url ≡ doc.url)
        × (item.source ≡ doc.source)
        × (item.source_url ≡ doc.source_url)
    pub same_published : item.published ≡ doc.published
    pub same_severity : item.severity ≡ doc.severity
    pub same_flags :
        (item.urgent ≡ doc.urgent) × (item.kev ≡ doc.kev) × (item.is_sample ≡ doc.is_sample)
    pub same_score : item.epss_score ≡ doc.epss_score
    pub same_osv :
        (item.osv_affected ≡ doc.osv_affected)
        × (item.osv_fixed ≡ doc.osv_fixed)
        × (item.osv_severity ≡ doc.osv_severity)
    pub same_patch_status : item.patch_status ≡ doc.patch_status
    pub tags_kept : (tags : List String) → doc.tags ≡ some tags → item.tags ≡ some tags
    pub tags_missing : doc.tags ≡ none → item.tags ≡ some []
    pub cves_kept : (cves : List String) → doc.cves ≡ some cves → item.cves ≡ some cves
    pub cves_missing : doc.cves ≡ none → item.cves ≡ some []
    pub undated : doc.published ≡ none → item.time_ago ≡ none
    pub unread :
        (text : String)
        → doc.published ≡ some text
        → iso.fromisoformat (replace_char "Z" "+00:00" text) ≡ none
        → item.time_ago ≡ none
    pub dated :
        (text : String) (t : DateTime)
        → doc.published ≡ some text
        → iso.fromisoformat (replace_char "Z" "+00:00" text) ≡ some t
        → item.time_ago ≡ some (time_ago ((utc now - utc (ensure_aware t)) / 1_000_000))

  -- Each item is made of its document.
  abbrev pub AreHits : List ItemDict → List ItemDict → Type 0
  AreHits [] [] = Unit
  AreHits [] (item ∷ items) = ⊥
  AreHits (doc ∷ docs) [] = ⊥
  AreHits (doc ∷ docs) (item ∷ items) = IsHit doc item × AreHits docs items

  hit_to_item-IsHit : (doc : ItemDict) → IsHit doc (hit_to_item iso now doc)
  unfolding hit_to_item
  hit_to_item-IsHit doc = record {
    same_texts = (refl, refl, refl, refl, refl, refl);
    same_published = refl;
    same_severity = refl;
    same_flags = (refl, refl, refl);
    same_score = refl;
    same_osv = (refl, refl, refl);
    same_patch_status = refl;
    tags_kept = λ tags e. rw e refl;
    tags_missing = λ e. rw e refl;
    cves_kept = λ cves e. rw e refl;
    cves_missing = λ e. rw e refl;
    undated = λ e. rw e refl;
    unread = λ text e f. rw (e, f) refl;
    dated = λ text t e f. rw (e, f) refl;
  }

  map-AreHits : (docs : List ItemDict) → AreHits docs (map (hit_to_item iso now) docs)
  map-AreHits [] = tt
  map-AreHits (doc ∷ docs) = (hit_to_item-IsHit doc, map-AreHits docs)

  -- A result names its backend, counts its items, and has those of the server's documents if there
  -- are any, and those of the archive otherwise.
  pub data Answers (sql hits : Option (List ItemDict)) : Option SearchResult → Type 0 where
    by_server :
        {docs items : List ItemDict}
        → hits ≡ some docs
        → AreHits docs items
        → Answers sql hits
            (some (record { backend = "opensearch"; count = length items; items = items }))
    by_archive :
        {items : List ItemDict}
        → hits ≡ none
        → sql ≡ some items
        → Answers sql hits (some (record { backend = "sql"; count = length items; items = items }))
    unanswered : hits ≡ none → sql ≡ none → Answers sql hits none

  by_sql : (sql hits : Option (List ItemDict)) → hits ≡ none → Answers sql hits (sql_result sql)
  by_sql none hits h = Answers.unanswered h refl
  by_sql (some items) hits h = Answers.by_archive h refl

  -- A search asks the server, if it is configured, for at most limit hits with the text, the tag
  -- and the severity that are given. If the server answers, the items are its hits, each with the
  -- fields of its document, empty lists for missing ones and the age of its date; otherwise they
  -- are the archive's. The result names the backend and counts its items, and there is none only if
  -- the archive cannot be read and the server gave nothing.
  pub search-Answers :
      {N : Type 0} (server : OpenSearch N) (sql : Option (List ItemDict)) (q : String)
      (tag severity : Option String) (limit : ℕ) (s : SearchState N)
      → (query : Query) × Asks q tag severity limit query
        × Answers sql
            (if s.configured then (server.post_search query s.net).1 else none)
            (search server iso now sql q tag severity limit s).1
  unfolding search search_opensearch
  search-Answers server sql q tag severity limit s =
      let query = query_of q tag severity limit in
      let asked = query_of-Asks q tag severity limit in
      elim (Bool-cases s.configured) [
        | inr off ↦ (query, asked, rw off (by_sql sql none refl))
        | inl on ↦ elim (Option-cases (server.post_search query s.net).1) [
          | inl down ↦ (query, asked, rw (on, down) (by_sql sql none refl))
          | inr (found, up) ↦
              (query, asked, rw (on, up) (Answers.by_server refl (map-AreHits found)))
        ]
      ]
