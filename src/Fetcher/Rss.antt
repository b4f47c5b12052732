-- ===== src/Fetcher/Rss.antt =====
-- The RSS fetcher (app/fetcher.py): `_first_text`, `_published_from_entry` and `_fetch_rss`. The
-- HTTP client and the feed parser are parameters.
pub mod Conditional
pub mod Items
mod Tests
use sredevopsorg_sec_feed.Prelude.{
  ℕ, ◌+◌, String, ◌<>◌, Bool, true, false, ◌&&◌, ◌||◌, not, Option, none, some, List, [], ◌∷◌, map,
  take, member, leb, ltb, nat_eq, if◌then◌else◌, ◌==◌,
}
use sredevopsorg_sec_feed.Prelude.Texts.{is_blank, text_or, occurs_in}
use sredevopsorg_sec_feed.Runtime.{TextOps}
use sredevopsorg_sec_feed.Models.{
  DateTime, ensure_aware, FeedItem, hash_item, ItemDict, item_to_dict, map_option,
}
use sredevopsorg_sec_feed.Sources.{Source}
use sredevopsorg_sec_feed.Store.{SourceState, Engine}
use sredevopsorg_sec_feed.Fetcher.Infer.{
  strip_html, truncate, extract_cvss_score, is_relevant, extract_cves, infer_severity, infer_tags,
}
use sredevopsorg_sec_feed.Fetcher.Patch.{patch_status_from_text}
use sredevopsorg_sec_feed.Fetcher.Gather.{Error, FetchResult, fetched, raised}
use sredevopsorg_sec_feed.Fetcher.Fetching.{
  World, Senses, validator_headers, etag_of, last_modified_of, stored_items, load_state, save_state,
}

-- A value of an entry: a text, a list (as the texts of its elements), or anything else, which is
-- the text of it if it is true.
pub data Value : Type 0 where
  a_text : String → Value
  a_list : List String → Value
  other : Option String → Value

-- A time that the parser found: missing, or the six numbers that `datetime` takes, which may be
-- out of range.
pub data ParsedTime : Type 0 where
  no_time : ParsedTime
  bad_time : ParsedTime
  good_time : DateTime → ParsedTime

-- An entry of a feed. A missing key is the default that the code gives.
pub record Entry : Type 0 where
  pub title : Value
  pub summary : Value
  pub description : Value
  pub link : String
  pub published_parsed : ParsedTime
  pub updated_parsed : ParsedTime
  pub created_parsed : ParsedTime
  pub published : Option String
  pub updated : Option String

pub record Response (B : Type 0) : Type 0 where
  pub status : ℕ
  pub etag : Option String
  pub last_modified : Option String
  pub content : B

pub data Answer (B : Type 0) : Type 0 where
  answered : Response B → Answer B
  failed : Error → Answer B

-- `client.get`, the exception of `raise_for_status`, and `feedparser.parse(content).entries`;
-- `parse_date` is `parsedate_to_datetime`, and `none` an exception.
pub record Http (N B : Type 0) : Type 0 where
  pub get : String → List (String × String) → N → N × Answer B
  pub status_error : Response B → Error
  pub entries : B → List Entry
  pub parse_date : String → Option DateTime

unfoldable pub first_text : TextOps → Value → String
first_text ops (a_text s) = ops.strip s
first_text ops (a_list []) = ""
first_text ops (a_list (s ∷ rest)) = ops.strip s
first_text ops (other none) = ""
first_text ops (other (some s)) = ops.strip s

abbrev pub first_of {ℓ} : {A : Type ℓ} → Option A → Option A → Option A
first_of none b = b
first_of (some a) b = some a

abbrev pub good : ParsedTime → Option DateTime
good no_time = none
good bad_time = none
good (good_time t) = some t

unfoldable pub published_from_entry : TextOps → (String → Option DateTime) → Entry → Option DateTime
unfolding ensure_aware
published_from_entry ops parse_date entry =
    let raw : Option String → Option DateTime = λ value. elim value [
      | none ↦ none
      | some s ↦ if is_blank (ops.strip s) then none else map_option ensure_aware (parse_date s)
    ] in
    first_of (good entry.published_parsed) (
      first_of (good entry.updated_parsed)
        (first_of (good entry.created_parsed) (first_of (raw entry.published) (raw entry.updated))))

abbrev pub urgent_severities : List String
urgent_severities = "critical" ∷ "high" ∷ []

module _ (ops : TextOps) (hash : String → String) (parse_date : String → Option DateTime) where
  -- The body of the loop: `none` is `continue`.
  unfoldable pub rss_item : Source → Entry → Option FeedItem
  rss_item source entry =
      let title = first_text ops entry.title in
      let raw_summary = text_or (first_text ops entry.summary) (first_text ops entry.description) in
      let summary = truncate ops (strip_html ops raw_summary) 320 in
      let text = title <> " " <> summary in
      let cves = extract_cves ops text in
      let tags = infer_tags ops text source.tags cves in
      let score = if source.id == "cisa" then extract_cvss_score ops raw_summary else none in
      let severity = infer_severity ops text score in
      if is_blank title
      then none
      else if not (is_relevant ops source.id text)
      then none
      else some (record {
        id = hash_item hash entry.link title;
        title = title;
        summary = summary;
        url = entry.link;
        source = source.name;
        source_url = source.url;
        published = published_from_entry ops parse_date entry;
        tags = tags;
        cves = cves;
        severity = severity;
        urgent =
            member severity urgent_severities
            && (member "exploit" tags || occurs_in "exploit" (ops.lower text));
        kev = false;
        epss_score = none;
        is_sample = false;
        osv_affected = [];
        osv_fixed = [];
        osv_severity = none;
        patch_status = patch_status_from_text ops source.id text;
      })

  unfoldable pub rss_items : Source → List Entry → List FeedItem
  rss_items source [] = []
  rss_items source (entry ∷ entries) =
      let rest = rss_items source entries in
      elim (rss_item source entry) [ none ↦ rest | some item ↦ item ∷ rest ]

-- `resp.headers.get(...) or (state or {}).get(...)`
abbrev pub header_or : Option String → Option String → Option String
header_or none old = old
header_or (some value) old = if is_blank value then old else some value

abbrev pub is_success : ℕ → Bool
is_success status = leb 200 status && ltb status 300

module _ {N B : Type 0} (ops : TextOps) (hash : String → String) (engine : Engine)
    (senses : Senses N) (http : Http N B) where
  -- The second half of the function, from `raise_for_status` on. The dictionaries of the payload
  -- are made at one time.
  unfoldable pub rss_body : Source → Response B → World N → World N × FetchResult
  rss_body source resp w =
      let items =
        rss_items ops hash http.parse_date source
          (take source.max_items (http.entries resp.content)) in
      let payload =
        map (λ item. item_to_dict engine.iso item (senses.clock w.net))
          (take source.max_items items) in
      if is_success resp.status
      then (
        save_state engine senses source resp.etag resp.last_modified (some payload) true none w,
        fetched items,
      )
      else (w, raised (http.status_error resp))

  -- `client.get(url)` and what follows.
  unfoldable pub rss_fresh : Source → List (String × String) → World N → World N × Answer B
  rss_fresh source headers w =
      let (net, answer) = http.get source.url headers w.net in (record w { net = net }, answer)

  unfoldable pub rss_rest : Source → World N × Answer B → World N × FetchResult
  rss_rest source (w, answered resp) = rss_body source resp w
  rss_rest source (w, failed e) = (w, raised e)

  unfoldable pub fetch_rss : Source → World N → World N × FetchResult
  fetch_rss source w =
      let state = load_state engine senses source.id w in
      let (w1, answer) = rss_fresh source (validator_headers state) w in
      elim answer [
        | failed e ↦ (w1, raised e)
        | answered resp ↦
            if nat_eq resp.status 304
            then elim (stored_items engine.iso state) [
              | some cached ↦ (
                save_state engine senses source (header_or resp.etag (etag_of state))
                    (header_or resp.last_modified (last_modified_of state)) none true none w1,
                fetched (take source.max_items cached),
              )
              | none ↦ rss_rest source (rss_fresh source [] w1)
            ]
            else rss_body source resp w1
      ]
