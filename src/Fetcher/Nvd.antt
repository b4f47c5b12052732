-- ===== src/Fetcher/Nvd.antt =====
-- The NVD fetcher (app/fetcher.py): the fields of a CVE, `_nvd_items`, `_nvd_window_url`,
-- `_nvd_stagger_slot` and `_fetch_nvd`. A score is in millionths, a time in microseconds. The
-- fields of the answer are those of the NVD API, in its types; a missing one is the default that
-- the code gives.
pub mod Stagger
pub mod Outcome
mod Tests
use sredevopsorg_sec_feed.Prelude.{
  ℕ, ◌+◌, ◌-◌, ◌*◌, String, ◌<>◌, Bool, true, false, ◌&&◌, Option, none, some, List, [], ◌∷◌, ◌++◌,
  member, leb, ltb, nat_eq, if◌then◌else◌, ◌==◌,
}
use sredevopsorg_sec_feed.Prelude.Int.{ℤ, pos_part}
use sredevopsorg_sec_feed.Prelude.Dict.{Dict, insert}
use sredevopsorg_sec_feed.Prelude.Results.{Result, ok, err, ◌>>=◌}
use sredevopsorg_sec_feed.Prelude.Texts.{is_blank, replace_char, decimal}
use sredevopsorg_sec_feed.Runtime.{TextOps}
use sredevopsorg_sec_feed.Models.{DateTime, utc, FeedItem, hash_item, Iso}
use sredevopsorg_sec_feed.Sources.{Source}
use sredevopsorg_sec_feed.Fetcher.Infer.{maximum, infer_severity, infer_tags}
use sredevopsorg_sec_feed.Fetcher.Gather.{Error, root, FetchResult}
use sredevopsorg_sec_feed.Fetcher.Fetching.{World, Senses}
use sredevopsorg_sec_feed.Fetcher.Rss.{urgent_severities}
use sredevopsorg_sec_feed.Fetcher.Newest.{RestClient, answer_json, newest, as_fetched}

-- The `baseScore` of each metric, `none` if it is no number, by the key of the metric.
pub record Metrics : Type 0 where
  pub v40 : List (Option ℕ)
  pub v31 : List (Option ℕ)
  pub v30 : List (Option ℕ)
  pub v2 : List (Option ℕ)

pub record Description : Type 0 where
  pub lang : String
  pub value : String

-- `wrapper.get("cve", {})`; `references` are their URLs.
pub record Cve : Type 0 where
  pub id : String
  pub metrics : Metrics
  pub descriptions : List Description
  pub references : List String
  pub published : Option String

pub record NvdPage : Type 0 where
  pub total_results : ℕ
  pub vulnerabilities : List Cve

abbrev pub numbers : List (Option ℕ) → List ℕ
numbers [] = []
numbers (none ∷ rest) = numbers rest
numbers (some n ∷ rest) = n ∷ numbers rest

unfoldable pub nvd_cvss_score : Metrics → Option ℕ
unfolding maximum
nvd_cvss_score m = maximum (numbers m.v40 ++ numbers m.v31 ++ numbers m.v30 ++ numbers m.v2)

unfoldable pub nvd_english_description : List Description → String
nvd_english_description [] = ""
nvd_english_description (d ∷ rest) =
    if d.lang == "en" then d.value else nvd_english_description rest

abbrev pub nvd_reference_url : Cve → String
nvd_reference_url cve = elim cve.references [
  | [] ↦ "https://nvd.nist.gov/vuln/detail/" <> cve.id
  | url ∷ rest ↦ url
]

-- `datetime.fromisoformat(raw.replace("Z", "+00:00"))`, and `None` for an exception or no text.
unfoldable pub parse_zulu : Iso → Option String → Option DateTime
parse_zulu iso none = none
parse_zulu iso (some raw) =
    if is_blank raw then none else iso.fromisoformat (replace_char "Z" "+00:00" raw)

module _ (ops : TextOps) (hash : String → String) (iso : Iso) where
  -- The item of a CVE that has an id.
  unfoldable pub nvd_item : Source → Cve → FeedItem
  unfolding parse_zulu nvd_cvss_score nvd_english_description
  nvd_item source cve =
      let description = nvd_english_description cve.descriptions in
      let text = cve.id <> " " <> description in
      let tags = infer_tags ops text source.tags (cve.id ∷ []) in
      let severity = infer_severity ops text (nvd_cvss_score cve.metrics) in
      record {
        id = hash_item hash cve.id cve.id;
        title = cve.id;
        summary = description;
        url = nvd_reference_url cve;
        source = source.name;
        source_url = source.url;
        published = parse_zulu iso cve.published;
        tags = tags;
        cves = cve.id ∷ [];
        severity = severity;
        urgent = member severity urgent_severities && member "exploit" tags;
        kev = false;
        epss_score = none;
        is_sample = false;
        osv_affected = [];
        osv_fixed = [];
        osv_severity = none;
        patch_status = "unknown";
      }

  unfoldable pub nvd_items : Source → List Cve → List FeedItem
  unfolding nvd_item
  nvd_items source [] = []
  nvd_items source (cve ∷ cves) =
      let rest = nvd_items source cves in
      if is_blank cve.id then rest else nvd_item source cve ∷ rest

abbrev pub at_least : ℕ → ℕ → ℕ
at_least a b = if leb a b then b else a

-- `dict(parse_qsl(urlparse(url).query))`, `urlunparse(url._replace(query=urlencode(params)))`, and
-- `strftime("%Y-%m-%dT%H:%M:%S")` of a moment.
pub record UrlOps : Type 0 where
  pub query_of : String → Dict String
  pub with_query : String → Dict String → String
  pub strftime : ℕ → String

abbrev pub whole_day : ℕ
whole_day = 86_400_000_000

abbrev pub overflow_error : Error
overflow_error = root (record {
  kind = "OverflowError";
  message = "date value out of range";
  is_timeout = false;
  is_transport = false;
})

-- The parameters of the query; `now` is the current moment.
unfoldable pub window_params : UrlOps → String → ℕ → ℕ → Option ℕ → ℕ → Dict String
unfolding insert
window_params urls source_url results_per_page days start_index now =
    let params = insert "resultsPerPage" (decimal (at_least 1 results_per_page)) (
      insert "pubEndDate" (urls.strftime now <> ".999") (
        insert "pubStartDate" (urls.strftime (now - at_least 1 days * whole_day) <> ".000")
          (urls.query_of source_url))) in
    elim start_index [ none ↦ params | some i ↦ insert "startIndex" (decimal i) params ]

-- Subtracting more days than have passed since the year 1 is an exception.
unfoldable pub nvd_window_url : UrlOps → String → ℕ → ℕ → Option ℕ → ℕ → Result Error String
unfolding window_params
nvd_window_url urls source_url results_per_page days start_index now =
    if ltb now (at_least 1 days * whole_day)
    then err overflow_error
    else ok (
        urls.with_query source_url
          (window_params urls source_url results_per_page days start_index now))

-- `NVD_STAGGER_SECONDS`
abbrev pub nvd_stagger : ℕ
nvd_stagger = 2_000_000

-- The module's variables: the loop of the lock, and the next start.
pub record Slots : Type 0 where
  pub slot_loop : Option ℕ
  pub next_start : ℕ

abbrev pub is_loop : Option ℕ → ℕ → Bool
is_loop none loop = false
is_loop (some l) loop = nat_eq l loop

-- The part of `_nvd_stagger_slot` under the lock: the slots, and the start that was reserved.
unfoldable pub reserve : ℕ → ℕ → Slots → Slots × ℕ
reserve loop now slots =
    let next = if is_loop slots.slot_loop loop then slots.next_start else 0 in
    let start = at_least now next in
    (record { slot_loop = some loop; next_start = start + nvd_stagger }, start)

-- The outside of the fetcher with the module's variables.
pub record Line (M : Type 0) : Type 0 where
  pub slots : Slots
  pub outside : M

-- `asyncio.get_running_loop()`, its `time`, and `asyncio.sleep`.
pub record EventLoop (M : Type 0) : Type 0 where
  pub running : M → ℕ
  pub time : M → ℕ
  pub sleep : ℕ → M → M

unfoldable pub nvd_stagger_slot : {M : Type 0} → EventLoop M → Line M → Line M
unfolding reserve
nvd_stagger_slot loop line =
    let now = loop.time line.outside in
    let (slots, start) = reserve (loop.running line.outside) now line.slots in
    record {
      slots = slots;
      outside = if ltb now start then loop.sleep (start - now) line.outside else line.outside;
    }

-- What the fetcher is given.
pub record Nvd (M B : Type 0) : Type 0 where
  pub ops : TextOps
  pub hash : String → String
  pub iso : Iso
  pub urls : UrlOps
  pub loop : EventLoop M
  pub client : RestClient M B NvdPage
  pub nvd_window_days : ℤ

module _ {M B : Type 0} (nvd : Nvd M B) (senses : Senses (Line M)) where
  -- One request: the slot, the URL, `client.get`, and the body.
  unfoldable pub nvd_request :
      Source → ℕ → ℕ → Option ℕ → World (Line M) → World (Line M) × Result Error NvdPage
  unfolding nvd_stagger_slot nvd_window_url
  nvd_request source page_size days start_index w =
      let line = nvd_stagger_slot nvd.loop w.net in
      let url = nvd_window_url nvd.urls source.url page_size days start_index in
      elim (url (utc (senses.clock line))) [
        | err e ↦ (record w { net = line }, err e)
        | ok u ↦
            let (outside, answer) = nvd.client.get u [] line.outside in
            (record w { net = record line { outside = outside } }, answer_json nvd.client answer)
      ]

  abbrev pub items_of_page : Source → NvdPage → Result Error (List FeedItem)
  items_of_page source page = ok (nvd_items nvd.ops nvd.hash nvd.iso source page.vulnerabilities)

  abbrev pub page_size_of : Source → ℕ
  page_size_of source = at_least 100 (source.max_items * 10)

  -- The second request, of the last page.
  abbrev pub last_page :
      Source → NvdPage → World (Line M) → World (Line M) × Result Error (List FeedItem)
  last_page source page w =
      let run =
        nvd_request source source.max_items (at_least 1 (pos_part nvd.nvd_window_days))
          (some (page.total_results - source.max_items)) w in
      (run.0, run.1 >>= items_of_page source)

  -- The items of the page that is kept.
  unfoldable pub nvd_found : Source → World (Line M) → World (Line M) × Result Error (List FeedItem)
  unfolding nvd_items
  nvd_found source w =
      let run =
        nvd_request source (page_size_of source) (at_least 1 (pos_part nvd.nvd_window_days)) none
          w in
      elim run.1 [
        | err e ↦ (run.0, err e)
        | ok page ↦
            if ltb (page_size_of source) page.total_results
            then last_page source page run.0
            else (run.0, items_of_page source page)
      ]

  unfoldable pub fetch_nvd : Source → World (Line M) → World (Line M) × FetchResult
  unfolding nvd_found newest
  fetch_nvd source w =
      let found = nvd_found source w in (found.0, as_fetched (found.1 >>= newest source.max_items))
