-- ===== src/Enrich/Kev.antt =====
-- The KEV source (app/enrich.py): `_kev_reference`, `_kev_added_at` and `fetch_recent_kev`. A time
-- is in microseconds.
pub mod Items
pub mod Recent
mod Tests
use sredevopsorg_sec_feed.Prelude.{
  ℕ, ◌-◌, ◌*◌, String, ◌<>◌, Bool, true, false, not, Option, none, some, List, [], ◌∷◌, select,
  take, leb, ltb, if◌then◌else◌,
}
use sredevopsorg_sec_feed.Prelude.Int.{ℤ, pos, pos_part}
use sredevopsorg_sec_feed.Prelude.Dict.{Dict}
use sredevopsorg_sec_feed.Prelude.Sets.{add}
use sredevopsorg_sec_feed.Prelude.Sort.{sort}
use sredevopsorg_sec_feed.Prelude.Results.{Result, ok, err}
use sredevopsorg_sec_feed.Prelude.Texts.{is_blank, join}
use sredevopsorg_sec_feed.Runtime.{TextOps}
use sredevopsorg_sec_feed.Models.{aware, FeedItem, hash_item}
use sredevopsorg_sec_feed.Sources.{Source}
use sredevopsorg_sec_feed.Fetcher.Infer.{
  strip_html, truncate, extract_cvss_score, infer_severity, infer_tags,
}
use sredevopsorg_sec_feed.Fetcher.Patch.{text_or_empty}
use sredevopsorg_sec_feed.Fetcher.Gather.{Error, FetchResult}
use sredevopsorg_sec_feed.Fetcher.Newest.{as_fetched}
use sredevopsorg_sec_feed.Fetcher.Nvd.{at_least, whole_day, overflow_error}
use sredevopsorg_sec_feed.Enrich.{KevCache, Services, fetch_kev}

-- An entry of the catalog; a missing key, or a null, is `none`.
pub record KevEntry : Type 0 where
  pub cve_id : Option String
  pub notes : Option String
  pub date_added : Option String
  pub vulnerability_name : Option String
  pub short_description : Option String
  pub required_action : Option String

-- The text operations, the group of a match of `_NVD_LINK_RE`, and
-- `datetime.strptime(raw, "%Y-%m-%d")`, where `none` is a `ValueError`.
pub record KevOps : Type 0 where
  pub ops : TextOps
  pub hash : String → String
  pub find_link : String → Option String
  pub parse_day : String → Option ℕ

abbrev pub nvd_detail_url : String → String
nvd_detail_url cve_id = "https://nvd.nist.gov/vuln/detail/" <> cve_id

abbrev pub added_later : ℕ × KevEntry → ℕ × KevEntry → Bool
added_later a b = leb b.0 a.0

module _ (k : KevOps) where
  unfoldable pub kev_reference : KevEntry → String
  kev_reference entry = elim (k.find_link (text_or_empty entry.notes)) [
    | some cve_id ↦ nvd_detail_url (k.ops.upper cve_id)
    | none ↦ nvd_detail_url (k.ops.upper (text_or_empty entry.cve_id))
  ]

  unfoldable pub kev_added_at : KevEntry → Option ℕ
  kev_added_at entry = k.parse_day (k.ops.strip (text_or_empty entry.date_added))

  -- The entries that were added since the cutoff.
  unfoldable pub kev_since : ℕ → Dict KevEntry → List (ℕ × KevEntry)
  unfolding kev_added_at
  kev_since cutoff [] = []
  kev_since cutoff ((cve, entry) ∷ catalog) =
      let rest = kev_since cutoff catalog in
      elim (kev_added_at entry) [
        | none ↦ rest
        | some added ↦ if leb cutoff added then (added, entry) ∷ rest else rest
      ]

  -- `" ".join(p for p in parts if p)`
  abbrev pub kev_parts : KevEntry → String
  kev_parts entry =
      let action = text_or_empty entry.required_action in
      let required = if is_blank action then [] else ("Required action: " <> action) ∷ [] in
      join " " (select (λ p. not (is_blank p)) (text_or_empty entry.short_description ∷ required))

  -- The body of the second loop, for an entry with an identifier.
  unfoldable pub kev_item : Source → ℕ → KevEntry → FeedItem
  unfolding kev_reference add
  kev_item source added entry =
      let cve_id = k.ops.upper (text_or_empty entry.cve_id) in
      let name = k.ops.strip (text_or_empty entry.vulnerability_name) in
      let title = if is_blank name then cve_id else cve_id <> ": " <> name in
      let summary = truncate k.ops (strip_html k.ops (kev_parts entry)) 320 in
      let url = kev_reference entry in
      let text = title <> " " <> summary in
      let scored = join " " (
        text_or_empty entry.required_action
        ∷ text_or_empty entry.notes
        ∷ text_or_empty entry.short_description
        ∷ []) in
      record {
        id = hash_item k.hash url title;
        title = title;
        summary = summary;
        url = url;
        source = source.name;
        source_url = source.url;
        published = some (aware added (pos 0));
        tags = infer_tags k.ops text (add "kev" source.tags) (cve_id ∷ []);
        cves = cve_id ∷ [];
        severity = infer_severity k.ops text (extract_cvss_score k.ops scored);
        urgent = true;
        kev = true;
        epss_score = none;
        is_sample = false;
        osv_affected = [];
        osv_fixed = [];
        osv_severity = none;
        patch_status = "unknown";
      }

  unfoldable pub kev_items : Source → List (ℕ × KevEntry) → List FeedItem
  unfolding kev_item
  kev_items source [] = []
  kev_items source ((added, entry) ∷ rest) =
      let items = kev_items source rest in
      if is_blank (k.ops.upper (text_or_empty entry.cve_id))
      then items
      else kev_item source added entry ∷ items

  -- The items of a catalog.
  unfoldable pub recent_kev : Source → ℕ → Dict KevEntry → List FeedItem
  unfolding kev_since kev_items
  recent_kev source cutoff catalog =
      kev_items source (take source.max_items (sort added_later (kev_since cutoff catalog)))

  -- `kev_source_days` is that of the settings, `moment` is `datetime.now(timezone.utc)`, and
  -- `download_error` is the exception of a download that fails.
  unfoldable pub fetch_recent_kev :
      {N : Type 0}
      → Services N KevEntry
      → (N → ℕ)
      → (N → Error)
      → ℤ
      → Source
      → KevCache KevEntry × N
      → (KevCache KevEntry × N) × FetchResult
  unfolding fetch_kev recent_kev
  fetch_recent_kev services moment download_error kev_source_days source (cache, n) =
      let (after, entries) = fetch_kev k.ops services cache n in
      let window = at_least 1 (pos_part kev_source_days) * whole_day in
      let now = moment after.1 in
      let found : Result Error (List FeedItem) = elim entries [
        | none ↦ err (download_error after.1)
        | some catalog ↦
            if ltb now window
            then err overflow_error
            else ok (recent_kev source (now - window) catalog)
      ] in
      (after, as_fetched found)
