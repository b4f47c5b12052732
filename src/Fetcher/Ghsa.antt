-- ===== src/Fetcher/Ghsa.antt =====
-- The GitHub advisory fetcher (app/fetcher.py): `GHSA_SEVERITY`, `_github_headers`,
-- `_ghsa_published` and `_fetch_ghsa`. The fields of an advisory are those of the GitHub API; a
-- missing one, or a null, is `none`.
pub mod Items
pub mod Conditional
mod Tests
use sredevopsorg_sec_feed.Prelude.{
  ℕ, String, ◌<>◌, Bool, true, false, ◌&&◌, Option, none, some, List, [], ◌∷◌, ◌++◌, map, take,
  member, nat_eq, if◌then◌else◌, ◌==◌,
}
use sredevopsorg_sec_feed.Prelude.Dict.{Dict, lookup}
use sredevopsorg_sec_feed.Prelude.Sets.{uniq}
use sredevopsorg_sec_feed.Prelude.Results.{Result, ok, err}
use sredevopsorg_sec_feed.Prelude.Texts.{is_blank, text_or}
use sredevopsorg_sec_feed.Runtime.{TextOps}
use sredevopsorg_sec_feed.Models.{
  DateTime, ensure_aware, FeedItem, hash_item, Iso, item_to_dict, map_option,
}
use sredevopsorg_sec_feed.Sources.{Source}
use sredevopsorg_sec_feed.Store.{Engine}
use sredevopsorg_sec_feed.Fetcher.Infer.{
  strip_html, truncate, extract_cves, infer_severity, infer_tags,
}
use sredevopsorg_sec_feed.Fetcher.Patch.{text_or_empty}
use sredevopsorg_sec_feed.Fetcher.Gather.{Error, FetchResult, fetched, raised}
use sredevopsorg_sec_feed.Fetcher.Fetching.{
  World, Senses, validator_headers, etag_of, last_modified_of, stored_items, load_state, save_state,
}
use sredevopsorg_sec_feed.Fetcher.Rss.{
  Response, Answer, answered, failed, urgent_severities, header_or,
}
use sredevopsorg_sec_feed.Fetcher.Newest.{RestClient, read_json, newest}
use sredevopsorg_sec_feed.Fetcher.Nvd.{parse_zulu}

pub record Advisory : Type 0 where
  pub ghsa_id : Option String
  pub cve_id : Option String
  pub summary : Option String
  pub description : Option String
  pub severity : Option String
  pub html_url : Option String
  pub published_at : Option String
  pub published : Option String
  pub updated_at : Option String
  pub updated : Option String

-- An element of the answer, which should be an advisory.
pub data GhsaRow : Type 0 where
  not_a_dict : GhsaRow
  an_advisory : Advisory → GhsaRow

pub data GhsaBody : Type 0 where
  not_a_list : GhsaBody
  rows : List GhsaRow → GhsaBody

abbrev pub ghsa_severity : Dict String
ghsa_severity =
    ("CRITICAL", "critical")
    ∷ ("HIGH", "high")
    ∷ ("MEDIUM", "medium")
    ∷ ("MODERATE", "medium")
    ∷ ("LOW", "low")
    ∷ []

abbrev accept : List (String × String)
accept = ("Accept", "application/vnd.github+json") ∷ []

unfoldable pub github_headers : Option String → List (String × String)
github_headers none = accept
github_headers (some token) =
    if is_blank token then accept else accept ++ ("Authorization", "Bearer " <> token) ∷ []

unfoldable pub ghsa_published : Iso → Advisory → Option DateTime
unfolding parse_zulu
ghsa_published iso row = map_option ensure_aware (
    parse_zulu iso
      (header_or row.published_at (header_or row.published (header_or row.updated_at row.updated))))

module _ (ops : TextOps) (hash : String → String) (iso : Iso) where
  abbrev pub severity_of : String → String → String
  severity_of raw text =
      let severity : String = elim (lookup (ops.upper raw) ghsa_severity) [
        | none ↦ "unknown"
        | some s ↦ s
      ] in
      if severity == "unknown" then infer_severity ops text none else severity

  -- The body of the loop: `none` is `continue`.
  unfoldable pub ghsa_item : Source → Advisory → Option FeedItem
  unfolding lookup uniq ghsa_published
  ghsa_item source row =
      let ghsa_id = ops.strip (text_or_empty row.ghsa_id) in
      let cve_id = ops.upper (ops.strip (text_or_empty row.cve_id)) in
      let summary = ops.strip (text_or_empty row.summary) in
      let label = text_or cve_id ghsa_id in
      let description = truncate ops (strip_html ops (text_or_empty row.description)) 320 in
      let title = if is_blank summary then label else label <> ": " <> summary in
      let text = title <> " " <> description in
      let cves = uniq ((if is_blank cve_id then [] else cve_id ∷ []) ++ extract_cves ops text) in
      let severity = severity_of (text_or_empty row.severity) text in
      let tags = infer_tags ops text source.tags cves in
      let url =
        text_or (text_or_empty row.html_url) ("https://github.com/advisories/" <> ghsa_id) in
      if is_blank label
      then none
      else some (record {
        id = hash_item hash url title;
        title = title;
        summary = text_or description summary;
        url = url;
        source = source.name;
        source_url = source.url;
        published = ghsa_published iso row;
        tags = tags;
        cves = cves;
        severity = severity;
        urgent = member severity urgent_severities && member "exploit" tags;
        kev = false;
        epss_score = none;
        is_sample = false;
        osv_affected = [];
        osv_fixed = [];
        osv_severity = none;
        patch_status = "unknown";
      })

  unfoldable pub ghsa_items : Source → List GhsaRow → List FeedItem
  ghsa_items source [] = []
  ghsa_items source (not_a_dict ∷ rest) = ghsa_items source rest
  ghsa_items source (an_advisory row ∷ rest) =
      let items = ghsa_items source rest in
      elim (ghsa_item source row) [ none ↦ items | some item ↦ item ∷ items ]

module _ {N B : Type 0} (ops : TextOps) (hash : String → String) (engine : Engine)
    (senses : Senses N) (client : RestClient N B GhsaBody) (github_token : Option String) where
  -- What is saved once the items are sorted and cut.
  abbrev pub ghsa_save : Source → Response B → List FeedItem → World N → World N
  ghsa_save source resp kept w =
      save_state engine senses source resp.etag resp.last_modified
        (some (map (λ item. item_to_dict engine.iso item (senses.clock w.net)) kept)) true none w

  abbrev pub ghsa_kept :
      Source → Response B → World N → Result Error (List FeedItem) → World N × FetchResult
  ghsa_kept source resp w (err e) = (w, raised e)
  ghsa_kept source resp w (ok kept) = (ghsa_save source resp kept w, fetched kept)

  -- The second half of the function, from `raise_for_status` on.
  unfoldable pub ghsa_body : Source → Response B → World N → World N × FetchResult
  ghsa_body source resp w = elim (read_json client resp) [
    | err e ↦ (w, raised e)
    | ok not_a_list ↦ (w, fetched [])
    | ok (rows advisories) ↦
        ghsa_kept source resp w
          (newest source.max_items (ghsa_items ops hash engine.iso source advisories))
  ]

  -- `client.get(url, headers=headers)`
  abbrev pub ghsa_get : Source → List (String × String) → World N → World N × Answer B
  ghsa_get source headers w =
      let (net, answer) = client.get source.url headers w.net in (record w { net = net }, answer)

  abbrev pub ghsa_rest : Source → World N × Answer B → World N × FetchResult
  ghsa_rest source (w, answered resp) = ghsa_body source resp w
  ghsa_rest source (w, failed e) = (w, raised e)

  unfoldable pub fetch_ghsa : Source → World N → World N × FetchResult
  unfolding github_headers ghsa_body
  fetch_ghsa source w =
      let state = load_state engine senses source.id w in
      let headers = github_headers github_token in
      let (w1, answer) = ghsa_get source (headers ++ validator_headers state) w in
      elim answer [
        | failed e ↦ (w1, raised e)
        | answered resp ↦
            if nat_eq resp.status 304
            then elim (stored_items engine.iso state) [
              | some cached ↦ (
                save_state engine senses source (header_or resp.etag (etag_of state))
                    (header_or resp.last_modified (last_modified_of state)) none true none w1,
                fetched (take source.max_items cached),
              )
              | none ↦ ghsa_rest source (ghsa_get source headers w1)
            ]
            else ghsa_body source resp w1
      ]
