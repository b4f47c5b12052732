-- ===== src/Fetcher/Redhat.antt =====
-- The Red Hat fetcher (app/fetcher.py, `_fetch_redhat`). The fields of a row are those of the Red
-- Hat API; `split_sentences` is `re.split(r"(?<=[.!?])\s+", s)`.
pub mod Items
mod Tests
use sredevopsorg_sec_feed.Prelude.{
  ℕ, String, ◌<>◌, ◌&&◌, Bool, true, false, not, Option, none, some, List, [], ◌∷◌, take, ltb,
  if◌then◌else◌, ◌≡◌, refl, inl, inr, Bool-cases, All, arith, length, ◌≤◌, zero, suc,
}
use sredevopsorg_sec_feed.Prelude.Results.{Result, ok, err, ◌>>=◌}
use sredevopsorg_sec_feed.Prelude.Texts.{is_blank, text_length}
use sredevopsorg_sec_feed.Runtime.{TextOps}
use sredevopsorg_sec_feed.Models.{FeedItem, hash_item, Iso}
use sredevopsorg_sec_feed.Sources.{Source}
use sredevopsorg_sec_feed.Fetcher.Infer.{strip_html, truncate, infer_severity, infer_tags}
use sredevopsorg_sec_feed.Fetcher.Patch.{RedhatRow, redhat_patch_status}
use sredevopsorg_sec_feed.Fetcher.Gather.{FetchResult}
use sredevopsorg_sec_feed.Fetcher.Fetching.{World}
use sredevopsorg_sec_feed.Fetcher.Newest.{RestClient, answer_json, as_fetched}
use sredevopsorg_sec_feed.Fetcher.Nvd.{parse_zulu}

pub record RedhatCve : Type 0 where
  pub cve : String
  pub bugzilla_description : String
  pub public_date : Option String
  pub patch : RedhatRow

abbrev pub head_or_empty : List String → String
head_or_empty [] = ""
head_or_empty (s ∷ rest) = s

module _ (ops : TextOps) (hash : String → String) (iso : Iso)
    (split_sentences : String → List String) where
  -- The identifier, with the first sentence of a description if that is short enough.
  unfoldable pub redhat_title : String → String → String
  redhat_title cve_id description =
      let sentence = head_or_empty (split_sentences description) in
      if not (is_blank description) && not (is_blank sentence) && ltb (text_length sentence) 120
      then cve_id <> ": " <> sentence
      else cve_id

  unfoldable pub redhat_item : Source → RedhatCve → FeedItem
  unfolding redhat_title parse_zulu redhat_patch_status
  redhat_item source row =
      let description = truncate ops (strip_html ops row.bugzilla_description) 320 in
      let title = redhat_title row.cve description in
      let text = title <> " " <> description in
      record {
        id = hash_item hash row.cve title;
        title = title;
        summary = description;
        url = "https://access.redhat.com/security/cve/" <> row.cve;
        source = source.name;
        source_url = source.url;
        published = parse_zulu iso row.public_date;
        tags = infer_tags ops text source.tags (row.cve ∷ []);
        cves = row.cve ∷ [];
        severity = infer_severity ops text none;
        urgent = false;
        kev = false;
        epss_score = none;
        is_sample = false;
        osv_affected = [];
        osv_fixed = [];
        osv_severity = none;
        patch_status = redhat_patch_status ops row.patch;
      }

  unfoldable pub redhat_items : Source → List RedhatCve → List FeedItem
  unfolding redhat_item
  redhat_items source [] = []
  redhat_items source (row ∷ rest) =
      let items = redhat_items source rest in
      if is_blank row.cve then items else redhat_item source row ∷ items

  unfoldable pub fetch_redhat :
      {N B : Type 0} → RestClient N B (List RedhatCve) → Source → World N → World N × FetchResult
  unfolding redhat_items
  fetch_redhat client source w =
      let (net, answer) = client.get source.url [] w.net in
      (
        record w { net = net },
        as_fetched (
            answer_json client answer >>= λ found.
            ok (redhat_items source (take source.max_items found))),
      )
