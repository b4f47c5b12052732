-- ===== src/Fetcher/Nvd/Outcome.antt =====
-- What the NVD fetcher returns.
use sredevopsorg_sec_feed.Prelude.{
  ◌≡◌, refl, inl, inr, false, String, List, [], ◌∷◌, All, Bool-cases, arith,
}
use sredevopsorg_sec_feed.Prelude.Texts.{is_blank}
use sredevopsorg_sec_feed.Prelude.Sets.{Uniq}
use sredevopsorg_sec_feed.Runtime.{TextOps}
use sredevopsorg_sec_feed.Models.{Iso}
use sredevopsorg_sec_feed.Sources.{Source}
use sredevopsorg_sec_feed.Fetcher.Infer.Tags.{infer_tags-member}
use sredevopsorg_sec_feed.Fetcher.Infer.Severity.{infer_severity-member}
use sredevopsorg_sec_feed.Fetcher.Rss.Items.{IsFeedItem}
use sredevopsorg_sec_feed.Fetcher.Nvd.{Cve, nvd_item, nvd_items, Nvd}

module _ (ops : TextOps) (hash : String → String) (iso : Iso) (source : Source)
    (u : Uniq source.tags) where
  nvd_item-IsFeedItem :
      (cve : Cve) → is_blank cve.id ≡ false → IsFeedItem source (nvd_item ops hash iso source cve)
  unfolding nvd_item
  nvd_item-IsFeedItem cve e = record {
    from_source = refl;
    is_live = refl;
    has_title = e;
    rated = infer_severity-member ops _ _;
    tags_Uniq = (infer_tags-member ops _ source.tags (cve.id ∷ []) "" u).1;
    urgent_if_severe = λ h. ground arith;
  }

  pub nvd_items-IsFeedItem :
      (cves : List Cve) → All (IsFeedItem source) (nvd_items ops hash iso source cves)
  unfolding nvd_items
  nvd_items-IsFeedItem [] = tt
  nvd_items-IsFeedItem (cve ∷ cves) = elim (Bool-cases (is_blank cve.id)) [
    | inl e ↦ rw e (nvd_items-IsFeedItem cves)
    | inr e ↦ rw e (nvd_item-IsFeedItem cve e, nvd_items-IsFeedItem cves)
  ]
