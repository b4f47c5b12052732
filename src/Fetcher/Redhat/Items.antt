-- ===== src/Fetcher/Redhat/Items.antt =====
-- The items of the Red Hat fetcher.
use sredevopsorg_sec_feed.Prelude.{
  String, ◌<>◌, ◌≡◌, refl, inl, inr, false, List, [], ◌∷◌, take, All, arith, length, length-take-le,
  ◌≤◌, Bool-cases,
}
use sredevopsorg_sec_feed.Prelude.Results.{Result-cases}
use sredevopsorg_sec_feed.Prelude.Sets.{Uniq}
use sredevopsorg_sec_feed.Prelude.Texts.{is_blank}
use sredevopsorg_sec_feed.Runtime.{TextOps}
use sredevopsorg_sec_feed.Models.{FeedItem, Iso}
use sredevopsorg_sec_feed.Sources.{Source}
use sredevopsorg_sec_feed.Fetcher.Infer.Tags.{infer_tags-member}
use sredevopsorg_sec_feed.Fetcher.Infer.Severity.{infer_severity-member}
use sredevopsorg_sec_feed.Fetcher.Gather.{FetchResult, fetched, skipped, raised}
use sredevopsorg_sec_feed.Fetcher.Fetching.{World}
use sredevopsorg_sec_feed.Fetcher.Rss.Items.{IsFeedItem}
use sredevopsorg_sec_feed.Fetcher.Newest.{RestClient, answer_json}
use sredevopsorg_sec_feed.Fetcher.Ghsa.Items.{is_blank-append}
use sredevopsorg_sec_feed.Fetcher.Redhat.{
  RedhatCve, head_or_empty, redhat_title, redhat_item, redhat_items, fetch_redhat,
}

-- What an item of this source is: one of the feed, never urgent.
pub record IsRedhat (source : Source) (item : FeedItem) : Type 0 where
  pub is_item : IsFeedItem source item
  pub is_calm : item.urgent ≡ false

-- The result of the fetcher: an exception of the request, or at most `max_items` items.
abbrev pub Brings : Source → FetchResult → Type 0
Brings source (fetched items) = (length items ≤ source.max_items) × All (IsRedhat source) items
Brings source skipped = ⊥
Brings source (raised e) = Unit

module _ (ops : TextOps) (hash : String → String) (iso : Iso)
    (split_sentences : String → List String) (source : Source) (u : Uniq source.tags) where
  blank-redhat_title :
      (cve_id description : String)
      → is_blank cve_id ≡ false
      → is_blank (redhat_title ops hash iso split_sentences cve_id description) ≡ false
  unfolding redhat_title
  blank-redhat_title cve_id description e =
      let sentence = head_or_empty (split_sentences description) in
      ground (arith, is_blank-append cve_id (": " <> sentence) e)

  redhat_item-IsRedhat :
      (row : RedhatCve)
      → is_blank row.cve ≡ false
      → IsRedhat source (redhat_item ops hash iso split_sentences source row)
  unfolding redhat_item
  redhat_item-IsRedhat row e = record {
    is_item = record {
      from_source = refl;
      is_live = refl;
      has_title = blank-redhat_title row.cve _ e;
      rated = infer_severity-member ops _ _;
      tags_Uniq = (infer_tags-member ops _ source.tags (row.cve ∷ []) "" u).1;
      urgent_if_severe = λ h. ground arith;
    };
    is_calm = refl;
  }

  redhat_items-IsRedhat :
      (found : List RedhatCve)
      → All (IsRedhat source) (redhat_items ops hash iso split_sentences source found)
  unfolding redhat_items
  redhat_items-IsRedhat [] = tt
  redhat_items-IsRedhat (row ∷ rest) = elim (Bool-cases (is_blank row.cve)) [
    | inl e ↦ rw e (redhat_items-IsRedhat rest)
    | inr e ↦ rw e (redhat_item-IsRedhat row e, redhat_items-IsRedhat rest)
  ]

  length-redhat_items :
      (found : List RedhatCve)
      → length (redhat_items ops hash iso split_sentences source found) ≤ length found
  unfolding redhat_items
  length-redhat_items [] = omega arith
  length-redhat_items (row ∷ rest) = ground (arith, length-redhat_items rest)

  -- If the source's tags are distinct, the Red Hat fetcher raises, or brings at most max_items
  -- items, each naming the source, live, with a title, a severity of the scale and distinct tags,
  -- and not urgent.
  pub fetch_redhat-Brings :
      {N B : Type 0} (client : RestClient N B (List RedhatCve)) (w : World N)
      → Brings source (fetch_redhat ops hash iso split_sentences client source w).1
  unfolding fetch_redhat
  fetch_redhat-Brings client w =
      let answer = (client.get source.url [] w.net).1 in
      elim (Result-cases (answer_json client answer)) [
        | inl (found, e) ↦
            let kept = take source.max_items found in
            rw (fetch_redhat, e)
              (
                omega (arith, length-redhat_items kept, length-take-le source.max_items found),
                redhat_items-IsRedhat kept,
              )
        | inr (error, e) ↦ rw (fetch_redhat, e) tt
      ]
