-- ===== src/Fetcher/Rss/Items.antt =====
-- The items of an RSS feed.
use sredevopsorg_sec_feed.Prelude.{
  String, ◌<>◌, ◌≡◌, refl, inl, inr, true, false, Option, none, some, List, [], ◌∷◌, All, arith,
  member, Bool-cases,
}
use sredevopsorg_sec_feed.Prelude.Texts.{is_blank, text_or}
use sredevopsorg_sec_feed.Prelude.Sets.{Uniq}
use sredevopsorg_sec_feed.Runtime.{TextOps}
use sredevopsorg_sec_feed.Models.{DateTime, FeedItem}
use sredevopsorg_sec_feed.Sources.{Source}
use sredevopsorg_sec_feed.Fetcher.Infer.{strip_html, truncate, is_relevant, extract_cves}
use sredevopsorg_sec_feed.Fetcher.Infer.Tags.{infer_tags-member}
use sredevopsorg_sec_feed.Fetcher.Infer.Severity.{severities, infer_severity-member}
use sredevopsorg_sec_feed.Fetcher.Rss.{Entry, first_text, urgent_severities, rss_item, rss_items}

-- A property of a result, if there is one.
abbrev pub IfSome {ℓ κ} : {A : Type ℓ} → (A → Type κ) → Option A → Type κ
IfSome P none = Unit
IfSome P (some a) = P a

pub All-of_IfSome {ℓ κ} :
    {A : Type ℓ} (P : A → Type κ) (o : Option A) (rest : List A)
    → IfSome P o
    → All P rest
    → All P (elim o [ none ↦ rest | some a ↦ a ∷ rest ])
All-of_IfSome P none rest h k = k
All-of_IfSome P (some a) rest h k = (h, k)

-- What an item of a feed is: from the source, live, with a title and a severity of the scale, its
-- tags distinct, and urgent only if its severity is critical or high.
pub record IsFeedItem (source : Source) (item : FeedItem) : Type 0 where
  pub from_source : item.source ≡ source.name
  pub is_live : item.is_sample ≡ false
  pub has_title : is_blank item.title ≡ false
  pub rated : member item.severity severities ≡ true
  pub tags_Uniq : Uniq item.tags
  pub urgent_if_severe : item.urgent ≡ true → member item.severity urgent_severities ≡ true

module _ (ops : TextOps) (hash : String → String) (parse_date : String → Option DateTime)
    (source : Source) (u : Uniq source.tags) where
  rss_item-IsFeedItem :
      (entry : Entry) → IfSome (IsFeedItem source) (rss_item ops hash parse_date source entry)
  unfolding rss_item
  rss_item-IsFeedItem entry =
      let title = first_text ops entry.title in
      let raw = text_or (first_text ops entry.summary) (first_text ops entry.description) in
      let text = title <> " " <> truncate ops (strip_html ops raw) 320 in
      elim (Bool-cases (is_blank title)) [
        | inl e ↦ rw e tt
        | inr e ↦ elim (Bool-cases (is_relevant ops source.id text)) [
          | inl relevant ↦
              rw (e, relevant)
                (record {
                  from_source = refl;
                  is_live = refl;
                  has_title = e;
                  rated = infer_severity-member ops text _;
                  tags_Uniq =
                      (infer_tags-member ops text source.tags (extract_cves ops text) "" u).1;
                  urgent_if_severe = λ h. ground arith;
                })
          | inr other ↦ rw (e, other) tt
        ]
      ]

  -- If the source's tags are distinct, every item made of a feed's entries names the source, is
  -- live, has a title, a severity of the scale and distinct tags, and is urgent only if its
  -- severity is critical or high.
  pub rss_items-IsFeedItem :
      (entries : List Entry)
      → All (IsFeedItem source) (rss_items ops hash parse_date source entries)
  unfolding rss_items
  rss_items-IsFeedItem [] = tt
  rss_items-IsFeedItem (entry ∷ entries) =
      All-of_IfSome (IsFeedItem source) (rss_item ops hash parse_date source entry)
        (rss_items ops hash parse_date source entries) (rss_item-IsFeedItem entry)
        (rss_items-IsFeedItem entries)
