-- ===== src/Fetcher/Ghsa/Items.antt =====
-- The items that are made of advisories.
use sredevopsorg_sec_feed.Prelude.{
  String, ◌<>◌, Bool, Option, if◌then◌else◌, ◌≡◌, refl, inl, inr, true, false, List, [], ◌∷◌, All,
  Bool-cases, arith, none, some, any, ◌==◌, member,
}
use sredevopsorg_sec_feed.Prelude.Sets.{Uniq}
use sredevopsorg_sec_feed.Prelude.Texts.{is_blank, text_or}
use text.Mathlib.TextLemmas.{cons-append}
use sredevopsorg_sec_feed.Prelude.Dict.{Dict, lookup}
use sredevopsorg_sec_feed.Fetcher.Rss.{header_or}
use sredevopsorg_sec_feed.Fetcher.Nvd.{parse_zulu}
use sredevopsorg_sec_feed.Runtime.{TextOps}
use sredevopsorg_sec_feed.Models.{
  DateTime, naive, aware, datetime_min, map_option, FeedItem, Iso, ensure_aware,
}
use sredevopsorg_sec_feed.Sources.{Source}
use sredevopsorg_sec_feed.Fetcher.Infer.Tags.{infer_tags-member}
use sredevopsorg_sec_feed.Fetcher.Infer.Severity.{severities, infer_severity-member}
use sredevopsorg_sec_feed.Fetcher.Patch.{text_or_empty}
use sredevopsorg_sec_feed.Fetcher.Rss.Items.{IsFeedItem, IfSome, All-of_IfSome}
use sredevopsorg_sec_feed.Fetcher.Newest.{is_naive, date_key, has_mixed_dates}
use sredevopsorg_sec_feed.Fetcher.Ghsa.{
  Advisory, GhsaRow, not_a_dict, an_advisory, ghsa_published, ghsa_severity, severity_of, ghsa_item,
  ghsa_items,
}

-- An item of the feed whose date, if it has one, is aware.
pub record IsAdvisory (source : Source) (item : FeedItem) : Type 0 where
  pub is_item : IsFeedItem source item
  pub is_aware : is_naive (date_key item) ≡ false

pub is_blank-append : (s t : String) → is_blank s ≡ false → is_blank (s <> t) ≡ false
is_blank-append String.[] t h = cc
is_blank-append (String.◌∷◌ c s) t h = rw (cons-append c s t) refl

pub blank-label :
    (label rest : String) (test : Bool)
    → is_blank label ≡ false
    → is_blank (if test then label else label <> rest) ≡ false
blank-label label rest true h = h
blank-label label rest false h = is_blank-append label rest h

lookup_or_unknown-member :
    (d : Dict String) (k : String)
    → All (λ e. member e.1 severities ≡ true) d
    → member (elim (lookup k d) [ none ↦ "unknown" | some s ↦ s ]) severities ≡ true
unfolding lookup
lookup_or_unknown-member [] k h = refl
lookup_or_unknown-member ((j, v) ∷ d) k h = elim (Bool-cases (j == k)) [
  | inl e ↦ rw e h.0
  | inr e ↦ rw e (lookup_or_unknown-member d k h.1)
]

severity_of-member :
    (ops : TextOps) (hash : String → String) (iso : Iso) (raw text : String)
    → member (severity_of ops hash iso raw text) severities ≡ true
severity_of-member ops hash iso raw text =
    let known =
      lookup_or_unknown-member ghsa_severity (ops.upper raw)
        (refl, (refl, (refl, (refl, (refl, tt))))) in
    let severity : String = elim (lookup (ops.upper raw) ghsa_severity) [
      | none ↦ "unknown"
      | some s ↦ s
    ] in
    elim (Bool-cases (severity == "unknown")) [
      | inl e ↦ rw e (infer_severity-member ops text none)
      | inr e ↦ rw e known
    ]

aware_or_min :
    (o : Option DateTime)
    → is_naive (elim (map_option ensure_aware o) [ none ↦ datetime_min | some t ↦ t ]) ≡ false
unfolding ensure_aware
aware_or_min none = refl
aware_or_min (some (naive wall)) = refl
aware_or_min (some (aware moment offset)) = refl

module _ (ops : TextOps) (hash : String → String) (iso : Iso) (source : Source)
    (u : Uniq source.tags) where
  ghsa_item-IsAdvisory :
      (row : Advisory) → IfSome (IsAdvisory source) (ghsa_item ops hash iso source row)
  unfolding ghsa_item ghsa_published
  ghsa_item-IsAdvisory row =
      let cve_id = ops.upper (ops.strip (text_or_empty row.cve_id)) in
      let label = text_or cve_id (ops.strip (text_or_empty row.ghsa_id)) in
      elim (Bool-cases (is_blank label)) [
        | inl e ↦ rw e tt
        | inr e ↦ rw e (record {
          is_item = record {
            from_source = refl;
            is_live = refl;
            has_title =
                blank-label label (": " <> ops.strip (text_or_empty row.summary))
                  (is_blank (ops.strip (text_or_empty row.summary))) e;
            rated = severity_of-member ops hash iso (text_or_empty row.severity) _;
            tags_Uniq = (infer_tags-member ops _ source.tags _ "" u).1;
            urgent_if_severe = λ h. ground arith;
          };
          is_aware = aware_or_min (
              parse_zulu iso (
                header_or row.published_at
                  (header_or row.published (header_or row.updated_at row.updated))));
        })
      ]

  pub ghsa_items-IsAdvisory :
      (rows : List GhsaRow) → All (IsAdvisory source) (ghsa_items ops hash iso source rows)
  unfolding ghsa_items
  ghsa_items-IsAdvisory [] = tt
  ghsa_items-IsAdvisory (not_a_dict ∷ rest) = ghsa_items-IsAdvisory rest
  ghsa_items-IsAdvisory (an_advisory row ∷ rest) =
      All-of_IfSome (IsAdvisory source) (ghsa_item ops hash iso source row)
        (ghsa_items ops hash iso source rest) (ghsa_item-IsAdvisory row)
        (ghsa_items-IsAdvisory rest)

any_of_false {ℓ} :
    {A : Type ℓ} (p : A → Bool) (xs : List A) → All (λ x. p x ≡ false) xs → any p xs ≡ false
any_of_false p [] h = refl
any_of_false p (x ∷ xs) h = rw (h.0) (any_of_false p xs h.1)

-- Aware dates can be compared.
pub has_mixed_dates_of_aware :
    (items : List FeedItem)
    → All (λ item. is_naive (date_key item) ≡ false) items
    → has_mixed_dates items ≡ false
unfolding has_mixed_dates
has_mixed_dates_of_aware items h =
    let none_naive = any_of_false (λ i. is_naive (date_key i)) items h in rw none_naive refl
