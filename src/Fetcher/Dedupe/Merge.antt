-- ===== src/Fetcher/Dedupe/Merge.antt =====
-- What becomes of the items with one id.
use sredevopsorg_sec_feed.Prelude.{
  ◌≤◌, String, ◌≡◌, refl, ◌∙◌, ◌⊎◌, inl, inr, true, ◌||◌, Option, none, some, List, [], ◌∷◌, ◌++◌,
  select, any, member, member-append, All, arith, eq_iff, ◌==◌, Bool-cases, Option-cases,
  if◌then◌else◌,
}
use sredevopsorg_sec_feed.Prelude.Dict.{Dict, lookup, lookup-insert}
use sredevopsorg_sec_feed.Prelude.Sets.{member-uniq, member-union}
use sredevopsorg_sec_feed.Models.{FeedItem}
use sredevopsorg_sec_feed.Fetcher.Dedupe.{severity_rank, merge, see, see_all}

-- The items of a list with a given id, in order.
abbrev pub with_id : String → List FeedItem → List FeedItem
with_id k = select (λ (item : FeedItem). item.id == k)

-- The first item, with the others merged into it one after another.
unfoldable pub merge_all : FeedItem → List FeedItem → FeedItem
merge_all first [] = first
merge_all first (item ∷ items) = merge_all (merge first item) items

abbrev pub merged : Option FeedItem → List FeedItem → Option FeedItem
merged (some existing) items = some (merge_all existing items)
merged none [] = none
merged none (item ∷ items) = some (merge_all item items)

lookup-see :
    (k : String) (seen : Dict FeedItem) (item : FeedItem)
    → lookup k (see seen item)
      ≡ (if item.id == k then merged (lookup item.id seen) (item ∷ []) else lookup k seen)
unfolding see merge_all
lookup-see k seen item = elim (Option-cases (lookup item.id seen)) [
  | inl e ↦ rw (e, see) (lookup-insert item.id k item seen)
  | inr (old, e) ↦ rw (e, see) (lookup-insert item.id k (merge old item) seen)
]

-- Under each id the dictionary holds the merge of all the items with that id.
pub lookup-see_all :
    (k : String) (items : List FeedItem) (seen : Dict FeedItem)
    → lookup k (see_all seen items) ≡ merged (lookup k seen) (with_id k items)
unfolding see_all merge_all
lookup-see_all k [] seen = ground arith
lookup-see_all k (item ∷ items) seen = elim (Bool-cases (item.id == k)) [
  | inl e ↦
      rw (lookup-see_all k items (see seen item), lookup-see, e, (eq_iff item.id k).0 e)
        (elim (Option-cases (lookup k seen)) [ inl new ↦ rw new | inr (old, found) ↦ rw found ])
  | inr e ↦ rw (lookup-see_all k items (see seen item), lookup-see, e)
]

-- Of the items with one id: the merge keeps the first one's id,
-- sample flag and time, unites the tags and the CVEs,
-- is urgent if one of them is, and has the severity of one of them that none outranks.
pub record IsMerge (first : FeedItem) (items : List FeedItem) (r : FeedItem) : Type 0 where
  pub same_id : r.id ≡ first.id
  pub same_sample : r.is_sample ≡ first.is_sample
  pub same_time : r.published ≡ first.published
  pub tags_united :
      (t : String) → member t r.tags ≡ (member t first.tags || any (λ i. member t i.tags) items)
  pub cves_united :
      (c : String) → member c r.cves ≡ (member c first.cves || any (λ i. member c i.cves) items)
  pub urgent_any : r.urgent ≡ (first.urgent || any (λ i. i.urgent) items)
  pub outranks_first : severity_rank first.severity ≤ severity_rank r.severity
  pub outranks_all : All (λ i. severity_rank i.severity ≤ severity_rank r.severity) items
  pub severity_from :
      (r.severity ≡ first.severity) ⊎ (any (λ i. r.severity == i.severity) items ≡ true)

-- One merge.
merge_facts :
    (first item : FeedItem)
    → ((merge first item).id ≡ first.id)
      × ((merge first item).published ≡ first.published)
      × ((merge first item).urgent ≡ (first.urgent || item.urgent))
      × (severity_rank first.severity ≤ severity_rank (merge first item).severity)
      × (severity_rank item.severity ≤ severity_rank (merge first item).severity)
      × (((merge first item).severity ≡ first.severity)
          ⊎ ((merge first item).severity ≡ item.severity))
      × ((merge first item).is_sample ≡ first.is_sample)
unfolding merge
merge_facts first item = (refl, refl, refl, ground arith, ground arith, ground arith, refl)

member-merge :
    (first item : FeedItem) (x : String)
    → (member x (merge first item).tags ≡ (member x first.tags || member x item.tags))
      × (member x (merge first item).cves ≡ (member x first.cves || member x item.cves))
unfolding merge
member-merge first item x = (
  member-union x first.tags item.tags,
  member-uniq x (first.cves ++ item.cves) ∙ member-append x first.cves item.cves,
)

-- The merge of the items with one id keeps the first one's id, sample flag and time, unites the
-- tags and the CVEs, is urgent if one of them is, and has the severity of one of them that none
-- outranks.
pub merge_all-IsMerge :
    (first : FeedItem) (items : List FeedItem) → IsMerge first items (merge_all first items)
unfolding merge_all
merge_all-IsMerge first [] = record {
  same_id = refl;
  same_sample = refl;
  same_time = refl;
  tags_united = λ t. ground arith;
  cves_united = λ c. ground arith;
  urgent_any = ground arith;
  outranks_first = omega arith;
  outranks_all = tt;
  severity_from = inl refl;
}
merge_all-IsMerge first (item ∷ items) =
    let rest = merge_all-IsMerge (merge first item) items in
    let one = merge_facts first item in
    record {
      same_id = rest.same_id ∙ one.0;
      same_sample = rest.same_sample ∙ one.6;
      same_time = rest.same_time ∙ one.1;
      tags_united = λ t. ground (arith, rest.tags_united t, (member-merge first item t).0);
      cves_united = λ c. ground (arith, rest.cves_united c, (member-merge first item c).1);
      urgent_any = ground (arith, rest.urgent_any, one.2);
      outranks_first = omega (arith, rest.outranks_first, one.3);
      outranks_all = (omega (arith, rest.outranks_first, one.4), rest.outranks_all);
      severity_from = ground (
        arith,
        rest.severity_from,
        one.5,
        eq_iff (merge_all (merge first item) items).severity item.severity,
      );
    }
