-- ===== src/Fetcher/Dedupe/Feed.antt =====
-- The deduplicated feed: one item for each id, newest first.
use sredevopsorg_sec_feed.Prelude.{
  ◌≤◌, ◌≢◌, eq_refl, String, ◌≡◌, refl, ap, ◌∙◌, inl, inr, true, false, Option, none, some, List,
  [], ◌∷◌, length, All, arith, eq_iff, ◌==◌, Bool-cases, Option-cases,
}
use sredevopsorg_sec_feed.Prelude.Dict.{
  Dict, lookup, Distinct, Distinct-insert, All-insert, All-lookup,
}
use sredevopsorg_sec_feed.Prelude.Sort.{IsSorted, sort-IsSorted, select-sort, All-sort}
use sredevopsorg_sec_feed.Models.{FeedItem}
use sredevopsorg_sec_feed.Fetcher.Dedupe.{not_older, merge, see, see_all, values, dedupe}
use sredevopsorg_sec_feed.Fetcher.Dedupe.Merge.{with_id, merge_all, merged, lookup-see_all}

-- Each item stands under its own id.
abbrev IsKeyed : (String × FeedItem) → Type 0
IsKeyed e = e.1.id ≡ e.0

merge-id : (existing item : FeedItem) → (merge existing item).id ≡ existing.id
unfolding merge
merge-id existing item = refl

see-IsKeyed :
    (seen : Dict FeedItem) (item : FeedItem) → All IsKeyed seen → All IsKeyed (see seen item)
unfolding see
see-IsKeyed seen item h = elim (Option-cases (lookup item.id seen)) [
  | inl e ↦ rw (e, see) (All-insert IsKeyed item.id item seen refl h)
  | inr (old, e) ↦
      rw (e, see)
        (All-insert IsKeyed item.id (merge old item) seen
          (merge-id old item ∙ All-lookup IsKeyed item.id seen h e) h)
]

see-Distinct : (seen : Dict FeedItem) (item : FeedItem) → Distinct seen → Distinct (see seen item)
unfolding see
see-Distinct seen item h = elim (Option-cases (lookup item.id seen)) [
  | inl e ↦ rw (e, see) (Distinct-insert item.id item seen h)
  | inr (old, e) ↦ rw (e, see) (Distinct-insert item.id (merge old item) seen h)
]

see_all-valid :
    (items : List FeedItem) (seen : Dict FeedItem)
    → All IsKeyed seen
    → Distinct seen
    → All IsKeyed (see_all seen items) × Distinct (see_all seen items)
unfolding see_all
see_all-valid [] seen k d = (k, d)
see_all-valid (item ∷ items) seen k d =
    see_all-valid items (see seen item) (see-IsKeyed seen item k) (see-Distinct seen item d)

abbrev pub as_list : Option FeedItem → List FeedItem
as_list none = []
as_list (some item) = item ∷ []

length-as_list : (o : Option FeedItem) → length (as_list o) ≤ 1
length-as_list none = omega arith
length-as_list (some item) = omega arith

with_id-values :
    (k : String) (d : Dict FeedItem)
    → All IsKeyed d
    → Distinct d
    → with_id k (values d) ≡ as_list (lookup k d)
unfolding lookup
with_id-values k [] h u = refl
with_id-values k ((i, w) ∷ d) h u =
    let rest = with_id-values k d h.1 u.1 in
    let key : (w.id == k) ≡ (i == k) = rw h.0 in
    elim (Bool-cases (i == k)) [
      | inl e ↦ rw (key, e) (ap (◌∷◌ w) (rest ∙ ap as_list (rw ((eq_iff i k).0 e) at u.0)))
      | inr e ↦ rw (key, e) rest
    ]

-- For every id, the deduplicated feed holds exactly the merge of all fetched items with that id:
-- one item if there are any, and none otherwise.
pub with_id-dedupe :
    (items : List FeedItem) (k : String)
    → with_id k (dedupe items) ≡ as_list (merged none (with_id k items))
unfolding dedupe lookup
with_id-dedupe items k =
    let d = see_all [] items in
    let valid = see_all-valid items [] tt tt in
    let here : with_id k (values d) ≡ as_list (merged none (with_id k items)) =
      with_id-values k d valid.0 valid.1 ∙ ap as_list (lookup-see_all k items []) in
    select-sort not_older (λ item. item.id == k) (values d)
      (rw here (length-as_list (merged none (with_id k items))))
    ∙ here

total : (a b : FeedItem) → not_older a b ≡ false → not_older b a ≡ true
unfolding not_older
total a b h = ground arith

trans : (a b c : FeedItem) → not_older a b ≡ true → not_older b c ≡ true → not_older a c ≡ true
unfolding not_older
trans a b c h k = ground arith

-- In the deduplicated feed no item stands behind an older one, nor, at the same time, an urgent one
-- behind one that is not.
pub dedupe-IsSorted : (items : List FeedItem) → IsSorted not_older (dedupe items)
unfolding dedupe
dedupe-IsSorted items = sort-IsSorted not_older total trans (values (see_all [] items))

-- The feed of some item is not empty.
pub dedupe-ne-nil : (item : FeedItem) (items : List FeedItem) → dedupe (item ∷ items) ≢ []
unfolding merge_all
dedupe-ne-nil item items e =
    let one = with_id-dedupe (item ∷ items) item.id in
    cc (ap (with_id item.id) e, rw (eq_refl item.id) at one)

module _ {κ} (P : FeedItem → Type κ) (closed : (a b : FeedItem) → P a → P b → P (merge a b)) where
  see-All :
      (seen : Dict FeedItem) (item : FeedItem)
      → All (λ e. P e.1) seen
      → P item
      → All (λ e. P e.1) (see seen item)
  unfolding see
  see-All seen item h p = elim (Option-cases (lookup item.id seen)) [
    | inl e ↦ rw (e, see) (All-insert (λ e. P e.1) item.id item seen p h)
    | inr (old, e) ↦
        rw (e, see)
          (All-insert (λ e. P e.1) item.id (merge old item) seen
            (closed old item (All-lookup (λ e. P e.1) item.id seen h e) p) h)
  ]

  see_all-All :
      (items : List FeedItem) (seen : Dict FeedItem)
      → All (λ e. P e.1) seen
      → All P items
      → All (λ e. P e.1) (see_all seen items)
  unfolding see_all
  see_all-All [] seen h p = h
  see_all-All (item ∷ items) seen h p =
      see_all-All items (see seen item) (see-All seen item h p.0) p.1

  values-All : (d : Dict FeedItem) → All (λ e. P e.1) d → All P (values d)
  values-All [] h = tt
  values-All ((k, item) ∷ d) h = (h.0, values-All d h.1)

  -- What holds of every fetched item and is kept by a merge holds of every item of the feed.
  pub dedupe-All : (items : List FeedItem) → All P items → All P (dedupe items)
  unfolding dedupe
  dedupe-All items h =
      All-sort not_older P (values (see_all [] items))
        (values-All (see_all [] items) (see_all-All items [] tt h))
