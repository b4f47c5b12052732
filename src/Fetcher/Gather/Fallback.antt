-- ===== src/Fetcher/Gather/Fallback.antt =====
-- When the sample items are served.
use sredevopsorg_sec_feed.Prelude.{
  ℕ, ◌⊎◌, nat_eq, select-append, ◌∙◌, ap, String, ◌≡◌, ◌≢◌, refl, inl, inr, Bool, true, false, not,
  ◌&&◌, List, [], ◌∷◌, ◌++◌, All, arith,
}
use sredevopsorg_sec_feed.Runtime.{TextOps}
use sredevopsorg_sec_feed.Models.{FeedItem}
use sredevopsorg_sec_feed.Models.Samples.{sample_items}
use sredevopsorg_sec_feed.Sources.{Source}
use sredevopsorg_sec_feed.Fetcher.Dedupe.{merge, dedupe}
use sredevopsorg_sec_feed.Fetcher.Dedupe.Merge.{with_id, merge_all, merge_all-IsMerge}
use sredevopsorg_sec_feed.Fetcher.Dedupe.Feed.{with_id-dedupe, dedupe-All, dedupe-ne-nil}
use sredevopsorg_sec_feed.Fetcher.Gather.{
  is_nil, FetchResult, fetched, skipped, raised, Collected, collect, with_fallback, fetch_all,
}

-- The items that the sources gave, in the order of the sources.
abbrev pub all_fetched : List (Source × FetchResult) → List FeedItem
all_fetched [] = []
all_fetched ((source, fetched items) ∷ rest) = items ++ all_fetched rest
all_fetched ((source, skipped) ∷ rest) = all_fetched rest
all_fetched ((source, raised e) ∷ rest) = all_fetched rest

abbrev pub some_skipped : List (Source × FetchResult) → Bool
some_skipped [] = false
some_skipped ((source, fetched items) ∷ rest) = some_skipped rest
some_skipped ((source, skipped) ∷ rest) = true
some_skipped ((source, raised e) ∷ rest) = some_skipped rest

collect-items :
    (ops : TextOps) (netloc : Source → String) (results : List (Source × FetchResult))
    → (collect ops netloc results).items ≡ all_fetched results
unfolding collect
collect-items ops netloc [] = refl
collect-items ops netloc ((source, fetched items) ∷ rest) = rw (collect-items ops netloc rest)
collect-items ops netloc ((source, skipped) ∷ rest) = collect-items ops netloc rest
collect-items ops netloc ((source, raised e) ∷ rest) = collect-items ops netloc rest

collect-skips :
    (ops : TextOps) (netloc : Source → String) (results : List (Source × FetchResult))
    → nat_eq (collect ops netloc results).skips 0 ≡ not (some_skipped results)
unfolding collect
collect-skips ops netloc [] = refl
collect-skips ops netloc ((source, fetched items) ∷ rest) = collect-skips ops netloc rest
collect-skips ops netloc ((source, skipped) ∷ rest) = ground arith
collect-skips ops netloc ((source, raised e) ∷ rest) = collect-skips ops netloc rest

abbrev IsLive : FeedItem → Type 0
IsLive item = item.is_sample ≡ false

merge-IsLive : (a b : FeedItem) → IsLive a → IsLive b → IsLive (merge a b)
unfolding merge
merge-IsLive a b h k = h

fallback_cases :
    (samples items : List FeedItem) (errors : List String) (skips : ℕ)
    → let c : Collected = record { items = items; errors = errors; skips = skips } in
      ((with_fallback samples c ≡ items) × ((is_nil items && nat_eq skips 0) ≡ false))
      ⊎ ((with_fallback samples c ≡ items ++ samples) × (nat_eq skips 0 ≡ true))
unfolding with_fallback
fallback_cases samples [] errors skips = ground arith
fallback_cases samples (x ∷ xs) errors skips = ground arith

module _ (ops : TextOps) (netloc : Source → String) (hash : String → String) (now : ℕ)
    (results : List (Source × FetchResult)) where
  abbrev feed : List FeedItem
  feed = (fetch_all ops netloc hash now results).0

  -- The feed is made of what was fetched, or of that and the samples, then with no source skipped.
  feed_cases :
      ((feed ≡ dedupe (all_fetched results))
        × ((is_nil (all_fetched results) && not (some_skipped results)) ≡ false))
      ⊎ ((feed ≡ dedupe (all_fetched results ++ sample_items hash now))
          × (some_skipped results ≡ false))
  unfolding fetch_all
  feed_cases =
      let c = collect ops netloc results in
      let items = collect-items ops netloc results in
      let skips = collect-skips ops netloc results in
      elim (fallback_cases (sample_items hash now) c.items c.errors c.skips) [
        | inl (e, reason) ↦ inl (ap dedupe (e ∙ items), rw (← items, ← skips) reason)
        | inr (e, reason) ↦
            inr (ap dedupe (e ∙ ap (λ l. l ++ sample_items hash now) items), ground arith)
      ]

  -- While a source is not due, no sample item is served: if what was fetched is live, so is the
  -- whole feed.
  pub fetch_all-IsLive :
      some_skipped results ≡ true
      → All (λ item. item.is_sample ≡ false) (all_fetched results)
      → All (λ item. item.is_sample ≡ false) (fetch_all ops netloc hash now results).0
  fetch_all-IsLive skip live = elim feed_cases [
    | inl (e, reason) ↦ rw e (dedupe-All IsLive merge-IsLive (all_fetched results) live)
    | inr (e, reason) ↦ cc
  ]

  -- Unless a source is not due, the feed is never empty, even if every source fails.
  pub fetch_all-ne-nil :
      some_skipped results ≡ false → (fetch_all ops netloc hash now results).0 ≢ []
  fetch_all-ne-nil no_skip = elim feed_cases [
    | inl (e, reason) ↦ rw e (not_nil (all_fetched results) (ground arith))
    | inr (e, reason) ↦ rw e (samples_not_nil (all_fetched results))
  ]
    where
      not_nil : (items : List FeedItem) → is_nil items ≡ false → dedupe items ≢ []
      not_nil [] h = cc
      not_nil (x ∷ xs) h = dedupe-ne-nil x xs

      samples_not_nil : (items : List FeedItem) → dedupe (items ++ sample_items hash now) ≢ []
      samples_not_nil [] = unfold sample_items in dedupe-ne-nil _ _
      samples_not_nil (x ∷ xs) = dedupe-ne-nil x (xs ++ sample_items hash now)

  keeps_in :
      (k : String) (first : FeedItem) (others items : List FeedItem)
      → with_id k items ≡ first ∷ others
      → (r : FeedItem) × (with_id k (dedupe items) ≡ r ∷ []) × (r.is_sample ≡ first.is_sample)
  keeps_in k first others items h = (
    merge_all first others,
    with_id-dedupe items k ∙ rw h,
    (merge_all-IsMerge first others).same_sample,
  )

  -- A fetched item is never displaced by a sample: under its id the feed holds one item, which is a
  -- sample only if the first fetched item with that id is one.
  pub fetch_all_keeps :
      (k : String) (first : FeedItem) (others : List FeedItem)
      → with_id k (all_fetched results) ≡ first ∷ others
      → (r : FeedItem) × (with_id k (fetch_all ops netloc hash now results).0 ≡ r ∷ [])
        × (r.is_sample ≡ first.is_sample)
  fetch_all_keeps k first others h = elim feed_cases [
    | inl (e, reason) ↦ rw e (keeps_in k first others (all_fetched results) h)
    | inr (e, reason) ↦ rw e (
        keeps_in k first (others ++ with_id k (sample_items hash now))
          (all_fetched results ++ sample_items hash now) (rw (select-append, h)))
  ]
