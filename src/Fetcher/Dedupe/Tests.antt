-- ===== src/Fetcher/Dedupe/Tests.antt =====
-- The deduplication of three items, and the theorems on it.
use sredevopsorg_sec_feed.Prelude.{◌≡◌, refl, true, none, List, [], ◌∷◌}
use sredevopsorg_sec_feed.Models.{FeedItem}
use sredevopsorg_sec_feed.Fetcher.Inputs.{low_item, high_item, other_item}
use sredevopsorg_sec_feed.Fetcher.Dedupe.{severity_rank, dedupe}
use sredevopsorg_sec_feed.Fetcher.Dedupe.Merge.{
  with_id, merge_all, merged, IsMerge, merge_all-IsMerge,
}
use sredevopsorg_sec_feed.Fetcher.Dedupe.Feed.{as_list, with_id-dedupe}

abbrev three : List FeedItem
three = low_item ∷ other_item ∷ high_item ∷ []

two_left :
    dedupe three
    ≡ other_item
      ∷ record low_item { severity = "high"; urgent = true; tags = "linux" ∷ "cloud" ∷ [] }
      ∷ []
unfolding dedupe severity_rank
two_left = refl

merge_all-IsMerge_example : IsMerge low_item (high_item ∷ []) (merge_all low_item (high_item ∷ []))
merge_all-IsMerge_example = merge_all-IsMerge low_item (high_item ∷ [])

with_id-dedupe_example :
    with_id "runc" (dedupe three) ≡ as_list (merged none (with_id "runc" three))
with_id-dedupe_example = with_id-dedupe three "runc"
