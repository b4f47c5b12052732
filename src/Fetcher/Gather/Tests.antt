-- ===== src/Fetcher/Gather/Tests.antt =====
-- One round of fetching, and the theorems on it.
use sredevopsorg_sec_feed.Prelude.{
  ℕ, zero, suc, ◌+◌, ◌≡◌, ◌≢◌, refl, true, false, List, [], ◌∷◌, All, if◌then◌else◌,
}
use sredevopsorg_sec_feed.Models.{FeedItem}
use sredevopsorg_sec_feed.Sources.{Source}
use sredevopsorg_sec_feed.Fetcher.Inputs.{plain_ops, low_item, high_item, other_item, debian}
use sredevopsorg_sec_feed.Fetcher.Gather.{
  Error, root, FetchResult, fetched, skipped, raised, fetch_source, fetch_all,
}
use sredevopsorg_sec_feed.Fetcher.Gather.Retry.{is_transport_failure, fetch_source_lem}
use sredevopsorg_sec_feed.Fetcher.Gather.Fallback.{fetch_all-IsLive, fetch_all-ne-nil}

abbrev refused : Error
refused =
    root (record { kind = "ConnectError"; message = ""; is_timeout = false; is_transport = true })

-- The world counts the attempts and the pauses; the first attempt fails.
flaky : Source → ℕ → ℕ × FetchResult
flaky source zero = (1, raised refused)
flaky source (suc n) = (suc (suc n), fetched (low_item ∷ []))

second_try : fetch_source flaky (λ n w. w + 10) debian 0 ≡ (12, fetched (low_item ∷ []))
unfolding flaky fetch_source
second_try = refl

fetch_source_lem_example : fetch_source flaky (λ n w. w + 10) debian 0 ≡ (
    if is_transport_failure (flaky debian 0).1
    then flaky debian ((flaky debian 0).0 + 10)
    else flaky debian 0)
fetch_source_lem_example = fetch_source_lem flaky (λ n w. w + 10) debian 0

abbrev quiet : List (Source × FetchResult)
quiet = (debian, fetched (low_item ∷ high_item ∷ [])) ∷ (debian, skipped) ∷ []

fetch_all-IsLive_example :
    All
      (λ (item : FeedItem). item.is_sample ≡ false)
      (fetch_all plain_ops (λ s. "") (λ s. s) 0 quiet).0
fetch_all-IsLive_example =
    fetch_all-IsLive plain_ops (λ s. "") (λ s. s) 0 quiet refl (refl, (refl, tt))

abbrev down : List (Source × FetchResult)
down = (debian, raised refused) ∷ []

fetch_all-ne-nil_example : (fetch_all plain_ops (λ s. "") (λ s. s) 0 down).0 ≢ []
fetch_all-ne-nil_example = fetch_all-ne-nil plain_ops (λ s. "") (λ s. s) 0 down refl

abbrev short : List (Source × FetchResult)
short = (debian, fetched (low_item ∷ other_item ∷ high_item ∷ [])) ∷ []
