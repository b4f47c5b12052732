-- ===== src/Enrich/Tests.antt =====
-- The enrichment of an item, and the theorems on it.
use sredevopsorg_sec_feed.Prelude.{ℕ, ◌≡◌, refl, true, false, [], ◌∷◌}
use sredevopsorg_sec_feed.Prelude.Dict.{Dict, lookup}
use sredevopsorg_sec_feed.Models.{FeedItem}
use sredevopsorg_sec_feed.Fetcher.Inputs.{high_item}
use sredevopsorg_sec_feed.Enrich.{enrich_item}
use sredevopsorg_sec_feed.Enrich.Flags.{IsEnriched, enrich_item-IsEnriched}

abbrev calm : FeedItem
calm = record high_item { urgent = false }

abbrev catalog : Dict ℕ
catalog = ("CVE-2024-21626", 0) ∷ []

exploited : (enrich_item catalog [] calm).urgent ≡ true
unfolding enrich_item lookup
exploited = refl

enrich_item-IsEnriched_example :
    IsEnriched catalog
      (("CVE-2024-21626", 900_000) ∷ [])
      calm
      (enrich_item catalog (("CVE-2024-21626", 900_000) ∷ []) calm)
enrich_item-IsEnriched_example =
    enrich_item-IsEnriched catalog (("CVE-2024-21626", 900_000) ∷ []) calm
