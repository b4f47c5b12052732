-- ===== src/Osv/Tests.antt =====
-- The data of one CVE applied to an item, and the theorem on it.
use sredevopsorg_sec_feed.Prelude.{◌≡◌, refl, true, some, [], ◌∷◌}
use sredevopsorg_sec_feed.Prelude.Dict.{Dict, lookup}
use sredevopsorg_sec_feed.Models.{FeedItem}
use sredevopsorg_sec_feed.Fetcher.Inputs.{low_item}
use sredevopsorg_sec_feed.Osv.{OsvData, apply_osv, apply_all}
use sredevopsorg_sec_feed.Osv.Applied.{IsExtended, apply_all-IsExtended}

abbrev facts : OsvData
facts = record {
  summary = some "a container escape";
  affected_packages = "Go:runc" ∷ [];
  fixed_versions = "1.1.12" ∷ [];
  severity = some "high";
  patch_available = true;
}

abbrev unrated : FeedItem
unrated = record low_item { severity = "unknown" }

abbrev osv : Dict OsvData
osv = ("CVE-2024-21626", facts) ∷ []

now_rated : (apply_all osv unrated.cves unrated).severity ≡ "high"
unfolding apply_all apply_osv lookup
now_rated = refl

apply_all-IsExtended_example : IsExtended unrated (apply_all osv unrated.cves unrated)
apply_all-IsExtended_example = apply_all-IsExtended osv unrated.cves unrated
