-- ===== src/Models/Tests.antt =====
-- The model of the items at concrete data.
use sredevopsorg_sec_feed.Prelude.{◌≡◌, refl, true, false, none, some, [], ◌∷◌}
use sredevopsorg_sec_feed.Prelude.Int.{pos}
use sredevopsorg_sec_feed.Models.{naive, aware, FeedItem, time_ago, item_to_dict, item_from_dict}
use sredevopsorg_sec_feed.Models.Tally.{unary, unary-IsLawful}
use sredevopsorg_sec_feed.Models.RoundTrip.{normal, item_from_dict-to_dict}

ages :
    (time_ago 59 ≡ "just now")
    × (time_ago 119 ≡ "1 minute")
    × (time_ago 7_200 ≡ "2 hours")
    × (time_ago 604_800 ≡ "1 week")
unfolding time_ago
ages = (refl, refl, refl, refl)

abbrev item : FeedItem
item = record {
  id = "1";
  title = "runc escape";
  summary = "";
  url = "u";
  source = "s";
  source_url = "su";
  published = some (naive 4);
  tags = "linux" ∷ "exploit" ∷ [];
  cves = "CVE-2024-21626" ∷ [];
  severity = "";
  urgent = true;
  kev = false;
  epss_score = none;
  is_sample = false;
  osv_affected = [];
  osv_fixed = [];
  osv_severity = none;
  patch_status = "unknown";
}

item_from_dict-to_dict_example :
    item_from_dict unary (item_to_dict unary item (aware 9 (pos 0))) ≡ some (normal item)
item_from_dict-to_dict_example =
    item_from_dict-to_dict unary unary-IsLawful item (aware 9 (pos 0)) (refl, (refl, tt))
