-- ===== src/Fetcher/Inputs.antt =====
-- Small inputs on which the fetcher's functions (app/fetcher.py) are run.
use sredevopsorg_sec_feed.Prelude.{true, false, none, some, [], ◌∷◌}
use sredevopsorg_sec_feed.Prelude.Int.{pos}
use sredevopsorg_sec_feed.Runtime.{TextOps}
use sredevopsorg_sec_feed.Models.{aware, FeedItem}
use sredevopsorg_sec_feed.Sources.{Source}

-- Text operations that are right on one lowercase word without blanks and markup.
abbrev pub plain_ops : TextOps
plain_ops = record {
  lower = λ s. s;
  upper = λ s. s;
  strip = λ s. s;
  split = λ s. s ∷ [];
  rstrip = λ s. s;
  sub_tags = λ s. s;
  sub_spaces = λ s. s;
  find_cves = λ s. [];
  find_scores = λ s. [];
}

abbrev pub low_item : FeedItem
low_item = record {
  id = "runc";
  title = "runc";
  summary = "";
  url = "u";
  source = "debian";
  source_url = "su";
  published = some (aware 5 (pos 0));
  tags = "linux" ∷ [];
  cves = "CVE-2024-21626" ∷ [];
  severity = "low";
  urgent = false;
  kev = false;
  epss_score = none;
  is_sample = false;
  osv_affected = [];
  osv_fixed = [];
  osv_severity = none;
  patch_status = "unknown";
}

abbrev pub high_item : FeedItem
high_item = record low_item { severity = "high"; urgent = true; tags = "cloud" ∷ [] }

abbrev pub other_item : FeedItem
other_item = record low_item { id = "xz"; published = some (aware 9 (pos 0)) }

abbrev pub debian : Source
debian = record {
  id = "debian";
  name = "Debian Security Advisories";
  kind = "rss";
  url = "https://www.debian.org/security/dsa";
  tags = "linux" ∷ [];
  max_items = 12;
  min_interval_seconds = 0;
}
