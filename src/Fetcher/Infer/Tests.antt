-- ===== src/Fetcher/Infer/Tests.antt =====
-- The inference on small texts, and the theorems on it.
use sredevopsorg_sec_feed.Prelude.{String, ◌≡◌, refl, true, false, none}
use sredevopsorg_sec_feed.Fetcher.Inputs.{plain_ops}
use sredevopsorg_sec_feed.Fetcher.Infer.{mentions, contains_any, infer_severity}

words :
    (mentions "a rce in helm" "rce" ≡ true)
    × (mentions "a resource in helm" "rce" ≡ false)
    × (infer_severity plain_ops "a rce in helm" none ≡ "high")
unfolding mentions contains_any infer_severity
words = (refl, refl, refl)

abbrev text : String
text = "a kernel patch"
