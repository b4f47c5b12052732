-- ===== src/Enrich/Kev/Tests.antt =====
-- A catalog of two entries, of which one is recent.
use sredevopsorg_sec_feed.Prelude.{◌≡◌, refl, none, some, [], ◌∷◌, length}
use sredevopsorg_sec_feed.Prelude.Dict.{Dict}
use sredevopsorg_sec_feed.Prelude.Texts.{text_length}
use sredevopsorg_sec_feed.Fetcher.Inputs.{plain_ops, debian}
use sredevopsorg_sec_feed.Enrich.Kev.{KevEntry, KevOps, kev_since, kev_added_at, recent_kev}
use sredevopsorg_sec_feed.Enrich.Kev.Recent.{IsRecent, recent_kev-IsRecent}

-- The day is the length of the text.
abbrev ops : KevOps
ops = record {
  ops = plain_ops;
  hash = λ s. s;
  find_link = λ s. none;
  parse_day = λ s. some (text_length s);
}

abbrev entry : KevEntry
entry = record {
  cve_id = some "CVE-2024-1086";
  notes = none;
  date_added = some "ten";
  vulnerability_name = some "runc";
  short_description = some "escape";
  required_action = none;
}

abbrev catalog : Dict KevEntry
catalog = ("CVE-2024-1086", entry) ∷ ("CVE-2024-21626", record entry { date_added = some "" }) ∷ []

one_recent : length (kev_since ops 2 catalog) ≡ 1
unfolding kev_since kev_added_at
one_recent = refl

recent_kev-IsRecent_example : IsRecent ops debian 2 catalog (recent_kev ops debian 2 catalog)
recent_kev-IsRecent_example = recent_kev-IsRecent ops debian (refl, tt) 2 catalog
