-- ===== src/Fetcher/Redhat/Tests.antt =====
-- A row of the Red Hat API.
use sredevopsorg_sec_feed.Prelude.{ℕ, ◌≡◌, refl, true, none, some, List, [], ◌∷◌}
use sredevopsorg_sec_feed.Models.{Iso}
use sredevopsorg_sec_feed.Store.Tables.{empty_db}
use sredevopsorg_sec_feed.Fetcher.Inputs.{plain_ops}
use sredevopsorg_sec_feed.Fetcher.Fetching.{World}
use sredevopsorg_sec_feed.Fetcher.Rss.{answered}
use sredevopsorg_sec_feed.Fetcher.Newest.{RestClient, mixed_error}
use sredevopsorg_sec_feed.Fetcher.Redhat.{RedhatCve, redhat_title}

abbrev iso : Iso
iso = record { isoformat = λ t. ""; fromisoformat = λ s. none }

abbrev row : RedhatCve
row = record {
  cve = "CVE-2024-1086";
  bugzilla_description = "a flaw";
  public_date = none;
  patch = record { affected_release = true; package_state = [] };
}

abbrev client : RestClient ℕ (List RedhatCve) (List RedhatCve)
client = record {
  get = λ url headers n. (
    n,
    answered (record { status = 200; etag = none; last_modified = none; content = row ∷ [] }),
  );
  status_error = λ resp. mixed_error;
  json = λ found. some found;
  json_error = λ found. mixed_error;
}

abbrev start : World ℕ
start = record { db = empty_db; net = 5 }

titled :
    redhat_title plain_ops (λ s. s) iso (λ s. s ∷ []) row.cve "a flaw" ≡ "CVE-2024-1086: a flaw"
unfolding redhat_title
titled = refl
