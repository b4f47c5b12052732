-- ===== src/Fetcher/Nvd/Tests.antt =====
-- A page of the NVD with two CVEs, and the slots of four requests.
use sredevopsorg_sec_feed.Prelude.{ℕ, ◌≡◌, refl, true, none, some, List, [], ◌∷◌}
use sredevopsorg_sec_feed.Prelude.Int.{pos}
use sredevopsorg_sec_feed.Models.{aware, naive, Iso}
use sredevopsorg_sec_feed.Store.Tables.{empty_db}
use sredevopsorg_sec_feed.Sources.{Source}
use sredevopsorg_sec_feed.Fetcher.Inputs.{plain_ops, debian}
use sredevopsorg_sec_feed.Fetcher.Gather.{raised}
use sredevopsorg_sec_feed.Fetcher.Fetching.{World, Senses}
use sredevopsorg_sec_feed.Fetcher.Rss.{answered}
use sredevopsorg_sec_feed.Fetcher.Newest.{read_json, mixed_error}
use sredevopsorg_sec_feed.Fetcher.Nvd.{Cve, Slots, Line, Nvd, nvd_request, fetch_nvd}
use sredevopsorg_sec_feed.Fetcher.Nvd.Stagger.{reserve_all, AreStaggered, reserve_all-AreStaggered}

abbrev idle : Slots
idle = record { slot_loop = none; next_start = 0 }

-- Three calls at once and one later.
slots : reserve_all 1 (5 ∷ 5 ∷ 5 ∷ 9_000_000 ∷ []) idle ≡ 5 ∷ 2_000_005 ∷ 4_000_005 ∷ 9_000_000 ∷ []
unfolding reserve_all
slots = refl

reserve_all-AreStaggered_example :
    AreStaggered 0 (5 ∷ 5 ∷ 5 ∷ 9_000_000 ∷ []) (reserve_all 1 (5 ∷ 5 ∷ 5 ∷ 9_000_000 ∷ []) idle)
reserve_all-AreStaggered_example = reserve_all-AreStaggered 1 (5 ∷ 5 ∷ 5 ∷ 9_000_000 ∷ []) idle

abbrev nvd_source : Source
nvd_source = record debian { id = "nvd-linux"; kind = "nvd" }

abbrev cve : Cve
cve = record {
  id = "CVE-2024-1086";
  metrics = record { v40 = []; v31 = some 7_800_000 ∷ []; v30 = none ∷ []; v2 = [] };
  descriptions =
      record { lang = "es"; value = "un fallo" } ∷ record { lang = "en"; value = "a flaw" } ∷ [];
  references = [];
  published = some "2024-01-31";
}

-- The NVD gives naive times.
abbrev iso : Iso
iso = record { isoformat = λ t. ""; fromisoformat = λ s. some (naive 7) }

abbrev undated : Cve
undated = record cve { id = "CVE-2024-21626"; published = none }

abbrev nvd : List Cve → Nvd ℕ (List Cve)
nvd cves = record {
  ops = plain_ops;
  hash = λ s. s;
  iso = iso;
  urls = record { query_of = λ s. []; with_query = λ s q. s; strftime = λ t. "" };
  loop = record { running = λ n. 1; time = λ n. n; sleep = λ t n. n };
  client = record {
    get = λ url headers n.
        (n, answered (record { status = 200; etag = none; last_modified = none; content = cves }));
    status_error = λ resp. mixed_error;
    json = λ found. some (record { total_results = 2; vulnerabilities = found });
    json_error = λ found. mixed_error;
  };
  nvd_window_days = pos 7;
}

abbrev senses : Senses (Line ℕ)
senses = record { clock = λ n. aware 63_000_000_000_000_000 (pos 0); db_ok = λ n. true }

abbrev start : World (Line ℕ)
start = record { db = empty_db; net = record { slots = idle; outside = 5 } }

-- One CVE without a date beside one with a naive date: the whole source fails.
undated_fails :
    (fetch_nvd (nvd (cve ∷ undated ∷ [])) senses nvd_source start).1 ≡ raised mixed_error
unfolding fetch_nvd nvd_request read_json
undated_fails = refl
