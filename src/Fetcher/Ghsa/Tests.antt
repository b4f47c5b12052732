-- ===== src/Fetcher/Ghsa/Tests.antt =====
-- An advisory, fetched and then not modified.
use sredevopsorg_sec_feed.Prelude.{ℕ, true, none, some, [], ◌∷◌}
use sredevopsorg_sec_feed.Prelude.Int.{pos}
use sredevopsorg_sec_feed.Models.{aware}
use sredevopsorg_sec_feed.Models.Tally.{unary}
use sredevopsorg_sec_feed.Store.{Engine}
use sredevopsorg_sec_feed.Store.Tables.{empty_db}
use sredevopsorg_sec_feed.Fetcher.Inputs.{plain_ops, debian}
use sredevopsorg_sec_feed.Fetcher.Fetching.{World, Senses}
use sredevopsorg_sec_feed.Fetcher.Rss.{Response, answered}
use sredevopsorg_sec_feed.Fetcher.Newest.{RestClient, mixed_error}
use sredevopsorg_sec_feed.Fetcher.Ghsa.{
  Advisory, GhsaBody, not_a_dict, an_advisory, rows, ghsa_body,
}

abbrev engine : Engine
engine = record { iso = unary; dumps = λ l. "[]"; loads = λ s. []; like = λ p s. true }

abbrev senses : Senses ℕ
senses = record { clock = λ n. aware n (pos 0); db_ok = λ n. true }

abbrev advisory : Advisory
advisory = record {
  ghsa_id = some "GHSA-1";
  cve_id = none;
  summary = some "escape";
  description = none;
  severity = some "MODERATE";
  html_url = none;
  published_at = none;
  published = none;
  updated_at = none;
  updated = none;
}

abbrev full : Response GhsaBody
full = record {
  status = 200;
  etag = some "v1";
  last_modified = none;
  content = rows (not_a_dict ∷ an_advisory advisory ∷ []);
}

abbrev unchanged : Response GhsaBody
unchanged = record full { status = 304 }

abbrev client : RestClient ℕ GhsaBody GhsaBody
client = record {
  get = λ url headers n. (n, answered unchanged);
  status_error = λ resp. mixed_error;
  json = λ body. some body;
  json_error = λ body. mixed_error;
}

abbrev start : World ℕ
start = record { db = empty_db; net = 5 }

abbrev after : World ℕ
after = record (ghsa_body plain_ops (λ s. s) engine senses client none debian full start).0 {
  net = 7;
}
