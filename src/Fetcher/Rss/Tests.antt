-- ===== src/Fetcher/Rss/Tests.antt =====
-- A feed of two entries, fetched and then not modified.
use sredevopsorg_sec_feed.Prelude.{ℕ, ◌≡◌, refl, true, false, none, some, List, [], ◌∷◌, length}
use sredevopsorg_sec_feed.Prelude.Int.{pos}
use sredevopsorg_sec_feed.Models.{aware}
use sredevopsorg_sec_feed.Models.Tally.{unary}
use sredevopsorg_sec_feed.Store.{Engine}
use sredevopsorg_sec_feed.Store.Tables.{empty_db}
use sredevopsorg_sec_feed.Fetcher.Inputs.{plain_ops, debian}
use sredevopsorg_sec_feed.Fetcher.Infer.{is_relevant, mentions, contains_any, truncate, strip_html}
use sredevopsorg_sec_feed.Fetcher.Gather.{root}
use sredevopsorg_sec_feed.Fetcher.Fetching.{World, Senses}
use sredevopsorg_sec_feed.Fetcher.Rss.{
  a_text, other, no_time, bad_time, good_time, Entry, Response, answered, Http, first_text,
  rss_item, rss_items,
}

abbrev engine : Engine
engine = record { iso = unary; dumps = λ l. "[]"; loads = λ s. []; like = λ p s. true }

abbrev senses : Senses ℕ
senses = record { clock = λ n. aware n (pos 0); db_ok = λ n. true }

abbrev entry : Entry
entry = record {
  title = a_text "linux kernel exploit";
  summary = other none;
  description = a_text "a flaw";
  link = "https://www.debian.org/security/1";
  published_parsed = bad_time;
  updated_parsed = good_time (aware 3 (pos 0));
  created_parsed = no_time;
  published = none;
  updated = none;
}

abbrev untitled : Entry
untitled = record entry { title = other none }

abbrev full : Response (List Entry)
full = record {
  status = 200;
  etag = some "v1";
  last_modified = none;
  content = untitled ∷ entry ∷ [];
}

abbrev unchanged : Response (List Entry)
unchanged = record { status = 304; etag = none; last_modified = none; content = [] }

-- The server's state is the time; it knows no other version.
abbrev server : Http ℕ (List Entry)
server = record {
  get = λ url headers n. (n, answered unchanged);
  status_error = λ resp.
      root (record {
        kind = "HTTPStatusError";
        message = "";
        is_timeout = false;
        is_transport = false;
      });
  entries = λ content. content;
  parse_date = λ s. none;
}

one_item : length (rss_items plain_ops (λ s. s) (λ s. none) debian (untitled ∷ entry ∷ [])) ≡ 1
unfolding rss_items rss_item first_text is_relevant truncate strip_html mentions contains_any
one_item = refl

abbrev start : World ℕ
start = record { db = empty_db; net = 5 }
