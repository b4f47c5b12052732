-- ===== src/Fetcher/Dedupe.antt =====
-- Deduplication of the fetched items (app/fetcher.py): `_sort_key` and `_dedupe`.
pub mod Merge
pub mod Feed
mod Tests
use sredevopsorg_sec_feed.Prelude.{
  ℕ, ◌+◌, ◌*◌, String, ◌<>◌, Bool, true, false, ◌||◌, ◌&&◌, Option, none, some, List, [], ◌∷◌, ◌++◌,
  map, ltb, leb, if◌then◌else◌,
}
use sredevopsorg_sec_feed.Prelude.Dict.{Dict, lookup, insert}
use sredevopsorg_sec_feed.Prelude.Sets.{uniq, union}
use sredevopsorg_sec_feed.Prelude.Sort.{sort, sort_insert}
use sredevopsorg_sec_feed.Models.{DateTime, utc, datetime_min, ensure_aware, FeedItem, get_or}

abbrev pub severity_ranks : Dict ℕ
severity_ranks = ("critical", 4) ∷ ("high", 3) ∷ ("medium", 2) ∷ ("low", 1) ∷ ("unknown", 0) ∷ []

-- `SEVERITY_RANK.get(severity, 0)`
unfoldable pub severity_rank : String → ℕ
unfolding lookup
severity_rank severity = get_or (lookup severity severity_ranks) 0

abbrev pub published_or_min : Option DateTime → DateTime
published_or_min none = datetime_min
published_or_min (some p) = p

-- The first part of the key: the publication time in UTC.
unfoldable pub sort_time : FeedItem → ℕ
unfolding ensure_aware
sort_time item = utc (ensure_aware (published_or_min item.published))

abbrev pub bit : Bool → ℕ
bit true = 1
bit false = 0

-- `_sort_key(a) >= _sort_key(b)`, in the order of tuples: with `reverse=True` and a stable sort,
-- `a` may stand before `b`.
unfoldable pub not_older : FeedItem → FeedItem → Bool
unfolding sort_time
not_older a b =
    if ltb (sort_time b) (sort_time a)
    then true
    else if ltb (sort_time a) (sort_time b)
    then false
    else leb (bit b.urgent) (bit a.urgent)

-- What the loop does to `existing` when `item` has the same id.
unfoldable pub merge : FeedItem → FeedItem → FeedItem
unfolding uniq union
merge existing item = record existing {
  tags = union existing.tags item.tags;
  cves = uniq (existing.cves ++ item.cves);
  severity =
      if ltb (severity_rank existing.severity) (severity_rank item.severity)
      then item.severity
      else existing.severity;
  urgent = existing.urgent || item.urgent;
}

-- One round of the loop.
unfoldable pub see : Dict FeedItem → FeedItem → Dict FeedItem
unfolding merge lookup insert
see seen item = elim (lookup item.id seen) [
  | none ↦ insert item.id item seen
  | some existing ↦ insert item.id (merge existing item) seen
]

unfoldable pub see_all : Dict FeedItem → List FeedItem → Dict FeedItem
unfolding see
see_all seen [] = seen
see_all seen (item ∷ items) = see_all (see seen item) items

abbrev pub values : Dict FeedItem → List FeedItem
values [] = []
values ((k, item) ∷ d) = item ∷ values d

unfoldable pub dedupe : List FeedItem → List FeedItem
unfolding see_all not_older sort sort_insert
dedupe items = sort not_older (values (see_all [] items))
