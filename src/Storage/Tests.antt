-- ===== src/Storage/Tests.antt =====
-- The two adapters on one archive.
use mathlib.Core.List.Perm
use sredevopsorg_sec_feed.Prelude.{◌≡◌, refl, true, some, List, [], ◌∷◌}
use sredevopsorg_sec_feed.Prelude.Dict.{lookup, insert}
use sredevopsorg_sec_feed.Prelude.Sort.{sort, sort_insert}
use sredevopsorg_sec_feed.Models.{DateTime, aware}
use sredevopsorg_sec_feed.Prelude.Int.{pos}
use sredevopsorg_sec_feed.Models.Tally.{unary, unary-IsLawful}
use sredevopsorg_sec_feed.Fetcher.Inputs.{low_item, other_item}
use sredevopsorg_sec_feed.Store.{Engine}
use sredevopsorg_sec_feed.Postgres.{FeedRow, Archive, Matching}
use sredevopsorg_sec_feed.Postgres.Feed.{entry_of, upsert_entry, upsert_entries, has_tag, matches}
use sredevopsorg_sec_feed.Postgres.Feed as Feed
use sredevopsorg_sec_feed.Postgres.Codec.{dumps, loads, loads-dumps, dumps_empty, text_leb-tally}
use sredevopsorg_sec_feed.Postgres.Image.{image, IsMonotone, IsScan}
use sredevopsorg_sec_feed.Postgres.Reads.{IsJson}
use sredevopsorg_sec_feed.Storage.{sqlite, postgres, select_backend, sqlite_store}
use sredevopsorg_sec_feed.Storage.Agrees.{Simulates, postgres-Simulates}

abbrev engine : Engine
engine = record { iso = unary; dumps = dumps; loads = loads; like = λ pattern text. true }

-- A scan that meets the second row first.
abbrev second_first : List FeedRow → List FeedRow
second_first [] = []
second_first (r ∷ []) = r ∷ []
second_first (r ∷ s ∷ rows) = s ∷ r ∷ rows

abbrev matching : Matching
matching = record {
  ilike = λ pattern text. true;
  jsonb_text = dumps;
  scan = second_first;
  timezone = λ t. pos 0;
}

matching-IsScan : IsScan matching
matching-IsScan [] = Perm.refl []
matching-IsScan (r ∷ []) = Perm.refl (r ∷ [])
matching-IsScan (r ∷ s ∷ rows) = Perm.swap r s rows

engine-IsMonotone : IsMonotone engine
engine-IsMonotone a b = text_leb-tally a b

engine-IsJson : IsJson engine
unfolding dumps
engine-IsJson = record { filled = λ l. refl; reads_back = loads-dumps; empty = dumps_empty }

postgres-Simulates_example : Simulates (image engine) (postgres engine matching) (sqlite engine)
postgres-Simulates_example =
    postgres-Simulates engine matching engine-IsMonotone unary-IsLawful engine-IsJson
      matching-IsScan refl

abbrev archive : Archive
unfolding Feed.upsert_items entry_of upsert_entry upsert_entries lookup insert sort sort_insert
archive =
    (Feed.upsert_items 3 (low_item ∷ other_item ∷ [])
      (record { feed_items = []; alerted_items = []; source_state = [] })).0

abbrev now : DateTime
now = aware 9 (pos 0)

no_database : select_backend (some "") ≡ sqlite_store
unfolding select_backend
no_database = refl
