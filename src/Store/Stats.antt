-- ===== src/Store/Stats.antt =====
-- The counts of the archive: `stats` of the SQLite adapter (app/sqlite_store.py).
use sredevopsorg_sec_feed.Prelude.{
  ℕ, ◌+◌, ◌-◌, String, Bool, true, false, ◌&&◌, ◌||◌, not, Option, none, some, List, [], ◌∷◌,
  length, select, if◌then◌else◌, ◌==◌,
}
use sredevopsorg_sec_feed.Prelude.Dict.{Dict, lookup, insert}
use sredevopsorg_sec_feed.Prelude.Texts.{text_or, text_leb}
use sredevopsorg_sec_feed.Models.{get_or}
use sredevopsorg_sec_feed.Store.{Row, Db, Engine}
use sredevopsorg_sec_feed.Store.Tables.{rows_of}

-- A group that no row is in has no key; the order of the groups is that of the rows.
pub record Stats : Type 0 where
  pub total : ℕ
  pub live : ℕ
  pub sample : ℕ
  pub urgent : ℕ
  pub by_severity : Dict ℕ
  pub by_tag : Dict ℕ
  pub kev : ℕ
  pub epss : ℕ
  pub osv : ℕ
  pub latest_seen : Option String

-- `d[k] = d.get(k, 0) + 1`
unfoldable pub count_one : String → Dict ℕ → Dict ℕ
unfolding lookup insert
count_one k d = insert k (get_or (lookup k d) 0 + 1) d

unfoldable pub count_all : List String → Dict ℕ → Dict ℕ
unfolding count_one
count_all [] d = d
count_all (k ∷ ks) d = count_all ks (count_one k d)

abbrev pub how_many {ℓ} : {A : Type ℓ} → (A → Bool) → List A → ℕ
how_many p xs = length (select p xs)

abbrev pub is_known {ℓ} : {A : Type ℓ} → Option A → Bool
is_known none = false
is_known (some a) = true

abbrev pub has_any {ℓ} : {A : Type ℓ} → List A → Bool
has_any [] = false
has_any (x ∷ xs) = true

-- `MAX(column)`, in an order; `NULL` if there are no rows.
abbrev pub greatest {ℓ} : {A : Type ℓ} → (A → A → Bool) → List A → Option A
greatest leq [] = none
greatest leq (x ∷ xs) = elim (greatest leq xs) [
  | none ↦ some x
  | some y ↦ some (if leq x y then y else x)
]

-- The names of the groups, row by row.
abbrev pub severity_column : List Row → List String
severity_column [] = []
severity_column (r ∷ rows) = r.severity ∷ severity_column rows

abbrev pub last_seen_column : List Row → List String
last_seen_column [] = []
last_seen_column (r ∷ rows) = r.last_seen ∷ last_seen_column rows

-- The loop over the rows' tags.
unfoldable pub count_tags : Engine → List Row → Dict ℕ → Dict ℕ
unfolding count_all
count_tags engine [] d = d
count_tags engine (r ∷ rows) d =
    count_tags engine rows (count_all (engine.loads (text_or r.tags "[]")) d)

-- One connection: every count sees the same state.
unfoldable pub stats : Engine → Db → Stats
unfolding count_all count_tags
stats engine db =
    let rows = rows_of db.feed_items in
    let live = how_many (λ (r : Row). not r.is_sample) rows in
    record {
      total = length rows;
      live = live;
      sample = length rows - live;
      urgent = how_many (λ (r : Row). r.urgent) rows;
      by_severity = count_all (severity_column rows) [];
      by_tag = count_tags engine rows [];
      kev = how_many (λ (r : Row). r.kev && not r.is_sample) rows;
      epss = how_many (λ (r : Row). is_known r.epss_score && not r.is_sample) rows;
      osv =
          how_many
            (λ (r : Row). not r.is_sample && not (r.osv_affected == "[]" || r.osv_affected == ""))
            rows;
      latest_seen = greatest text_leb (last_seen_column rows);
    }
