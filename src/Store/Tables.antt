-- ===== src/Store/Tables.antt =====
-- The statements of the SQLite adapter that read and write the tables alone (app/sqlite_store.py).
use sredevopsorg_sec_feed.Prelude.{
  ℕ, ◌-◌, String, Bool, true, false, ◌&&◌, not, Option, none, some, List, [], ◌∷◌, length, take,
  select, ltb, if◌then◌else◌, ◌==◌,
}
use sredevopsorg_sec_feed.Prelude.Dict.{Dict, lookup, insert}
use sredevopsorg_sec_feed.Prelude.Sort.{sort}
use sredevopsorg_sec_feed.Prelude.Texts.{is_blank, text_leb}
use sredevopsorg_sec_feed.Store.{Row, SourceState, Db}

unfoldable pub empty_db : Db
empty_db = record { feed_items = []; alerted_items = []; source_state = [] }

abbrev pub rows_of {ℓ} : {V : Type ℓ} → Dict V → List V
rows_of [] = []
rows_of ((k, v) ∷ d) = v ∷ rows_of d

-- `INSERT ... ON CONFLICT(id) DO UPDATE SET ...`: every column but `id` and `first_seen`.
unfoldable pub upsert_row : Row → Dict Row → Dict Row
upsert_row row table = elim (lookup row.id table) [
  | none ↦ insert row.id row table
  | some old ↦ insert row.id (record row { first_seen = old.first_seen }) table
]

-- `executemany`, in one transaction.
unfoldable pub upsert_rows : List Row → Dict Row → Dict Row
unfolding upsert_row
upsert_rows [] table = table
upsert_rows (row ∷ rows) table = upsert_rows rows (upsert_row row table)

-- `SELECT COUNT(*) FROM feed_items WHERE is_sample=0`
unfoldable pub live_count : Db → ℕ
live_count db = length (select (λ (r : Row). not r.is_sample) (rows_of db.feed_items))

-- `a` may stand before `b` under `published DESC`; NULL is the least value.
abbrev pub newer : Option String → Option String → Bool
newer a none = true
newer none (some b) = false
newer (some a) (some b) = text_leb b a

abbrev pub bit_geq : Bool → Bool → Bool
bit_geq true b = true
bit_geq false b = not b

-- `ORDER BY published DESC, urgent DESC, last_seen DESC`
unfoldable pub feed_order : Row → Row → Bool
feed_order a b =
    if not (newer b.published a.published)
    then true
    else if not (newer a.published b.published)
    then false
    else if not (bit_geq b.urgent a.urgent)
    then true
    else if not (bit_geq a.urgent b.urgent)
    then false
    else text_leb b.last_seen a.last_seen

unfoldable pub severity_clause : Option String → Row → Bool
severity_clause none row = true
severity_clause (some severity) row = if is_blank severity then true else row.severity == severity

-- `if live_count > 0: clauses.append("is_sample = 0")`
unfoldable pub live_clause : ℕ → Row → Bool
live_clause live row = if ltb 0 live then not row.is_sample else true

abbrev pub is_marked : Db → String → Bool
is_marked db k = elim (lookup k db.alerted_items) [ none ↦ false | some t ↦ true ]

-- `ORDER BY f.published DESC`
abbrev pub published_order : Row → Row → Bool
published_order a b = newer a.published b.published

-- One connection: the count and the join see the same state.
unfoldable pub unalerted_rows : ℕ → Db → List Row
unfolding live_count live_clause
unalerted_rows limit db = take limit (
    sort published_order (
      select (λ (r : Row). r.urgent && not (is_marked db r.id) && live_clause (live_count db) r)
        (rows_of db.feed_items)))

-- `INSERT OR IGNORE`, for one id.
unfoldable pub mark_one : String → String → Dict String → Dict String
mark_one now k table = elim (lookup k table) [ none ↦ insert k now table | some t ↦ table ]

unfoldable pub mark_all : String → List String → Dict String → Dict String
unfolding mark_one
mark_all now [] table = table
mark_all now (k ∷ ids) table = mark_all now ids (mark_one now k table)

unfoldable pub mark_alerted : String → List String → Db → Db
unfolding mark_all
mark_alerted now ids db = record db { alerted_items = mark_all now ids db.alerted_items }

-- `COALESCE(new, old)`
abbrev pub coalesce {ℓ} : {A : Type ℓ} → Option A → Option A → Option A
coalesce none old = old
coalesce (some new) old = some new

unfoldable pub get_source_state : String → Db → Option SourceState
get_source_state source_id db = lookup source_id db.source_state

-- `INSERT ... ON CONFLICT(source_id) DO UPDATE SET ...`
unfoldable pub set_source_state : String → SourceState → Db → Db
set_source_state source_id new db = record db {
  source_state = elim (lookup source_id db.source_state) [
    | none ↦ insert source_id new db.source_state
    | some old ↦
        insert source_id
          (record {
            etag = coalesce new.etag old.etag;
            last_modified = coalesce new.last_modified old.last_modified;
            last_fetched_at = new.last_fetched_at;
            last_ok_at = coalesce new.last_ok_at old.last_ok_at;
            last_error = new.last_error;
            last_payload = coalesce new.last_payload old.last_payload;
          })
          db.source_state
  ];
}

-- `last_seen < ?`
abbrev pub text_lt : String → String → Bool
text_lt s t = not (text_leb t s)

-- Both deletions are one transaction; the second sees the first.
unfoldable pub prune_items : String → Db → Db × ℕ
prune_items cutoff db =
    let kept =
      select (λ (e : String × Row). not (not e.1.is_sample && text_lt e.1.last_seen cutoff))
        db.feed_items in
    let marks =
      select
        (λ (e : String × String).
          not (text_lt e.1 cutoff && elim (lookup e.0 kept) [ none ↦ true | some r ↦ false ]))
        db.alerted_items in
    (record db { feed_items = kept; alerted_items = marks }, length db.feed_items - length kept)
