-- ===== src/Store/Writes.antt =====
-- What an upsert leaves under each id.
use sredevopsorg_sec_feed.Prelude.{
  String, ◌≡◌, refl, ◌∙◌, inl, inr, Option, none, some, List, [], ◌∷◌, map, select, All, eq_iff,
  ◌==◌, Bool-cases, Option-cases, if◌then◌else◌,
}
use sredevopsorg_sec_feed.Prelude.Dict.{
  Dict, lookup, Distinct, lookup-insert, Distinct-insert, All-insert,
}
use sredevopsorg_sec_feed.Models.{FeedItem}
use sredevopsorg_sec_feed.Store.{Row, Db, Engine}
use sredevopsorg_sec_feed.Store.Tables.{upsert_row, upsert_rows}
use sredevopsorg_sec_feed.Store.Sqlite.{row_of, upsert_items}

-- The primary key: no id twice, and each row under its own id.
pub record IsTable (table : Dict Row) : Type 0 where
  pub distinct : Distinct table
  pub keyed : All (λ e. e.1.id ≡ e.0) table

-- One row after another is written over what is there; only `first_seen` stays.
abbrev pub overwritten : Option Row → List Row → Option Row
overwritten old [] = old
overwritten none (row ∷ rows) = overwritten (some row) rows
overwritten (some old) (row ∷ rows) =
    overwritten (some (record row { first_seen = old.first_seen })) rows

abbrev pub rows_with_id : String → List Row → List Row
rows_with_id k = select (λ (row : Row). row.id == k)

lookup-upsert_row :
    (k : String) (row : Row) (table : Dict Row)
    → lookup k (upsert_row row table)
      ≡ (if row.id == k then overwritten (lookup row.id table) (row ∷ []) else lookup k table)
unfolding upsert_row
lookup-upsert_row k row table = elim (Option-cases (lookup row.id table)) [
  | inl e ↦ rw (e, upsert_row) (lookup-insert row.id k row table)
  | inr (old, e) ↦
      rw (e, upsert_row) (lookup-insert row.id k (record row { first_seen = old.first_seen }) table)
]

lookup-upsert_rows :
    (k : String) (rows : List Row) (table : Dict Row)
    → lookup k (upsert_rows rows table) ≡ overwritten (lookup k table) (rows_with_id k rows)
unfolding upsert_rows
lookup-upsert_rows k [] table = refl
lookup-upsert_rows k (row ∷ rows) table = elim (Bool-cases (row.id == k)) [
  | inl e ↦
      rw
        (
          lookup-upsert_rows k rows (upsert_row row table),
          lookup-upsert_row,
          e,
          (eq_iff row.id k).0 e,
        )
        (elim (Option-cases (lookup k table)) [ inl new ↦ rw new | inr (old, found) ↦ rw found ])
  | inr e ↦ rw (lookup-upsert_rows k rows (upsert_row row table), lookup-upsert_row, e)
]

upsert_row-IsTable : (row : Row) (table : Dict Row) → IsTable table → IsTable (upsert_row row table)
unfolding upsert_row
upsert_row-IsTable row table t = elim (Option-cases (lookup row.id table)) [
  | inl e ↦
      rw (e, upsert_row)
        (record {
          distinct = Distinct-insert row.id row table t.distinct;
          keyed = All-insert (λ e. e.1.id ≡ e.0) row.id row table refl t.keyed;
        })
  | inr (old, e) ↦
      let new : Row = record row { first_seen = old.first_seen } in
      rw (e, upsert_row)
        (record {
          distinct = Distinct-insert row.id new table t.distinct;
          keyed = All-insert (λ e. e.1.id ≡ e.0) row.id new table refl t.keyed;
        })
]

upsert_rows-IsTable :
    (rows : List Row) (table : Dict Row) → IsTable table → IsTable (upsert_rows rows table)
unfolding upsert_rows
upsert_rows-IsTable [] table t = t
upsert_rows-IsTable (row ∷ rows) table t =
    upsert_rows-IsTable rows (upsert_row row table) (upsert_row-IsTable row table t)

overwritten-first_seen :
    (old : Row) (rows : List Row)
    → (r : Row) × (overwritten (some old) rows ≡ some r) × (r.first_seen ≡ old.first_seen)
overwritten-first_seen old [] = (old, refl, refl)
overwritten-first_seen old (row ∷ rows) =
    overwritten-first_seen (record row { first_seen = old.first_seen }) rows

module _ (engine : Engine) (now : String) (items : List FeedItem) (db : Db) where
  -- After an upsert each id holds the row of the last item with that id, with the first_seen of the
  -- row that stood there first; an id that no item has keeps its row; the marks and the source
  -- states are left alone.
  pub lookup-upsert_items :
      (k : String)
      → (lookup k (upsert_items engine now items db).0.feed_items
          ≡ overwritten (lookup k db.feed_items) (rows_with_id k (map (row_of engine now) items)))
        × ((upsert_items engine now items db).0.alerted_items ≡ db.alerted_items)
        × ((upsert_items engine now items db).0.source_state ≡ db.source_state)
  unfolding upsert_items
  lookup-upsert_items k =
      (lookup-upsert_rows k (map (row_of engine now) items) db.feed_items, refl, refl)

  -- An upsert preserves the primary key: no id twice, and each row under its own id.
  pub upsert_items-IsTable :
      IsTable db.feed_items → IsTable (upsert_items engine now items db).0.feed_items
  unfolding upsert_items
  upsert_items-IsTable t = upsert_rows-IsTable (map (row_of engine now) items) db.feed_items t

  -- A row that is already stored keeps a row under its id, with the time at which it was first
  -- seen, when items are upserted.
  pub upsert_items-first_seen :
      (k : String) (old : Row)
      → lookup k db.feed_items ≡ some old
      → (r : Row) × (lookup k (upsert_items engine now items db).0.feed_items ≡ some r)
        × (r.first_seen ≡ old.first_seen)
  upsert_items-first_seen k old h =
      let rows = rows_with_id k (map (row_of engine now) items) in
      let (r, e, same) = overwritten-first_seen old rows in
      (r, (lookup-upsert_items k).0 ∙ rw h e, same)
