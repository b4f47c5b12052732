-- ===== src/Store/Alerted.antt =====
-- Marked items are not returned for alerting again.
use sredevopsorg_sec_feed.Prelude.{
  ℕ, ◌≤◌, String, ◌≡◌, inl, inr, Bool, true, false, not, ◌&&◌, ◌||◌, none, some, List, [], ◌∷◌,
  select, length, length-take-le, All, All-map, All-take, select-IsTrue, member, arith, eq_iff,
  ◌==◌, Option-cases, if◌then◌else◌,
}
use sredevopsorg_sec_feed.Prelude.Dict.{Dict, lookup, lookup-insert}
use sredevopsorg_sec_feed.Prelude.Sort.{sort, All-sort}
use sredevopsorg_sec_feed.Store.{Row, Db}
use sredevopsorg_sec_feed.Store.Tables.{
  rows_of, live_count, live_clause, is_marked, published_order, unalerted_rows, mark_one, mark_all,
  mark_alerted,
}

lookup-mark_one :
    (k j now : String) (table : Dict String)
    → lookup k (mark_one now j table) ≡ (
        if j == k
        then (elim (lookup j table) [ none ↦ some now | some t ↦ some t ])
        else lookup k table)
unfolding mark_one
lookup-mark_one k j now table = elim (Option-cases (lookup j table)) [
  | inl e ↦ rw (e, mark_one) (lookup-insert j k now table)
  | inr (t, e) ↦ rw (e, mark_one) (ground (arith, eq_iff j k))
]

-- After marking, an item is marked if it was, or if it is in the list; an earlier mark keeps its
-- time.
lookup-mark_all :
    (k now : String) (ids : List String) (table : Dict String)
    → lookup k (mark_all now ids table)
      ≡ elim (lookup k table) [ none ↦ if member k ids then some now else none | some t ↦ some t ]
unfolding mark_all
lookup-mark_all k now [] table = ground arith
lookup-mark_all k now (j ∷ ids) table = ground (
  arith,
  lookup-mark_all k now ids (mark_one now j table),
  lookup-mark_one k j now table,
  eq_iff j k,
)

pub is_marked-mark_alerted :
    (now k : String) (ids : List String) (db : Db)
    → is_marked (mark_alerted now ids db) k ≡ (is_marked db k || member k ids)
unfolding mark_alerted
is_marked-mark_alerted now k ids db = ground (arith, lookup-mark_all k now ids db.alerted_items)

-- The rows to alert are at most limit, each urgent, not marked, and live if a live row exists.
pub unalerted_rows_lem :
    (limit : ℕ) (db : Db)
    → (length (unalerted_rows limit db) ≤ limit)
      × All
          (λ r.
            (r.urgent ≡ true)
            × (is_marked db r.id ≡ false)
            × (live_clause (live_count db) r ≡ true))
          (unalerted_rows limit db)
unfolding unalerted_rows
unalerted_rows_lem limit db =
    let wanted : Row → Bool =
      λ r. r.urgent && not (is_marked db r.id) && live_clause (live_count db) r in
    let chosen = select wanted (rows_of db.feed_items) in
    (
      length-take-le limit (sort published_order chosen),
      All-take _ limit (sort published_order chosen) (
          All-sort published_order _ chosen (
            All-map (λ r. wanted r ≡ true) _ (λ r h. ground arith) chosen
              (select-IsTrue wanted (rows_of db.feed_items)))),
    )
