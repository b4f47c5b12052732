-- ===== src/Store/Prune.antt =====
-- What pruning deletes, and what it must keep.
use sredevopsorg_sec_feed.Prelude.{
  String, ◌≡◌, true, false, not, ◌&&◌, none, some, All-select, arith, if◌then◌else◌,
}
use sredevopsorg_sec_feed.Prelude.Dict.{lookup, Distinct, lookup-select, Distinct-select}
use sredevopsorg_sec_feed.Store.{Row, Db}
use sredevopsorg_sec_feed.Store.Tables.{is_marked, text_lt, prune_items}
use sredevopsorg_sec_feed.Store.Writes.{IsTable}

module _ (cutoff : String) (db : Db) (table : IsTable db.feed_items) where
  -- In a table with a primary key, pruning removes a row exactly if it is no sample and was last
  -- seen before the cutoff.
  pub lookup-prune_items :
      (k : String)
      → lookup k (prune_items cutoff db).0.feed_items ≡ elim (lookup k db.feed_items) [
        | none ↦ none
        | some r ↦ if not r.is_sample && text_lt r.last_seen cutoff then none else some r
      ]
  unfolding prune_items
  lookup-prune_items k = ground (
    arith,
    lookup-select (λ (e : String × Row). not (not e.1.is_sample && text_lt e.1.last_seen cutoff)) k
        db.feed_items table.distinct,
  )

  pub prune_items-IsTable : IsTable (prune_items cutoff db).0.feed_items
  unfolding prune_items
  prune_items-IsTable = record {
    distinct = Distinct-select _ db.feed_items table.distinct;
    keyed = All-select (λ e. e.1.id ≡ e.0) _ db.feed_items table.keyed;
  }

  -- With primary keys in both tables, an item that stays in the archive keeps its mark when the
  -- archive is pruned, and gets none.
  pub prune_items-is_marked :
      Distinct db.alerted_items
      → (k : String) (r : Row) → lookup k (prune_items cutoff db).0.feed_items ≡ some r
      → is_marked (prune_items cutoff db).0 k ≡ is_marked db k
  unfolding prune_items
  prune_items-is_marked marks k r h = ground (
    arith,
    lookup-select
        (λ (e : String × String). not (
          text_lt e.1 cutoff && elim (lookup e.0 (prune_items cutoff db).0.feed_items) [
            | none ↦ true
            | some r ↦ false
          ]))
        k db.alerted_items marks,
  )
