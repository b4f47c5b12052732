-- ===== src/Store/Asked.antt =====
-- The feed query, against a description of the rows that it is asked for.
use sredevopsorg_sec_feed.Prelude.Cut.{Among}
use sredevopsorg_sec_feed.Prelude.{
  ℕ, ◌≤◌, String, ◌<>◌, ◌≡◌, ◌⊎◌, Bool, true, false, not, ◌&&◌, Option, some, List, [], ◌++◌,
  length, any, All,
}
use sredevopsorg_sec_feed.Prelude.Texts.{is_blank}
use sredevopsorg_sec_feed.Store.{Row, Db, Engine}
use sredevopsorg_sec_feed.Store.Tables.{rows_of, live_count, severity_clause, live_clause}
use sredevopsorg_sec_feed.Store.Sqlite.{escape_like, tag_clause}
use sredevopsorg_sec_feed.Store.Precedence.{IsBefore, AreOrdered}

module _ (engine : Engine) (tag severity : Option String) (counted : Db) where
  -- The row has the tag, in quotes in the JSON text of its tags, if one is asked for; it has the
  -- severity, if one is asked for; and it is no sample if a live row was counted.
  pub record IsWanted (r : Row) : Type 0 where
    pub tagged :
        (t : String)
        → tag ≡ some t
        → is_blank t ≡ false
        → engine.like ("%\"" <> escape_like t <> "\"%") r.tags ≡ true
    pub rated : (s : String) → severity ≡ some s → is_blank s ≡ false → r.severity ≡ s
    pub live :
        any (λ (o : Row). not o.is_sample) (rows_of counted.feed_items) ≡ true → r.is_sample ≡ false

module _ (engine : Engine) (tag severity : Option String) (limit : ℕ) (counted db : Db) where
  -- The test of the query.
  abbrev wanted : Row → Bool
  wanted r =
      live_clause (live_count counted) r && tag_clause engine tag r && severity_clause severity r

  -- The rows are wanted rows of the table in the order of the feed, at most `limit`; every wanted
  -- row is among them or `left_out`; what is left out may stand after each of them, and is nothing
  -- unless there are `limit` rows.
  pub record IsFeed (rows : List Row) : Type 0 where
    pub short : length rows ≤ limit
    pub sorted : AreOrdered rows
    pub each :
        All (λ r. IsWanted engine tag severity counted r × Among r (rows_of db.feed_items)) rows
    pub left_out : List Row
    pub every :
        (r : Row)
        → Among r (rows_of db.feed_items)
        → IsWanted engine tag severity counted r
        → Among r (rows ++ left_out)
    pub later : All (λ a. All (IsBefore a) left_out) rows
    pub full : (left_out ≡ []) ⊎ (length rows ≡ limit)
