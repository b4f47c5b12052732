-- ===== src/Store/Reads.antt =====
-- What the feed query returns.
use sredevopsorg_sec_feed.Prelude.{
  [], ◌∷◌, any, ltb, ℕ, ◌≤◌, String, ◌≡◌, refl, Bool, true, false, not, ◌&&◌, Option, none, some,
  List, select, length, length-take-le, take_of_length-le, All, All-map, All-take, select-IsTrue,
  arith, if◌then◌else◌,
}
use mathlib.Core.List.{Perm}
use sredevopsorg_sec_feed.Prelude.Sort.{
  IsSorted, IsSorted-take, sort, All-sort, sort-IsSorted, sort-perm, length-sort,
}
use sredevopsorg_sec_feed.Prelude.Texts.{text_leb, text_leb_total, text_leb_trans}
use sredevopsorg_sec_feed.Store.{Row, Db, Engine}
use sredevopsorg_sec_feed.Store.Tables.{
  rows_of, live_count, newer, feed_order, severity_clause, live_clause, bit_geq,
}
use sredevopsorg_sec_feed.Store.Sqlite.{tag_clause, query_rows}

newer_total : (a b : Option String) → newer a b ≡ false → newer b a ≡ true
newer_total none none h = refl
newer_total none (some b) h = refl
newer_total (some a) none h = ground arith
newer_total (some a) (some b) h = text_leb_total b a h

newer_trans : (a b c : Option String) → newer a b ≡ true → newer b c ≡ true → newer a c ≡ true
newer_trans a b none h k = refl
newer_trans none none (some c) h k = k
newer_trans none (some b) (some c) h k = ground arith
newer_trans (some a) none (some c) h k = ground arith
newer_trans (some a) (some b) (some c) h k = text_leb_trans c b a k h

pub order_total : (a b : Row) → feed_order a b ≡ false → feed_order b a ≡ true
unfolding feed_order
order_total a b h = ground (
  arith,
  newer_total a.published b.published,
  newer_total b.published a.published,
  text_leb_total b.last_seen a.last_seen,
)

-- `a` before `b` by a first key, of which `ab` and `ba` say whether it lets `a` or `b` be first,
-- and then by `next`.
unfoldable pub by_key : Bool → Bool → Bool → Bool
by_key ab ba next = if not ba then true else if not ab then false else next

pub by_key_trans :
    (ab ba bc cb ac ca ab_next bc_next ac_next : Bool)
    → (ab ≡ true → bc ≡ true → ac ≡ true)
    → (bc ≡ true → ca ≡ true → ba ≡ true)
    → (ca ≡ true → ab ≡ true → cb ≡ true)
    → (ab ≡ false → ba ≡ true)
    → (bc ≡ false → cb ≡ true)
    → (ab_next ≡ true → bc_next ≡ true → ac_next ≡ true)
    → by_key ab ba ab_next ≡ true
    → by_key bc cb bc_next ≡ true
    → by_key ac ca ac_next ≡ true
unfolding by_key
by_key_trans ab ba bc cb ac ca ab_next bc_next ac_next up back round total_ab total_bc next h k =
    ground arith

pub bit_geq_trans : (a b c : Bool) → bit_geq a b ≡ true → bit_geq b c ≡ true → bit_geq a c ≡ true
bit_geq_trans a b c h k = ground arith

pub bit_geq_total : (a b : Bool) → bit_geq a b ≡ false → bit_geq b a ≡ true
bit_geq_total a b h = ground arith

pub order_trans :
    (a b c : Row) → feed_order a b ≡ true → feed_order b c ≡ true → feed_order a c ≡ true
unfolding feed_order by_key
order_trans a b c =
    let late =
      by_key_trans (bit_geq a.urgent b.urgent) (bit_geq b.urgent a.urgent)
        (bit_geq b.urgent c.urgent) (bit_geq c.urgent b.urgent) (bit_geq a.urgent c.urgent)
        (bit_geq c.urgent a.urgent) (text_leb b.last_seen a.last_seen)
        (text_leb c.last_seen b.last_seen) (text_leb c.last_seen a.last_seen)
        (bit_geq_trans a.urgent b.urgent c.urgent) (bit_geq_trans b.urgent c.urgent a.urgent)
        (bit_geq_trans c.urgent a.urgent b.urgent) (bit_geq_total a.urgent b.urgent)
        (bit_geq_total b.urgent c.urgent)
        (λ h k. text_leb_trans c.last_seen b.last_seen a.last_seen k h) in
    by_key_trans (newer a.published b.published) (newer b.published a.published)
      (newer b.published c.published) (newer c.published b.published)
      (newer a.published c.published) (newer c.published a.published) _ _ _
      (newer_trans a.published b.published c.published)
      (newer_trans b.published c.published a.published)
      (newer_trans c.published a.published b.published) (newer_total a.published b.published)
      (newer_total b.published c.published) late

any-select {ℓ} : {A : Type ℓ} (p : A → Bool) (xs : List A) → ltb 0 (length (select p xs)) ≡ any p xs
any-select p [] = refl
any-select p (x ∷ xs) = ground (arith, any-select p xs)

module _ (engine : Engine) (tag severity : Option String) (limit : ℕ) (counted db : Db) where
  -- The rows of the table that the filters let through.
  abbrev pub chosen : List Row
  chosen =
      select
        (λ (r : Row).
          live_clause (live_count counted) r
          && tag_clause engine tag r
          && severity_clause severity r)
        (rows_of db.feed_items)

  -- A feed query returns at most limit rows, in the order of the feed, each passing the tag and
  -- severity filters and the one that hides the samples once a live row was counted.
  pub query_rows_lem :
      (length (query_rows engine tag severity limit counted db) ≤ limit)
      × IsSorted feed_order (query_rows engine tag severity limit counted db)
      × All
          (λ r.
            (tag_clause engine tag r ≡ true)
            × (severity_clause severity r ≡ true)
            × (live_clause (live_count counted) r ≡ true))
          (query_rows engine tag severity limit counted db)
  unfolding query_rows live_clause
  query_rows_lem = (
    length-take-le limit (sort feed_order chosen),
    IsSorted-take feed_order limit (sort feed_order chosen)
        (sort-IsSorted feed_order order_total order_trans chosen),
    All-take _ limit (sort feed_order chosen) (
        All-sort feed_order _ chosen
          (All-map _ _ (λ r h. ground arith) chosen (select-IsTrue _ (rows_of db.feed_items)))),
  )

  -- If the rows that the filters let through fit the limit, a feed query returns each of them, as
  -- often as the table holds it, and no other.
  pub query_rows-perm :
      length chosen ≤ limit → Perm (query_rows engine tag severity limit counted db) chosen
  unfolding query_rows
  query_rows-perm h =
      rw (take_of_length-le limit (sort feed_order chosen) (rw (length-sort feed_order chosen) h))
        (sort-perm feed_order chosen)
