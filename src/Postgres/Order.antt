-- ===== src/Postgres/Order.antt =====
-- The order and the filters of the two adapters' queries agree.
use sredevopsorg_sec_feed.Prelude.{
  ℕ, zero, suc, ◌≡◌, refl, ap, inl, inr, Bool, not, Option, none, some, List, [], ◌∷◌, map, length,
  length-map, take, select, any, ltb, arith, Bool-cases,
}
use sredevopsorg_sec_feed.Prelude.Sort.{sort, sort_insert}
use sredevopsorg_sec_feed.Models.{map_option}
use sredevopsorg_sec_feed.Store.{Row, Engine}
use sredevopsorg_sec_feed.Store.Tables.{
  rows_of, live_count, newer, feed_order, live_clause, published_order,
}
use sredevopsorg_sec_feed.Postgres.{FeedRow, Archive}
use sredevopsorg_sec_feed.Postgres.Feed.{hide_sample, published_later, entry_order}
use sredevopsorg_sec_feed.Postgres.Upkeep.{later_published}
use sredevopsorg_sec_feed.Postgres.Image.{row_image, image, iso_at, rows_of-map_dict, IsMonotone}

module _ {ℓ κ} {A : Type ℓ} {B : Type κ} (f : A → B) where
  pub select-map :
      (p : A → Bool) (q : B → Bool)
      → ((x : A) → q (f x) ≡ p x)
      → (xs : List A) → select q (map f xs) ≡ map f (select p xs)
  select-map p q same [] = refl
  select-map p q same (x ∷ xs) = elim (Bool-cases (p x)) [
    | inl e ↦ rw (same x, e) (ap (◌∷◌ (f x)) (select-map p q same xs))
    | inr e ↦ rw (same x, e) (select-map p q same xs)
  ]

  pub take-map : (n : ℕ) (xs : List A) → take n (map f xs) ≡ map f (take n xs)
  take-map zero xs = refl
  take-map (suc n) [] = refl
  take-map (suc n) (x ∷ xs) = ap (◌∷◌ (f x)) (take-map n xs)

  module _ (before : A → A → Bool) (before' : B → B → Bool)
      (same : (x y : A) → before' (f x) (f y) ≡ before x y) where
    sort_insert-map :
        (x : A) (ys : List A)
        → sort_insert before' (f x) (map f ys) ≡ map f (sort_insert before x ys)
    unfolding sort_insert
    sort_insert-map x [] = refl
    sort_insert-map x (y ∷ ys) = elim (Bool-cases (before x y)) [
      | inl e ↦ rw (same x y, e) refl
      | inr e ↦ rw (same x y, e) (ap (◌∷◌ (f y)) (sort_insert-map x ys))
    ]

    pub sort-map : (xs : List A) → sort before' (map f xs) ≡ map f (sort before xs)
    unfolding sort
    sort-map [] = refl
    sort-map (x ∷ xs) = rw (sort-map xs) (sort_insert-map x (sort before xs))

any-select {ℓ} : {A : Type ℓ} (p : A → Bool) (xs : List A) → ltb 0 (length (select p xs)) ≡ any p xs
any-select p [] = refl
any-select p (x ∷ xs) = ground (arith, any-select p xs)

module _ (engine : Engine) where
  newer-published_later :
      IsMonotone engine
      → (a b : Option ℕ)
      → newer (map_option (iso_at engine) a) (map_option (iso_at engine) b) ≡ published_later a b
  newer-published_later mono none none = refl
  newer-published_later mono (some a) none = refl
  newer-published_later mono none (some b) = refl
  newer-published_later mono (some a) (some b) = mono b a

  pub feed_order-row_image :
      IsMonotone engine
      → (a b : FeedRow) → feed_order (row_image engine a) (row_image engine b) ≡ entry_order a b
  unfolding feed_order entry_order
  feed_order-row_image mono a b =
      rw
        (
          newer-published_later mono a.published b.published,
          newer-published_later mono b.published a.published,
          mono b.last_seen a.last_seen,
        )
        refl

  pub published_order-row_image :
      IsMonotone engine
      → (a b : FeedRow)
      → published_order (row_image engine a) (row_image engine b) ≡ later_published a b
  published_order-row_image mono a b = newer-published_later mono a.published b.published

  -- The rows of the image are the images of the rows.
  pub rows-image :
      (db : Archive)
      → rows_of (image engine db).feed_items ≡ map (row_image engine) (rows_of db.feed_items)
  rows-image db = rows_of-map_dict (row_image engine) db.feed_items

  live_count-any :
      (db : Archive)
      → ltb 0 (live_count (image engine db))
        ≡ any (λ (x : FeedRow). not x.is_sample) (rows_of db.feed_items)
  unfolding live_count
  live_count-any db =
      rw
        (
          rows-image db,
          select-map (row_image engine) (λ (x : FeedRow). not x.is_sample)
              (λ (x : Row). not x.is_sample) (λ x. refl) (rows_of db.feed_items),
          length-map,
        )
        (any-select (λ (x : FeedRow). not x.is_sample) (rows_of db.feed_items))

  -- The count of SQLite and the subquery of Postgres.
  pub live_clause-hide_sample :
      (db : Archive) (r : FeedRow)
      → live_clause (live_count (image engine db)) (row_image engine r)
        ≡ hide_sample db.feed_items r
  unfolding live_clause hide_sample
  live_clause-hide_sample db r = rw (live_count-any db) (ground arith)
