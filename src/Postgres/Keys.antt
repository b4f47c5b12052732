-- ===== src/Postgres/Keys.antt =====
-- The keys of the two orders of the Postgres adapter's queries.
use sredevopsorg_sec_feed.Prelude.{
  ℕ, ◌≡◌, refl, ap, inl, inr, Bool, true, false, Option, none, some, leb, arith, Option-cases,
  String,
}
use sredevopsorg_sec_feed.Models.{ItemDict, DateTime, ensure_aware, item_to_dict, map_option}
use sredevopsorg_sec_feed.Store.{Engine}
use sredevopsorg_sec_feed.Store.Tables.{bit_geq}
use sredevopsorg_sec_feed.Store.Reads.{by_key, by_key_trans, bit_geq_trans, bit_geq_total}
use sredevopsorg_sec_feed.Postgres.{FeedRow, Matching}
use sredevopsorg_sec_feed.Postgres.Feed.{published_later, entry_order, entry_to_item}
use sredevopsorg_sec_feed.Postgres.Image.{iso_at}

pub published_total : (a b : Option ℕ) → published_later a b ≡ false → published_later b a ≡ true
published_total none none h = refl
published_total none (some b) h = refl
published_total (some a) none h = ground arith
published_total (some a) (some b) h = ground arith

pub published_trans :
    (a b c : Option ℕ)
    → published_later a b ≡ true
    → published_later b c ≡ true
    → published_later a c ≡ true
published_trans a b none h k = refl
published_trans none none (some c) h k = k
published_trans none (some b) (some c) h k = ground arith
published_trans (some a) none (some c) h k = ground arith
published_trans (some a) (some b) (some c) h k = ground arith

pub published_antisym :
    (a b : Option ℕ) → published_later a b ≡ true → published_later b a ≡ true → a ≡ b
published_antisym none none h k = refl
published_antisym none (some b) h k = ground arith
published_antisym (some a) none h k = ground arith
published_antisym (some a) (some b) h k =
    let same : a ≡ b = ground arith in ap (λ (t : ℕ). some t) same

-- The columns that the feed is ordered by, and their order.
abbrev pub Key : Type 0
Key = Option ℕ × (Bool × ℕ)

abbrev pub key_of : FeedRow → Key
key_of r = (r.published, (r.urgent, r.last_seen))

abbrev pub key_before : Key → Key → Bool
unfolding by_key
key_before a b =
    by_key (published_later a.0 b.0) (published_later b.0 a.0)
      (by_key (bit_geq a.1.0 b.1.0) (bit_geq b.1.0 a.1.0) (leb b.1.1 a.1.1))

pub key_before-entry_order : (a b : FeedRow) → key_before (key_of a) (key_of b) ≡ entry_order a b
unfolding entry_order by_key
key_before-entry_order a b = refl

pub key_total : (a b : Key) → key_before a b ≡ false → key_before b a ≡ true
unfolding by_key
key_total a b h = ground (arith, published_total a.0 b.0, published_total b.0 a.0)

pub key_trans :
    (a b c : Key) → key_before a b ≡ true → key_before b c ≡ true → key_before a c ≡ true
unfolding by_key
key_trans a b c =
    by_key_trans (published_later a.0 b.0) (published_later b.0 a.0) (published_later b.0 c.0)
      (published_later c.0 b.0) (published_later a.0 c.0) (published_later c.0 a.0) _ _ _
      (published_trans a.0 b.0 c.0) (published_trans b.0 c.0 a.0) (published_trans c.0 a.0 b.0)
      (published_total a.0 b.0) (published_total b.0 c.0)
      (by_key_trans (bit_geq a.1.0 b.1.0) (bit_geq b.1.0 a.1.0) (bit_geq b.1.0 c.1.0)
        (bit_geq c.1.0 b.1.0) (bit_geq a.1.0 c.1.0) (bit_geq c.1.0 a.1.0) (leb b.1.1 a.1.1)
        (leb c.1.1 b.1.1) (leb c.1.1 a.1.1) (bit_geq_trans a.1.0 b.1.0 c.1.0)
        (bit_geq_trans b.1.0 c.1.0 a.1.0) (bit_geq_trans c.1.0 a.1.0 b.1.0)
        (bit_geq_total a.1.0 b.1.0) (bit_geq_total b.1.0 c.1.0) (λ h k. ground arith))

bit_antisym : (a b : Bool) → bit_geq a b ≡ true → bit_geq b a ≡ true → a ≡ b
bit_antisym a b h k = ground arith

pub key_antisym : (a b : Key) → key_before a b ≡ true → key_before b a ≡ true → a ≡ b
unfolding by_key
key_antisym a b h k =
    let p = published_antisym a.0 b.0 (ground arith) (ground arith) in
    let u = bit_antisym a.1.0 b.1.0 (ground arith) (ground arith) in
    let t : a.1.1 ≡ b.1.1 = ground arith in λ i. (p i, (u i, t i))

-- What an item shows of the key of its row.
abbrev pub rank_of_item : ItemDict → Option String × Option Bool
rank_of_item item = (item.published, item.urgent)

pub rank-entry_to_item :
    (engine : Engine) (sql : Matching) (now : DateTime) (r : FeedRow)
    → rank_of_item (entry_to_item sql engine.iso now r)
      ≡ (map_option (iso_at engine) r.published, some r.urgent)
unfolding entry_to_item item_to_dict ensure_aware
rank-entry_to_item engine sql now r = elim (Option-cases r.published) [
  | inl e ↦ rw e refl
  | inr (t, e) ↦ rw e refl
]
