-- ===== src/Postgres/Image.antt =====
-- The archive of the Postgres adapter as the SQLite adapter would hold it: each moment is its ISO
-- text, each list its JSON text.
use mathlib.Core.List.{Perm}
use sredevopsorg_sec_feed.Prelude.{
  List, ℕ, String, ◌≡◌, refl, ap, inl, inr, Bool, [], ◌∷◌, map, length, select, arith, leb, ◌==◌,
  Bool-cases,
}
use sredevopsorg_sec_feed.Prelude.Int.{pos}
use sredevopsorg_sec_feed.Prelude.Dict.{Dict, lookup, insert}
use sredevopsorg_sec_feed.Prelude.Texts.{text_leb}
use sredevopsorg_sec_feed.Models.{aware, map_option}
use sredevopsorg_sec_feed.Store.{Row, SourceState, Db, Engine}
use sredevopsorg_sec_feed.Store.Tables.{rows_of}
use sredevopsorg_sec_feed.Postgres.{FeedRow, Fetch, Archive, Matching}

module _ {ℓ κ} {V : Type ℓ} {W : Type κ} (f : V → W) where
  -- A table with another row for each row.
  abbrev pub map_dict : Dict V → Dict W
  map_dict [] = []
  map_dict ((k, v) ∷ d) = (k, f v) ∷ map_dict d

  pub lookup-map_dict :
      (k : String) (d : Dict V) → lookup k (map_dict d) ≡ map_option f (lookup k d)
  unfolding lookup
  lookup-map_dict k [] = refl
  lookup-map_dict k ((j, v) ∷ d) = elim (Bool-cases (j == k)) [
    | inl e ↦ rw e refl
    | inr e ↦ rw e (lookup-map_dict k d)
  ]

  pub insert-map_dict :
      (k : String) (v : V) (d : Dict V) → insert k (f v) (map_dict d) ≡ map_dict (insert k v d)
  unfolding insert
  insert-map_dict k v [] = refl
  insert-map_dict k v ((j, w) ∷ d) = elim (Bool-cases (j == k)) [
    | inl e ↦ rw e refl
    | inr e ↦ rw e (ap (◌∷◌ (j, f w)) (insert-map_dict k v d))
  ]

  pub select-map_dict :
      (p : String × V → Bool) (q : String × W → Bool)
      → ((k : String) (v : V) → q (k, f v) ≡ p (k, v))
      → (d : Dict V) → select q (map_dict d) ≡ map_dict (select p d)
  select-map_dict p q same [] = refl
  select-map_dict p q same ((k, v) ∷ d) = elim (Bool-cases (p (k, v))) [
    | inl e ↦ rw (same k v, e) (ap (◌∷◌ (k, f v)) (select-map_dict p q same d))
    | inr e ↦ rw (same k v, e) (select-map_dict p q same d)
  ]

  pub length-map_dict : (d : Dict V) → length (map_dict d) ≡ length d
  length-map_dict [] = refl
  length-map_dict ((k, v) ∷ d) = omega (arith, length-map_dict d)

  pub rows_of-map_dict : (d : Dict V) → rows_of (map_dict d) ≡ map f (rows_of d)
  rows_of-map_dict [] = refl
  rows_of-map_dict ((k, v) ∷ d) = ap (◌∷◌ (f v)) (rows_of-map_dict d)

module _ (engine : Engine) where
  abbrev pub iso_at : ℕ → String
  iso_at t = engine.iso.isoformat (aware t (pos 0))

  abbrev pub row_image : FeedRow → Row
  row_image r = record {
    id = r.id;
    title = r.title;
    summary = r.summary;
    url = r.url;
    source = r.source;
    source_url = r.source_url;
    published = map_option iso_at r.published;
    tags = engine.dumps r.tags;
    cves = engine.dumps r.cves;
    severity = r.severity;
    urgent = r.urgent;
    kev = r.kev;
    epss_score = r.epss_score;
    is_sample = r.is_sample;
    osv_affected = engine.dumps r.osv_affected;
    osv_fixed = engine.dumps r.osv_fixed;
    osv_severity = r.osv_severity;
    patch_status = r.patch_status;
    first_seen = iso_at r.first_seen;
    last_seen = iso_at r.last_seen;
  }

  abbrev pub fetch_image : Fetch → SourceState
  fetch_image s = record {
    etag = s.etag;
    last_modified = s.last_modified;
    last_fetched_at = map_option iso_at s.last_fetched_at;
    last_ok_at = map_option iso_at s.last_ok_at;
    last_error = s.last_error;
    last_payload = s.last_payload;
  }

  abbrev pub image : Archive → Db
  image db = record {
    feed_items = map_dict row_image db.feed_items;
    alerted_items = map_dict iso_at db.alerted_items;
    source_state = map_dict fetch_image db.source_state;
  }

  -- The ISO texts of moments in UTC are in the order of the moments.
  abbrev pub IsMonotone : Type 0
  IsMonotone = (a b : ℕ) → text_leb (iso_at a) (iso_at b) ≡ leb a b

-- The TimeZone of the session is UTC.
abbrev pub HasUtc : Matching → Type 0
HasUtc sql = sql.timezone ≡ (λ t. pos 0)

-- A scan meets the rows that there are, in some order.
abbrev pub IsScan : Matching → Type 0
IsScan sql = (rows : List FeedRow) → Perm (sql.scan rows) rows

-- A server whose scans are in the order of the table.
abbrev pub in_table_order : Matching → Matching
in_table_order sql = record sql { scan = λ rows. rows }
