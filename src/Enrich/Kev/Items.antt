-- ===== src/Enrich/Kev/Items.antt =====
-- The items of the KEV source.
use sredevopsorg_sec_feed.Prelude.Cut.{Among}
use sredevopsorg_sec_feed.Prelude.{
  suc, ap, Bool, none, some, not, String, select, ltb, ℕ, ◌<>◌, ◌≡◌, refl, inl, inr, true, false,
  List, [], ◌∷◌, All, arith, length, ◌≤◌, Bool-cases, member, leb, Option-cases,
}
use sredevopsorg_sec_feed.Prelude.Dict.{Dict}
use sredevopsorg_sec_feed.Prelude.Sort.{IsSorted}
use sredevopsorg_sec_feed.Prelude.Sets.{Uniq, add, member-add, Uniq-add}
use sredevopsorg_sec_feed.Prelude.Texts.{is_blank}
use sredevopsorg_sec_feed.Models.{utc, FeedItem}
use sredevopsorg_sec_feed.Sources.{Source}
use sredevopsorg_sec_feed.Fetcher.Infer.Tags.{infer_tags-member}
use sredevopsorg_sec_feed.Fetcher.Infer.Severity.{severities, infer_severity-member}
use sredevopsorg_sec_feed.Fetcher.Patch.{text_or_empty}
use sredevopsorg_sec_feed.Fetcher.Newest.{date_key, newer_first}
use sredevopsorg_sec_feed.Fetcher.Ghsa.Items.{blank-label}
use sredevopsorg_sec_feed.Enrich.Kev.{
  KevEntry, KevOps, added_later, kev_added_at, kev_since, kev_item, kev_items,
}

-- What an item of this source is: live, named, rated, confirmed to be exploited, and urgent,
-- with the tag "kev" and a date since the cutoff.
pub record IsKevItem (source : Source) (cutoff : ℕ) (item : FeedItem) : Type 0 where
  pub from_source : item.source ≡ source.name
  pub is_live : item.is_sample ≡ false
  pub has_title : is_blank item.title ≡ false
  pub rated : member item.severity severities ≡ true
  pub tags_Uniq : Uniq item.tags
  pub is_urgent : item.urgent ≡ true
  pub is_kev : item.kev ≡ true
  pub tagged : member "kev" item.tags ≡ true
  pub since : cutoff ≤ utc (date_key item)

-- Added since the cutoff.
abbrev pub Since : ℕ → ℕ × KevEntry → Type 0
Since cutoff p = cutoff ≤ p.0

module _ (k : KevOps) where
  pub kev_since-Since :
      (cutoff : ℕ) (catalog : Dict KevEntry) → All (Since cutoff) (kev_since k cutoff catalog)
  unfolding kev_since
  kev_since-Since cutoff [] = tt
  kev_since-Since cutoff ((cve, entry) ∷ catalog) = elim (Option-cases (kev_added_at k entry)) [
    | inl e ↦ rw (kev_since, e) (kev_since-Since cutoff catalog)
    | inr (added, e) ↦ elim (Bool-cases (leb cutoff added)) [
      | inl h ↦ rw (kev_since, e, h) (ground arith, kev_since-Since cutoff catalog)
      | inr h ↦ rw (kev_since, e, h) (kev_since-Since cutoff catalog)
    ]
  ]

  module _ (source : Source) (u : Uniq source.tags) where
    kev_item-IsKevItem :
        (cutoff added : ℕ) (entry : KevEntry)
        → is_blank (k.ops.upper (text_or_empty entry.cve_id)) ≡ false
        → cutoff ≤ added
        → IsKevItem source cutoff (kev_item k source added entry)
    unfolding kev_item
    kev_item-IsKevItem cutoff added entry e h =
        let cve_id = k.ops.upper (text_or_empty entry.cve_id) in
        let name = k.ops.strip (text_or_empty entry.vulnerability_name) in
        let tags =
          infer_tags-member k.ops _ (add "kev" source.tags) (cve_id ∷ []) "kev"
            (Uniq-add "kev" source.tags u) in
        record {
          from_source = refl;
          is_live = refl;
          has_title = blank-label cve_id (": " <> name) (is_blank name) e;
          rated = infer_severity-member k.ops _ _;
          tags_Uniq = tags.1;
          is_urgent = refl;
          is_kev = refl;
          tagged = rw (tags.0, member-add "kev" "kev" source.tags) (ground arith);
          since = h;
        }

    pub kev_items-IsKevItem :
        (cutoff : ℕ) (entries : List (ℕ × KevEntry))
        → All (Since cutoff) entries
        → All (IsKevItem source cutoff) (kev_items k source entries)
    unfolding kev_items
    kev_items-IsKevItem cutoff [] h = tt
    kev_items-IsKevItem cutoff ((added, entry) ∷ rest) h =
        elim (Bool-cases (is_blank (k.ops.upper (text_or_empty entry.cve_id)))) [
          | inl e ↦ rw e (kev_items-IsKevItem cutoff rest h.1)
          | inr e ↦
              rw e
                (kev_item-IsKevItem cutoff added entry e h.0, kev_items-IsKevItem cutoff rest h.1)
        ]

    -- Items that are made of older entries are older.
    kev_items-older :
        (item : FeedItem) (entries : List (ℕ × KevEntry))
        → All (λ p. leb p.0 (utc (date_key item)) ≡ true) entries
        → All (λ i. newer_first item i ≡ true) (kev_items k source entries)
    unfolding kev_items kev_item
    kev_items-older item [] h = tt
    kev_items-older item ((added, entry) ∷ rest) h =
        elim (Bool-cases (is_blank (k.ops.upper (text_or_empty entry.cve_id)))) [
          | inl e ↦ rw e (kev_items-older item rest h.1)
          | inr e ↦ rw e (h.0, kev_items-older item rest h.1)
        ]

    pub kev_items-IsSorted :
        (entries : List (ℕ × KevEntry))
        → IsSorted added_later entries
        → IsSorted newer_first (kev_items k source entries)
    unfolding kev_items kev_item
    kev_items-IsSorted [] h = tt
    kev_items-IsSorted ((added, entry) ∷ rest) h =
        elim (Bool-cases (is_blank (k.ops.upper (text_or_empty entry.cve_id)))) [
          | inl e ↦ rw e (kev_items-IsSorted rest h.1)
          | inr e ↦ rw e (
            kev_items-older (kev_item k source added entry) rest h.0,
            kev_items-IsSorted rest h.1,
          )
        ]

    pub length-kev_items :
        (entries : List (ℕ × KevEntry)) → length (kev_items k source entries) ≤ length entries
    unfolding kev_items
    length-kev_items [] = omega arith
    length-kev_items ((added, entry) ∷ rest) = ground (arith, length-kev_items rest)

-- The entry has a date, and it is not before the cutoff.
abbrev pub is_recent : KevOps → ℕ → KevEntry → Bool
is_recent k cutoff entry = elim (kev_added_at k entry) [
  | none ↦ false
  | some added ↦ not (ltb added cutoff)
]

module _ (k : KevOps) where
  pub length-kev_since :
      (cutoff : ℕ) (catalog : Dict KevEntry)
      → length (kev_since k cutoff catalog)
        ≡ length (select (λ (e : String × KevEntry). is_recent k cutoff e.1) catalog)
  unfolding kev_since
  length-kev_since cutoff [] = refl
  length-kev_since cutoff ((cve, entry) ∷ catalog) = elim (Option-cases (kev_added_at k entry)) [
    | inl e ↦
        let old : is_recent k cutoff entry ≡ false = rw (is_recent, e) refl in
        rw (old, kev_since, e) (length-kev_since cutoff catalog)
    | inr (added, e) ↦
        let same : is_recent k cutoff entry ≡ not (ltb added cutoff) = rw (is_recent, e) refl in
        elim (Bool-cases (leb cutoff added)) [
          | inl late ↦
              let new : is_recent k cutoff entry ≡ true = ground (arith, same) in
              rw (new, kev_since, e, late) (ap suc (length-kev_since cutoff catalog))
          | inr early ↦
              let old : is_recent k cutoff entry ≡ false = ground (arith, same) in
              rw (old, kev_since, e, early) (length-kev_since cutoff catalog)
        ]
  ]

  kev_since-Among :
      (cutoff added : ℕ) (cve : String) (entry : KevEntry) (catalog : Dict KevEntry)
      → Among (cve, entry) catalog
      → kev_added_at k entry ≡ some added
      → cutoff ≤ added
      → Among (added, entry) (kev_since k cutoff catalog)
  unfolding kev_since
  kev_since-Among cutoff added cve entry [] h e c = h
  kev_since-Among cutoff added cve entry (x ∷ catalog) (inl same) e c =
      let here : kev_added_at k x.1 ≡ some added = rw (← same) e in
      let late : leb cutoff added ≡ true = ground arith in
      rw (kev_since, here, late) (inl (ap (λ (x : String × KevEntry). (added, x.1)) same))
  kev_since-Among cutoff added cve entry (x ∷ catalog) (inr h) e c =
      let there = kev_since-Among cutoff added cve entry catalog h e c in
      elim (Option-cases (kev_added_at k x.1)) [
        | inl f ↦ rw (kev_since, f) there
        | inr (other, f) ↦ elim (Bool-cases (leb cutoff other)) [
          | inl late ↦ rw (kev_since, f, late) (inr there)
          | inr early ↦ rw (kev_since, f, early) there
        ]
      ]

  kev_items-Among :
      (source : Source) (added : ℕ) (entry : KevEntry) (entries : List (ℕ × KevEntry))
      → is_blank (k.ops.upper (text_or_empty entry.cve_id)) ≡ false
      → Among (added, entry) entries
      → Among (kev_item k source added entry) (kev_items k source entries)
  unfolding kev_items
  kev_items-Among source added entry [] e h = h
  kev_items-Among source added entry (x ∷ entries) e (inl same) =
      let named : is_blank (k.ops.upper (text_or_empty x.1.cve_id)) ≡ false = rw (← same) e in
      rw named (inl (ap (λ (x : ℕ × KevEntry). kev_item k source x.0 x.1) same))
  kev_items-Among source added entry (x ∷ entries) e (inr h) =
      let there = kev_items-Among source added entry entries e h in
      elim (Bool-cases (is_blank (k.ops.upper (text_or_empty x.1.cve_id)))) [
        | inl f ↦ rw f there
        | inr f ↦ rw f (inr there)
      ]

  -- Each entry of the catalog with an identifier and a date since the cutoff has its item.
  pub kev_items-since-Among :
      (source : Source) (cutoff added : ℕ) (cve : String) (entry : KevEntry)
      (catalog : Dict KevEntry)
      → Among (cve, entry) catalog
      → is_blank (k.ops.upper (text_or_empty entry.cve_id)) ≡ false
      → kev_added_at k entry ≡ some added
      → cutoff ≤ added
      → Among (kev_item k source added entry) (kev_items k source (kev_since k cutoff catalog))
  kev_items-since-Among source cutoff added cve entry catalog h e f c =
      kev_items-Among source added entry (kev_since k cutoff catalog) e
        (kev_since-Among cutoff added cve entry catalog h f c)
