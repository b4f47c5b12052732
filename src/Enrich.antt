-- ===== src/Enrich.antt =====
-- The KEV and EPSS enrichment (app/enrich.py): `_fetch_kev`, `_fetch_epss` and `enrich_items`. The
-- two services are parameters; scores are in millionths, times in seconds.
pub mod Batches
pub mod Flags
pub mod Kev
mod Tests
use sredevopsorg_sec_feed.Prelude.{
  ℕ, zero, suc, ◌+◌, ◌-◌, ◌*◌, String, Bool, true, false, ◌&&◌, ◌||◌, not, Option, none, some, List,
  [], ◌∷◌, ◌++◌, map, length, take, any, member, ltb, leb, nat_eq, if◌then◌else◌,
}
use sredevopsorg_sec_feed.Prelude.Int.{ℤ, pos, pos_part, ltb_ℤ}
use sredevopsorg_sec_feed.Prelude.Dict.{Dict, lookup, insert}
use sredevopsorg_sec_feed.Prelude.Sets.{uniq, add}
use sredevopsorg_sec_feed.Prelude.Sort.{sort}
use sredevopsorg_sec_feed.Prelude.Texts.{text_leb, is_blank}
use sredevopsorg_sec_feed.Runtime.{TextOps}
use sredevopsorg_sec_feed.Models.{FeedItem}
use sredevopsorg_sec_feed.Fetcher.Infer.{maximum}

abbrev pub kev_ttl : ℕ
kev_ttl = 24 * 60 * 60

abbrev pub epss_batch_size : ℕ
epss_batch_size = 100

-- `_kev_cache` and `_kev_fetched_at`; a time of zero counts as none.
pub record KevCache (V : Type 0) : Type 0 where
  pub entries : Option (Dict V)
  pub fetched_at : Option ℕ

module _ {V : Type 0} where
  -- The catalog by the uppercase identifiers; an entry without one is left out.
  unfoldable pub by_cve : TextOps → List (String × V) → Dict V → Dict V
  by_cve ops [] d = d
  by_cve ops ((cve, v) ∷ vulns) d =
      by_cve ops vulns (if is_blank cve then d else insert (ops.upper cve) v d)

  abbrev pub fresh_entries : KevCache V → ℕ → Option (Dict V)
  fresh_entries cache now = elim cache.fetched_at [
    | none ↦ none
    | some t ↦ if not (nat_eq t 0) && ltb now (t + kev_ttl) then cache.entries else none
  ]

  -- The entries to use: the cached ones while they are fresh, and else those of the download, if
  -- that gave any (`none` is an exception), which are cached.
  unfoldable pub kev_after :
      TextOps → KevCache V → ℕ → Option (List (String × V)) → KevCache V × Option (Dict V)
  kev_after ops cache now answer = elim (fresh_entries cache now) [
    | some entries ↦ (cache, some entries)
    | none ↦ elim answer [
      | none ↦ (cache, none)
      | some vulns ↦
          let entries = by_cve ops vulns [] in
          (record { entries = some entries; fetched_at = some now }, some entries)
    ]
  ]

abbrev pub drop {ℓ} : {A : Type ℓ} → ℕ → List A → List A
drop zero xs = xs
drop (suc n) [] = []
drop (suc n) (x ∷ xs) = drop n xs

-- The slices `unique[start : start + EPSS_BATCH_SIZE]`, on fuel; the length of the list is enough.
unfoldable pub batches : ℕ → List String → List (List String)
batches zero cves = []
batches (suc fuel) [] = []
batches (suc fuel) (cve ∷ cves) =
    take epss_batch_size (cve ∷ cves) ∷ batches fuel (drop epss_batch_size (cve ∷ cves))

-- A row of the answer; `epss` is `none` if it is no number.
pub record EpssRow : Type 0 where
  pub cve : Option String
  pub epss : Option ℕ

unfoldable pub add_rows : TextOps → List EpssRow → Dict ℕ → Dict ℕ
add_rows ops [] out = out
add_rows ops (row ∷ rows) out = add_rows ops rows (elim row.cve [
  | none ↦ out
  | some cve ↦ elim row.epss [
    | none ↦ out
    | some epss ↦ if is_blank (ops.upper cve) then out else insert (ops.upper cve) epss out
  ]
])

-- The services: the catalog, the scores of a batch, and the time; `none` is an exception.
pub record Services (N V : Type 0) : Type 0 where
  pub download : N → N × Option (List (String × V))
  pub scores : List String → N → N × Option (List EpssRow)
  pub time : N → ℕ

module _ {N V : Type 0} (ops : TextOps) (services : Services N V) where
  unfoldable pub fetch_kev : KevCache V → N → (KevCache V × N) × Option (Dict V)
  fetch_kev cache n =
      let now = services.time n in
      elim (fresh_entries cache now) [
        | some entries ↦ ((cache, n), some entries)
        | none ↦
            (let (n', answer) = services.download n in
              let (cache', entries) = kev_after ops cache now answer in ((cache', n'), entries))
      ]

  unfoldable pub fetch_batches : List (List String) → Dict ℕ → N → N × Option (Dict ℕ)
  fetch_batches [] out n = (n, some out)
  fetch_batches (batch ∷ rest) out n =
      let (n', answer) = services.scores batch n in
      elim answer [ none ↦ (n', none) | some rows ↦ fetch_batches rest (add_rows ops rows out) n' ]

  abbrev pub capped : ℤ → List String → List String
  capped max_cves cves = if ltb_ℤ (pos 0) max_cves then take (pos_part max_cves) cves else cves

  -- `max_cves` is `settings.epss_max_cves`.
  unfoldable pub fetch_epss : ℤ → List String → N → N × Option (Dict ℕ)
  fetch_epss max_cves cves n =
      let unique = capped max_cves (sort text_leb (uniq cves)) in
      fetch_batches (batches (length unique) unique) [] n

abbrev pub severe : String → Bool
severe severity = member severity ("critical" ∷ "high" ∷ [])

abbrev pub known {ℓ} : {V : Type ℓ} → Dict V → String → Bool
known d k = elim (lookup k d) [ none ↦ false | some v ↦ true ]

-- `[epss[cve] for cve in cves if cve in epss]`
unfoldable pub known_scores : Dict ℕ → List String → List ℕ
known_scores epss [] = []
known_scores epss (cve ∷ cves) =
    let rest = known_scores epss cves in
    elim (lookup cve epss) [ none ↦ rest | some score ↦ score ∷ rest ]

abbrev pub is_likely : Option ℕ → Bool
is_likely none = false
is_likely (some score) = leb 500_000 score

-- The body of the loop over the items.
unfoldable pub enrich_item {ℓ} : {V : Type ℓ} → Dict V → Dict ℕ → FeedItem → FeedItem
unfolding maximum known_scores
enrich_item kev epss item =
    let exploited = any (λ cve. known kev cve) item.cves in
    let score = maximum (known_scores epss item.cves) in
    record item {
      kev = exploited;
      epss_score = score;
      tags = if exploited then add "kev" (add "exploit" item.tags) else item.tags;
      urgent =
          item.urgent
          || exploited && severe item.severity
          || is_likely score && severe item.severity;
    }

abbrev pub all_cves : List FeedItem → List String
all_cves [] = []
all_cves (item ∷ items) = item.cves ++ all_cves items

abbrev pub or_empty {ℓ} : {V : Type ℓ} → Option (Dict V) → Dict V
or_empty none = []
or_empty (some d) = d

abbrev pub is_nil : List String → Bool
is_nil [] = true
is_nil (k ∷ ks) = false

module _ {N V : Type 0} (ops : TextOps) (services : Services N V) where
  -- A service that fails counts as an empty answer.
  unfoldable pub enrich_items :
      ℤ → List FeedItem → KevCache V → N → (KevCache V × N) × List FeedItem
  unfolding enrich_item
  enrich_items max_cves items cache n =
      let cves = sort text_leb (uniq (all_cves items)) in
      if is_nil cves
      then ((cache, n), items)
      else (let ((cache', n1), kev) = fetch_kev ops services cache n in
          let (n2, epss) = fetch_epss ops services max_cves cves n1 in
          ((cache', n2), map (enrich_item (or_empty kev) (or_empty epss)) items))
