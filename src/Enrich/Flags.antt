-- ===== src/Enrich/Flags.antt =====
-- What the enrichment changes in an item.
use mathlib.Core.Path.{subst}
use sredevopsorg_sec_feed.Prelude.{
  ℕ, ◌≤◌, String, ◌≡◌, refl, ap, sym, inl, inr, Bool, true, false, ◌&&◌, ◌||◌, Option, none, some,
  List, [], ◌∷◌, any, member, All, All-map, arith, ltb, leb, ◌==◌, Bool-cases, Option-cases,
  if◌then◌else◌,
}
use sredevopsorg_sec_feed.Prelude.Dict.{Dict, lookup}
use sredevopsorg_sec_feed.Prelude.Sets.{add, member-add, Uniq, Uniq-add}
use sredevopsorg_sec_feed.Models.{FeedItem}
use sredevopsorg_sec_feed.Fetcher.Infer.{maximum}
use sredevopsorg_sec_feed.Enrich.{severe, known, known_scores, is_likely, enrich_item}

abbrev pub has_score : Dict ℕ → ℕ → String → Bool
has_score epss score cve = elim (lookup cve epss) [
  | none ↦ false
  | some s ↦ leb s score && leb score s
]

abbrev pub at_most : Dict ℕ → ℕ → String → Bool
at_most epss score cve = elim (lookup cve epss) [ none ↦ true | some s ↦ leb s score ]

-- The score of an item: none if no CVE of it has a score, and else the score of one of them, than
-- which none of them has a higher.
abbrev pub IsScore : Dict ℕ → List String → Option ℕ → Type 0
IsScore epss cves none = All (λ cve. lookup cve epss ≡ none) cves
IsScore epss cves (some score) =
    (any (λ cve. has_score epss score cve) cves ≡ true)
    × All (λ cve. at_most epss score cve ≡ true) cves

at_most_mono :
    (epss : Dict ℕ) (low high : ℕ) (cve : String)
    → low ≤ high
    → at_most epss low cve ≡ true
    → at_most epss high cve ≡ true
at_most_mono epss low high cve h k = ground arith

IsScore-rest :
    (epss : Dict ℕ) (cve : String) (cves : List String) (o : Option ℕ)
    → lookup cve epss ≡ none
    → IsScore epss cves o
    → IsScore epss (cve ∷ cves) o
IsScore-rest epss cve cves none e h = (e, h)
IsScore-rest epss cve cves (some score) e h = (ground arith, (ground arith, h.1))

IsScore-more :
    (epss : Dict ℕ) (cve : String) (cves : List String) (x : ℕ) (o : Option ℕ)
    → lookup cve epss ≡ some x
    → IsScore epss cves o
    → IsScore epss
        (cve ∷ cves)
        (elim o [ none ↦ some x | some y ↦ if ltb x y then some y else some x ])
IsScore-more epss cve cves x none e h = (
  ground arith,
  (
    ground arith,
    All-map (λ c. lookup c epss ≡ none) (λ c. at_most epss x c ≡ true) (λ c h. ground arith) cves h,
  ),
)
IsScore-more epss cve cves x (some y) e h = elim (Bool-cases (ltb x y)) [
  | inl below ↦ rw below (ground arith, (ground arith, h.1))
  | inr above ↦ rw above (
    ground arith,
    (
      ground arith,
      All-map (λ c. at_most epss y c ≡ true) (λ c. at_most epss x c ≡ true)
          (λ c k. at_most_mono epss y x c (ground arith) k) cves h.1,
    ),
  )
]

known_scores_rest :
    (epss : Dict ℕ) (cve : String) (cves : List String)
    → lookup cve epss ≡ none
    → known_scores epss (cve ∷ cves) ≡ known_scores epss cves
unfolding known_scores
known_scores_rest epss cve cves e = rw (e, known_scores)

known_scores_more :
    (epss : Dict ℕ) (cve : String) (cves : List String) (x : ℕ)
    → lookup cve epss ≡ some x
    → known_scores epss (cve ∷ cves) ≡ x ∷ known_scores epss cves
unfolding known_scores
known_scores_more epss cve cves x e = rw (e, known_scores)

maximum-IsScore :
    (epss : Dict ℕ) (cves : List String) → IsScore epss cves (maximum (known_scores epss cves))
unfolding maximum known_scores
maximum-IsScore epss [] = tt
maximum-IsScore epss (cve ∷ cves) =
    let rest = maximum-IsScore epss cves in
    elim (Option-cases (lookup cve epss)) [
      | inl e ↦
          let same : maximum (known_scores epss (cve ∷ cves)) ≡ maximum (known_scores epss cves) =
            ap maximum (known_scores_rest epss cve cves e) in
          subst (IsScore epss (cve ∷ cves)) (sym same)
            (IsScore-rest epss cve cves (maximum (known_scores epss cves)) e rest)
      | inr (x, e) ↦
          let more : Option ℕ = elim (maximum (known_scores epss cves)) [
            | none ↦ some x
            | some y ↦ if ltb x y then some y else some x
          ] in
          let same : maximum (known_scores epss (cve ∷ cves)) ≡ more =
            ap maximum (known_scores_more epss cve cves x e) in
          subst (IsScore epss (cve ∷ cves)) (sym same)
            (IsScore-more epss cve cves x (maximum (known_scores epss cves)) e rest)
    ]

-- An enriched item: listed as exploited if the catalog has a CVE of it, with the score of its CVEs;
-- urgent if it was, or if it is severe and exploited or likely to be; with the tags "exploit" and
-- "kev" added exactly if it is exploited.
pub record IsEnriched {ℓ} {V : Type ℓ} (kev : Dict V) (epss : Dict ℕ) (item r : FeedItem)
    : Type 0 where
  pub exploited : r.kev ≡ any (λ cve. known kev cve) item.cves
  pub scored : IsScore epss item.cves r.epss_score
  pub urgent_if :
      r.urgent ≡ (item.urgent || (r.kev || is_likely r.epss_score) && severe item.severity)
  pub tagged :
      (t : String)
      → member t r.tags ≡ (member t item.tags || r.kev && ("exploit" == t || "kev" == t))
  pub tags_Uniq : Uniq item.tags → Uniq r.tags
  pub same_id : r.id ≡ item.id
  pub same_severity : r.severity ≡ item.severity

-- An enriched item is listed as exploited exactly if the catalog has a CVE of it, has the highest
-- score that is known of its CVEs (none if none is known), is urgent if it was, or if it is severe
-- and exploited or likely to be, has the tags "exploit" and "kev" added exactly if it is exploited,
-- with no tag twice if it had none twice, and keeps its id and severity.
pub enrich_item-IsEnriched {ℓ} :
    {V : Type ℓ} (kev : Dict V) (epss : Dict ℕ) (item : FeedItem)
    → IsEnriched kev epss item (enrich_item kev epss item)
unfolding enrich_item
enrich_item-IsEnriched kev epss item = record {
  exploited = refl;
  scored = maximum-IsScore epss item.cves;
  urgent_if = ground arith;
  tagged = λ t.
      ground
        (arith, member-add t "kev" (add "exploit" item.tags), member-add t "exploit" item.tags);
  tags_Uniq = λ u. elim (Bool-cases (any (λ cve. known kev cve) item.cves)) [
    | inl e ↦ rw e (Uniq-add "kev" (add "exploit" item.tags) (Uniq-add "exploit" item.tags u))
    | inr e ↦ rw e u
  ];
  same_id = refl;
  same_severity = refl;
}
