-- ===== src/Enrich/Batches.antt =====
-- The requests for the scores cover the CVEs, at most a hundred at a time.
use sredevopsorg_sec_feed.Prelude.{
  ℕ, zero, suc, ◌≤◌, String, ◌≡◌, refl, ap, ◌∙◌, List, [], ◌∷◌, ◌++◌, length, take, length-take-le,
  All, arith,
}
use sredevopsorg_sec_feed.Enrich.{epss_batch_size, drop, batches}

-- The lists one after another.
abbrev pub concat {ℓ} : {A : Type ℓ} → List (List A) → List A
concat [] = []
concat (xs ∷ xss) = xs ++ concat xss

take-drop {ℓ} : {A : Type ℓ} (n : ℕ) (xs : List A) → take n xs ++ drop n xs ≡ xs
take-drop zero xs = refl
take-drop (suc n) [] = refl
take-drop (suc n) (x ∷ xs) = ap (◌∷◌ x) (take-drop n xs)

length-drop-le {ℓ} : {A : Type ℓ} (n : ℕ) (xs : List A) → length (drop n xs) ≤ length xs
length-drop-le zero xs = omega arith
length-drop-le (suc n) [] = omega arith
length-drop-le (suc n) (x ∷ xs) = omega (arith, length-drop-le n xs)

-- The batches of the CVEs, one after another, are the CVEs, if the fuel is their number at least;
-- and each has at least one and at most a hundred of them.
pub batches_lem :
    (fuel : ℕ) (cves : List String)
    → length cves ≤ fuel
    → (concat (batches fuel cves) ≡ cves)
      × All (λ batch. (1 ≤ length batch) × (length batch ≤ epss_batch_size)) (batches fuel cves)
unfolding batches
batches_lem zero [] h = (refl, tt)
batches_lem zero (cve ∷ cves) h = absurd (omega arith)
batches_lem (suc fuel) [] h = (refl, tt)
batches_lem (suc fuel) (cve ∷ cves) h =
    let rest = drop epss_batch_size (cve ∷ cves) in
    let shorter = length-drop-le 99 cves in
    let (whole, each) = batches_lem fuel rest (omega arith) in
    (
      ap (λ l. take epss_batch_size (cve ∷ cves) ++ l) whole
          ∙ take-drop epss_batch_size (cve ∷ cves),
      ((omega arith, length-take-le epss_batch_size (cve ∷ cves)), each),
    )
