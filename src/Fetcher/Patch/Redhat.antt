-- ===== src/Fetcher/Patch/Redhat.antt =====
-- The status of a Red Hat row depends on the set of its packages' states alone.
use sredevopsorg_sec_feed.Prelude.{
  String, ◌≡◌, refl, sym, ◌∙◌, inl, inr, true, List, [], ◌∷◌, map, all, member, arith, eq_iff,
  eq_refl, ◌==◌, Bool-cases,
}
use sredevopsorg_sec_feed.Runtime.{TextOps}
use sredevopsorg_sec_feed.Fetcher.Patch.{
  status_affected, status_deferred, status_not_affected, normalize_patch_status, RedhatRow,
  fix_states, status_of_states, redhat_patch_status,
}

-- Both lists hold the same texts.
abbrev pub SameTexts : List String → List String → Type 0
SameTexts xs ys = (s : String) → member s xs ≡ member s ys

all-member :
    (x s : String) (xs : List String)
    → all (λ y. y == x) xs ≡ true
    → member s xs ≡ true
    → (s == x) ≡ true
all-member x s [] h m = cc
all-member x s (y ∷ xs) h m = ground (arith, all-member x s xs, eq_iff y s)

all_of_members :
    (x : String) (ys : List String)
    → ((s : String) → member s ys ≡ true → (s == x) ≡ true)
    → all (λ y. y == x) ys ≡ true
all_of_members x [] h = refl
all_of_members x (y ∷ ys) h =
    let first = h y (rw (eq_refl y)) in
    let rest = all_of_members x ys (λ s m. h s (ground arith)) in rw (first, rest)

all_same :
    (x : String) (xs ys : List String)
    → SameTexts xs ys
    → all (λ y. y == x) xs ≡ all (λ y. y == x) ys
all_same x xs ys h = elim (Bool-cases (all (λ y. y == x) xs)) [
  | inl e ↦ e ∙ sym (half xs ys h e)
  | inr e ↦ elim (Bool-cases (all (λ y. y == x) ys)) [
    | inl e' ↦ half ys xs (λ s. sym (h s)) e' ∙ sym e'
    | inr e' ↦ e ∙ sym e'
  ]
]
  where
    half :
        (us vs : List String)
        → SameTexts us vs
        → all (λ y. y == x) us ≡ true
        → all (λ y. y == x) vs ≡ true
    half us vs same e = all_of_members x vs (λ s m. all-member x s us e (same s ∙ m))

status_same : (xs ys : List String) → SameTexts xs ys → status_of_states xs ≡ status_of_states ys
unfolding status_of_states
status_same [] [] h = refl
status_same [] (y ∷ ys) h = absurd (ground (arith, h y, eq_refl y))
status_same (x ∷ xs) [] h = absurd (ground (arith, h x, eq_refl x))
status_same (x ∷ xs) (y ∷ ys) h =
    rw (h status_affected, h status_deferred, all_same status_not_affected (x ∷ xs) (y ∷ ys) h)

-- The status of a Red Hat row depends only on its release flag and on the set of its packages'
-- normalized states: neither their order nor repetition changes it.
pub redhat_patch_status-same :
    (ops : TextOps) (row row' : RedhatRow)
    → row.affected_release ≡ row'.affected_release
    → SameTexts
        (map (normalize_patch_status ops) (fix_states row.package_state))
        (map (normalize_patch_status ops) (fix_states row'.package_state))
    → redhat_patch_status ops row ≡ redhat_patch_status ops row'
unfolding redhat_patch_status
redhat_patch_status-same ops row row' e h = rw (
  e,
  status_same (map (normalize_patch_status ops) (fix_states row.package_state))
      (map (normalize_patch_status ops) (fix_states row'.package_state)) h,
)
