-- ===== src/Prelude/Cut.antt =====
-- Cutting a sorted list, and membership as a type.
use sredevopsorg_sec_feed.Prelude.{
  ℕ, zero, suc, ◌≡◌, refl, ◌⊎◌, inl, inr, ◌<◌, Bool, true, List, [], ◌∷◌, ◌++◌, length, take,
  select, All, arith, Bool-cases,
}
use sredevopsorg_sec_feed.Prelude.Sort.{IsSorted, sort, sort_insert}

pub after_first {ℓ} : {A : Type ℓ} → ℕ → List A → List A
after_first zero xs = xs
after_first (suc n) [] = []
after_first (suc n) (x ∷ xs) = after_first n xs

pub take-after_first {ℓ} : {A : Type ℓ} (n : ℕ) (xs : List A) → take n xs ++ after_first n xs ≡ xs
unfolding after_first
take-after_first zero xs = refl
take-after_first (suc n) [] = refl
take-after_first (suc n) (x ∷ xs) = rw (take-after_first n xs) refl

All-after_first {ℓ κ} :
    {A : Type ℓ} (P : A → Type κ) (n : ℕ) (xs : List A) → All P xs → All P (after_first n xs)
unfolding after_first
All-after_first P zero xs h = h
All-after_first P (suc n) [] h = h
All-after_first P (suc n) (x ∷ xs) h = All-after_first P n xs h.1

pub take_before-after_first {ℓ} :
    {A : Type ℓ} (before : A → A → Bool) (n : ℕ) (xs : List A)
    → IsSorted before xs
    → All (λ a. All (λ b. before a b ≡ true) (after_first n xs)) (take n xs)
unfolding after_first
take_before-after_first before zero xs h = tt
take_before-after_first before (suc n) [] h = tt
take_before-after_first before (suc n) (x ∷ xs) h =
    (All-after_first (λ b. before x b ≡ true) n xs h.0, take_before-after_first before n xs h.1)

pub after_first_or_full {ℓ} :
    {A : Type ℓ} (n : ℕ) (xs : List A) → (after_first n xs ≡ []) ⊎ (length (take n xs) ≡ n)
unfolding after_first
after_first_or_full zero xs = inr refl
after_first_or_full (suc n) [] = inl refl
after_first_or_full (suc n) (x ∷ xs) = elim (after_first_or_full n xs) [
  | inl e ↦ inl e
  | inr e ↦ inr (omega (arith, e))
]

pub none_after {ℓ} : {A : Type ℓ} (n : ℕ) (xs : List A) → (after_first n xs ≡ []) ⊎ (n < length xs)
unfolding after_first
none_after zero [] = inl refl
none_after zero (x ∷ xs) = inr (omega arith)
none_after (suc n) [] = inl refl
none_after (suc n) (x ∷ xs) = elim (none_after n xs) [
  | inl e ↦ inl e
  | inr h ↦ inr (omega (arith, h))
]

-- `a` stands in the list.
abbrev pub Among : {A : Type 0} → A → List A → Type 0
Among a [] = ⊥
Among a (x ∷ xs) = (a ≡ x) ⊎ Among a xs

module _ {A : Type 0} where
  pub Among-select :
      (p : A → Bool) (a : A) (xs : List A) → p a ≡ true → Among a xs → Among a (select p xs)
  Among-select p a [] e h = h
  Among-select p a (x ∷ xs) e (inl same) = rw (← same, e) (inl refl)
  Among-select p a (x ∷ xs) e (inr h) = elim (Bool-cases (p x)) [
    | inl t ↦ rw t (inr (Among-select p a xs e h))
    | inr f ↦ rw f (Among-select p a xs e h)
  ]

  Among-sort_insert :
      (before : A → A → Bool) (a x : A) (ys : List A)
      → Among a (x ∷ ys)
      → Among a (sort_insert before x ys)
  unfolding sort_insert
  Among-sort_insert before a x [] h = h
  Among-sort_insert before a x (y ∷ ys) h = elim (Bool-cases (before x y)) [
    | inl e ↦ rw e h
    | inr e ↦ rw e (elim h [
      | inl same ↦ inr (Among-sort_insert before a x ys (inl same))
      | inr (inl same) ↦ inl same
      | inr (inr there) ↦ inr (Among-sort_insert before a x ys (inr there))
    ])
  ]

  pub Among-sort :
      (before : A → A → Bool) (a : A) (xs : List A) → Among a xs → Among a (sort before xs)
  unfolding sort
  Among-sort before a [] h = h
  Among-sort before a (x ∷ xs) (inl same) = Among-sort_insert before a x (sort before xs) (inl same)
  Among-sort before a (x ∷ xs) (inr h) =
      Among-sort_insert before a x (sort before xs) (inr (Among-sort before a xs h))
