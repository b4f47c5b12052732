-- ===== src/Prelude/Sort.antt =====
-- Python's `sorted(..., reverse=True)`: stable, largest key first.
use mathlib.Core.Path.{◌≡◌, refl}
use mathlib.Core.Bool.{Bool, true, false}
use mathlib.Core.List.{List, [], ◌∷◌, Perm}
use mathlib.Core.List.Perm
use native.Mathlib.Omega.{arith}
use sredevopsorg_sec_feed.Prelude.Tests.{if◌then◌else◌, Bool-cases}
use Prim.Native.Nat.{ℕ, zero, suc, ◌≤◌}
use mathlib.Core.Logic.{inl, inr}
use sredevopsorg_sec_feed.Prelude.Lists.{length, take, select, All, All-map, All-take}

module _ {ℓ} {A : Type ℓ} (before : A → A → Bool) where
  -- Puts `x` in front of the first element that it does not stand behind.
  unfoldable pub sort_insert : A → List A → List A
  sort_insert x [] = x ∷ []
  sort_insert x (y ∷ ys) = if before x y then x ∷ y ∷ ys else y ∷ sort_insert x ys

  unfoldable pub sort : List A → List A
  sort [] = []
  sort (x ∷ xs) = sort_insert x (sort xs)

  abbrev pub IsSorted : List A → Type ℓ
  IsSorted [] = Unit
  IsSorted (x ∷ xs) = All (λ y. before x y ≡ true) xs × IsSorted xs

  pub All-sort_insert {κ} :
      (P : A → Type κ) (x : A) (ys : List A) → P x → All P ys → All P (sort_insert x ys)
  unfolding sort_insert
  All-sort_insert P x [] hx h = (hx, tt)
  All-sort_insert P x (y ∷ ys) hx h = ground (arith, All-sort_insert P x ys hx h.1)

  pub All-sort {κ} : (P : A → Type κ) (xs : List A) → All P xs → All P (sort xs)
  unfolding sort
  All-sort P [] h = tt
  All-sort P (x ∷ xs) h = All-sort_insert P x (sort xs) h.0 (All-sort P xs h.1)

  sort_insert-perm : (x : A) (ys : List A) → Perm (sort_insert x ys) (x ∷ ys)
  unfolding sort_insert
  sort_insert-perm x [] = Perm.refl _
  sort_insert-perm x (y ∷ ys) = elim (Bool-cases (before x y)) [
    | inl e ↦ rw e (Perm.refl _)
    | inr e ↦ rw e (Perm.trans (Perm.cons y (sort_insert-perm x ys)) (Perm.swap x y ys))
  ]

  pub sort-perm : (xs : List A) → Perm (sort xs) xs
  unfolding sort
  sort-perm [] = Perm.refl _
  sort-perm (x ∷ xs) = Perm.trans (sort_insert-perm x (sort xs)) (Perm.cons x (sort-perm xs))

  pub length-sort_insert : (x : A) (ys : List A) → length (sort_insert x ys) ≡ suc (length ys)
  unfolding sort_insert
  length-sort_insert x [] = refl
  length-sort_insert x (y ∷ ys) = ground (arith, length-sort_insert x ys)

  pub length-sort : (xs : List A) → length (sort xs) ≡ length xs
  unfolding sort
  length-sort [] = refl
  length-sort (x ∷ xs) = rw (length-sort_insert, length-sort xs)

  select-sort_insert_of_false :
      (p : A → Bool) (x : A) (ys : List A) → p x ≡ false → select p (sort_insert x ys) ≡ select p ys
  unfolding sort_insert
  select-sort_insert_of_false p x [] e = rw e
  select-sort_insert_of_false p x (y ∷ ys) e = ground (arith, select-sort_insert_of_false p x ys e)

  select-sort_insert_of_true :
      (p : A → Bool) (x : A) (ys : List A)
      → p x ≡ true
      → select p ys ≡ []
      → select p (sort_insert x ys) ≡ x ∷ []
  unfolding sort_insert
  select-sort_insert_of_true p x [] e none = rw e
  select-sort_insert_of_true p x (y ∷ ys) e none =
      ground (arith, select-sort_insert_of_true p x ys e)

  -- Sorting does not move what a test picks out, if that is one element at most.
  pub select-sort :
      (p : A → Bool) (xs : List A) → length (select p xs) ≤ 1 → select p (sort xs) ≡ select p xs
  unfolding sort
  select-sort p [] h = refl
  select-sort p (x ∷ xs) h = elim (Bool-cases (p x)) [
    | inl e ↦
        let empty : select p xs ≡ [] = grind arith in
        let same : select p (sort xs) ≡ [] =
          rw (← empty) (select-sort p xs (rw empty (omega arith))) in
        rw (e, empty) (select-sort_insert_of_true p x (sort xs) e same)
    | inr e ↦ rw (select-sort_insert_of_false p x (sort xs) e, e) (select-sort p xs (ground arith))
  ]

  -- A sorted list is left alone.
  pub sort_of_IsSorted : (xs : List A) → IsSorted xs → sort xs ≡ xs
  unfolding sort sort_insert
  sort_of_IsSorted [] h = refl
  sort_of_IsSorted (x ∷ []) h = refl
  sort_of_IsSorted (x ∷ y ∷ ys) h = rw (sort_of_IsSorted (y ∷ ys) h.1, h.0.0)

  pub IsSorted-take : (n : ℕ) (xs : List A) → IsSorted xs → IsSorted (take n xs)
  IsSorted-take zero xs h = tt
  IsSorted-take (suc n) [] h = tt
  IsSorted-take (suc n) (x ∷ xs) h = (All-take _ n xs h.0, IsSorted-take n xs h.1)

  module _ (total : (x y : A) → before x y ≡ false → before y x ≡ true)
      (trans : (x y z : A) → before x y ≡ true → before y z ≡ true → before x z ≡ true) where
    sort_insert-IsSorted : (x : A) (ys : List A) → IsSorted ys → IsSorted (sort_insert x ys)
    unfolding sort_insert
    sort_insert-IsSorted x [] h = (tt, tt)
    sort_insert-IsSorted x (y ∷ ys) h = elim (Bool-cases (before x y)) [
      | inl e ↦ rw e (
        (
          e,
          All-map (λ z. before y z ≡ true) (λ z. before x z ≡ true) (λ z p. trans x y z e p) ys h.0,
        ),
        h,
      )
      | inr e ↦ rw e (
        All-sort_insert (λ z. before y z ≡ true) x ys (total x y e) h.0,
        sort_insert-IsSorted x ys h.1,
      )
    ]

    pub sort-IsSorted : (xs : List A) → IsSorted (sort xs)
    unfolding sort
    sort-IsSorted [] = tt
    sort-IsSorted (x ∷ xs) = sort_insert-IsSorted x (sort xs) (sort-IsSorted xs)
