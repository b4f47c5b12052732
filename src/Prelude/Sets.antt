-- ===== src/Prelude/Sets.antt =====
-- Sets of texts as lists with no text twice, and the order-preserving deduplication of
-- `dict.fromkeys`.
use Prim.Native.String.{String}
use mathlib.Core.Path.{◌≡◌, refl, ap, ◌∙◌}
use mathlib.Core.Logic.{inl, inr}
use mathlib.Core.Bool.{Bool, false, ◌&&◌, ◌||◌, not}
use mathlib.Core.List.{List, [], ◌∷◌, ◌++◌}
use native.Mathlib.Omega.{arith}
use text.Mathlib.Text.{◌==◌}
use text.Mathlib.TextEquality.{eq_iff}
use sredevopsorg_sec_feed.Prelude.Tests.{if◌then◌else◌, Bool-cases}
use sredevopsorg_sec_feed.Prelude.Lists.{All, member, member-append}
use sredevopsorg_sec_feed.Prelude.Sort.{sort, sort_insert}

-- No text stands twice.
abbrev pub Uniq : List String → Type 0
Uniq [] = Unit
Uniq (x ∷ xs) = (member x xs ≡ false) × Uniq xs

-- The first occurrences; `seen` holds those so far.
unfoldable pub uniq_from : List String → List String → List String
uniq_from seen [] = []
uniq_from seen (x ∷ xs) =
    let old = uniq_from seen xs in
    let new = uniq_from (x ∷ seen) xs in if member x seen then old else x ∷ new

-- `list(dict.fromkeys(l))`, and `set(l)`.
unfoldable pub uniq : List String → List String
unfolding uniq_from
uniq = uniq_from []

-- `s.add(x)`
unfoldable pub add : String → List String → List String
add x xs = if member x xs then xs else xs ++ x ∷ []

-- `s |= t`
unfoldable pub union : List String → List String → List String
unfolding add
union xs [] = xs
union xs (y ∷ ys) = union (add y xs) ys

member-uniq_from :
    (y : String) (seen xs : List String)
    → member y (uniq_from seen xs) ≡ (member y xs && not (member y seen))
unfolding uniq_from
member-uniq_from y seen [] = refl
member-uniq_from y seen (x ∷ xs) = elim (Bool-cases (member x seen)) [
  | inl e ↦ rw e (ground (arith, member-uniq_from y seen xs, eq_iff x y))
  | inr e ↦ rw e (ground (arith, member-uniq_from y (x ∷ seen) xs, eq_iff x y))
]

-- Deduplication keeps exactly the texts of the list.
pub member-uniq : (y : String) (xs : List String) → member y (uniq xs) ≡ member y xs
unfolding uniq
member-uniq y xs = ground (arith, member-uniq_from y [] xs)

Uniq-uniq_from : (seen xs : List String) → Uniq (uniq_from seen xs)
unfolding uniq_from
Uniq-uniq_from seen [] = tt
Uniq-uniq_from seen (x ∷ xs) = elim (Bool-cases (member x seen)) [
  | inl e ↦ rw e (Uniq-uniq_from seen xs)
  | inr e ↦
      rw e
        (ground (arith, member-uniq_from x (x ∷ seen) xs, eq_iff x x), Uniq-uniq_from (x ∷ seen) xs)
]

pub uniq-Uniq : (xs : List String) → Uniq (uniq xs)
unfolding uniq
uniq-Uniq = Uniq-uniq_from []

uniq_from_of_Uniq :
    (seen xs : List String) → Uniq xs → All (λ x. member x seen ≡ false) xs → uniq_from seen xs ≡ xs
unfolding uniq_from
uniq_from_of_Uniq seen [] u a = refl
uniq_from_of_Uniq seen (x ∷ xs) u a =
    rw a.0 (ap (◌∷◌ x) (uniq_from_of_Uniq (x ∷ seen) xs u.1 (later xs u.0 a.1)))
  where
    later :
        (ys : List String)
        → member x ys ≡ false
        → All (λ y. member y seen ≡ false) ys
        → All (λ y. member y (x ∷ seen) ≡ false) ys
    later [] m b = tt
    later (y ∷ ys) m b = ground (arith, later ys, eq_iff x y, eq_iff y x)

-- A list with no text twice is left alone.
pub uniq_of_Uniq : (xs : List String) → Uniq xs → uniq xs ≡ xs
unfolding uniq
uniq_of_Uniq xs u = uniq_from_of_Uniq [] xs u (none_seen xs)
  where
    none_seen : (ys : List String) → All (λ y. member y [] ≡ false) ys
    none_seen [] = tt
    none_seen (y ∷ ys) = (refl, none_seen ys)

pub member-add : (y x : String) (xs : List String) → member y (add x xs) ≡ (member y xs || x == y)
unfolding add
member-add y x xs = ground (arith, member-append y xs (x ∷ []), eq_iff x y)

pub Uniq-add : (x : String) (xs : List String) → Uniq xs → Uniq (add x xs)
unfolding add
Uniq-add x xs u = elim (Bool-cases (member x xs)) [ inl e ↦ rw e u | inr e ↦ rw e (snoc xs u e) ]
  where
    snoc : (ys : List String) → Uniq ys → member x ys ≡ false → Uniq (ys ++ x ∷ [])
    snoc [] v m = (refl, tt)
    snoc (y ∷ ys) v m =
        ground (arith, snoc ys v.1, member-append y ys (x ∷ []), eq_iff x y, eq_iff y x)

pub member-union :
    (z : String) (xs ys : List String) → member z (union xs ys) ≡ (member z xs || member z ys)
unfolding union
member-union z xs [] = ground arith
member-union z xs (y ∷ ys) = ground (arith, member-union z (add y xs) ys, member-add z y xs)

pub Uniq-union : (xs ys : List String) → Uniq xs → Uniq (union xs ys)
unfolding union
Uniq-union xs [] u = u
Uniq-union xs (y ∷ ys) u = Uniq-union (add y xs) ys (Uniq-add y xs u)

module _ (before : String → String → Bool) where
  member-sort_insert :
      (y x : String) (xs : List String)
      → member y (sort_insert before x xs) ≡ (x == y || member y xs)
  unfolding sort_insert
  member-sort_insert y x [] = refl
  member-sort_insert y x (z ∷ zs) = ground (arith, member-sort_insert y x zs)

  pub member-sort : (y : String) (xs : List String) → member y (sort before xs) ≡ member y xs
  unfolding sort
  member-sort y [] = refl
  member-sort y (x ∷ xs) = rw (member-sort_insert, member-sort y xs)

  Uniq-sort_insert :
      (x : String) (xs : List String)
      → member x xs ≡ false
      → Uniq xs
      → Uniq (sort_insert before x xs)
  unfolding sort_insert
  Uniq-sort_insert x [] m u = (refl, tt)
  Uniq-sort_insert x (z ∷ zs) m u =
      ground (arith, Uniq-sort_insert x zs, member-sort_insert z x zs, eq_iff x z, eq_iff z x)

  pub Uniq-sort : (xs : List String) → Uniq xs → Uniq (sort before xs)
  unfolding sort
  Uniq-sort [] u = tt
  Uniq-sort (x ∷ xs) u =
      Uniq-sort_insert x (sort before xs) (member-sort x xs ∙ u.0) (Uniq-sort xs u.1)
