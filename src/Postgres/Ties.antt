-- ===== src/Postgres/Ties.antt =====
-- Answers of a query with ORDER BY and LIMIT that differ only in how they resolve ties.
use mathlib.Core.List.{Perm}
use mathlib.Core.List.Perm
use mathlib.Core.List.{foldr}
use sredevopsorg_sec_feed.Prelude.{
  ℕ, ◌≡◌, refl, sym, ap, ◌∙◌, ◌⊎◌, inl, inr, Bool, true, false, List, [], ◌∷◌, map, take,
  take_of_length-le, length, leb, arith, Bool-cases, length-map, zero, suc, ◌≤◌,
}
use sredevopsorg_sec_feed.Prelude.Sort.{sort, sort_insert, sort-perm, length-sort}
use sredevopsorg_sec_feed.Postgres.Order.{take-map, sort-map}

-- Two answers of a query with the limit `n`: the ranks of their elements are the same, one by one,
-- and the elements are the same, in some order, unless there are `n` of them.
pub record EqualUpToTies {I R : Type 0} (rank : I → R) (n : ℕ) (xs ys : List I) : Type 0 where
  pub ranks : map rank xs ≡ map rank ys
  pub elements : Perm xs ys ⊎ (length xs ≡ n)

length-take : {A : Type 0} (n : ℕ) (xs : List A) → n ≤ length xs → length (take n xs) ≡ n
length-take zero xs h = refl
length-take (suc n) [] h = elim h [ ]
length-take (suc n) (x ∷ xs) h = omega (arith, length-take n xs (omega arith))

module _ {K : Type 0} (set : IsSet K) (before : K → K → Bool)
    (total : (x y : K) → before x y ≡ false → before y x ≡ true)
    (trans : (x y z : K) → before x y ≡ true → before y z ≡ true → before x z ≡ true)
    (antisym : (x y : K) → before x y ≡ true → before y x ≡ true → x ≡ y) where
  sort_insert_comm :
      (x y : K) (zs : List K)
      → sort_insert before x (sort_insert before y zs)
        ≡ sort_insert before y (sort_insert before x zs)
  unfolding sort_insert
  sort_insert_comm x y [] = elim (Bool-cases (before x y)) [
    | inl xy ↦ elim (Bool-cases (before y x)) [
      | inl yx ↦ rw (antisym x y xy yx) refl
      | inr nyx ↦ rw (xy, nyx) refl
    ]
    | inr nxy ↦ rw (nxy, total x y nxy) refl
  ]
  sort_insert_comm x y (z ∷ zs) = elim (Bool-cases (before x y)) [
    | inl xy ↦ elim (Bool-cases (before y x)) [
      | inl yx ↦
          let e = antisym x y xy yx in
          λ i. sort_insert before (e i) (sort_insert before (sym e i) (z ∷ zs))
      | inr nyx ↦ elim (Bool-cases (before y z)) [
        | inl yz ↦ rw (yz, xy, trans x y z xy yz, nyx, yz) refl
        | inr nyz ↦ elim (Bool-cases (before x z)) [
          | inl xz ↦ rw (nyz, xz, nyx, nyz) refl
          | inr nxz ↦ rw (nyz, nxz, nyz) (ap (◌∷◌ z) (sort_insert_comm x y zs))
        ]
      ]
    ]
    | inr nxy ↦ elim (Bool-cases (before x z)) [
      | inl xz ↦ let yx = total x y nxy in rw (trans y x z yx xz, xz, nxy, yx) refl
      | inr nxz ↦ elim (Bool-cases (before y z)) [
        | inl yz ↦ rw (yz, nxz, nxy, yz) refl
        | inr nyz ↦ rw (nyz, nxz, nyz) (ap (◌∷◌ z) (sort_insert_comm x y zs))
      ]
    ]
  ]

  sort-foldr : (xs : List K) → sort before xs ≡ foldr (sort_insert before) [] xs
  unfolding sort
  sort-foldr [] = refl
  sort-foldr (x ∷ xs) = ap (sort_insert before x) (sort-foldr xs)

  sort-same : {xs ys : List K} → Perm xs ys → sort before xs ≡ sort before ys
  sort-same {xs} {ys} p =
      sort-foldr xs
      ∙ Perm.foldr-eq (hlevel) (sort_insert before) sort_insert_comm p []
      ∙ sym (sort-foldr ys)

  -- Two scans of the same rows, sorted by a key and cut.
  module _ {A I R : Type 0} (key : A → K) (first : A → A → Bool)
      (by_key : (a b : A) → before (key a) (key b) ≡ first a b) (item : A → I) (rank : I → R)
      (rank_of : K → R) (same : (a : A) → rank (item a) ≡ rank_of (key a)) where
    keys-same :
        (n : ℕ) {xs ys : List A}
        → Perm xs ys
        → map key (take n (sort first xs)) ≡ map key (take n (sort first ys))
    keys-same n {xs} {ys} p =
        let k = sort-map key first before by_key in
        sym (take-map key n (sort first xs))
        ∙ ap (take n) (sym (k xs) ∙ sort-same (Perm.map key p) ∙ k ys)
        ∙ take-map key n (sort first ys)

    ranks-same : (elems : List A) → map rank (map item elems) ≡ map rank_of (map key elems)
    ranks-same [] = refl
    ranks-same (a ∷ elems) = rw (same a, ranks-same elems) refl

    pub take-sort-EqualUpToTies :
        (n : ℕ) {xs ys : List A}
        → Perm xs ys
        → EqualUpToTies rank n
            (map item (take n (sort first xs)))
            (map item (take n (sort first ys)))
    take-sort-EqualUpToTies n {xs} {ys} p = record {
      ranks =
          ranks-same (take n (sort first xs))
          ∙ ap (map rank_of) (keys-same n p)
          ∙ sym (ranks-same (take n (sort first ys)));
      elements = elim (Bool-cases (leb (length xs) n)) [
        | inl fits ↦
            let k = ap length (sort-same (Perm.map key p)) in
            let whole_xs : take n (sort first xs) ≡ sort first xs =
              take_of_length-le n (sort first xs) (ground (arith, length-sort first xs)) in
            let whole_ys : take n (sort first ys) ≡ sort first ys =
              take_of_length-le n (sort first ys) (
                ground (
                  arith,
                  k,
                  length-sort first ys,
                  length-sort before (map key xs),
                  length-sort before (map key ys),
                  length-map key xs,
                  length-map key ys,
                )) in
            inl (
              rw (whole_xs, whole_ys)
                (Perm.map item (
                  Perm.trans (sort-perm first xs) (Perm.trans p (Perm.symm (sort-perm first ys))))))
        | inr more ↦ inr (
            length-map item (take n (sort first xs))
            ∙ length-take n (sort first xs) (ground (arith, length-sort first xs)))
      ];
    }
