-- ===== src/Prelude/Dict.antt =====
-- Python dictionaries with text keys (and database tables with a text primary key), as
-- association lists in insertion order.
use Prim.Native.String.{String}
use mathlib.Core.Path.{◌≡◌, refl}
use mathlib.Core.Bool.{Bool}
use mathlib.Core.List.{List, [], ◌∷◌}
use mathlib.Core.Option.{Option, none, some}
use native.Mathlib.Omega.{arith}
use text.Mathlib.Text.{◌==◌}
use text.Mathlib.TextEquality.{eq_iff}
use mathlib.Core.Logic.{inl, inr}
use sredevopsorg_sec_feed.Prelude.Tests.{if◌then◌else◌, Bool-cases}
use sredevopsorg_sec_feed.Prelude.Lists.{select, All}

abbrev pub Dict {ℓ} : Type ℓ → Type ℓ
Dict V = List (String × V)

module _ {ℓ} {V : Type ℓ} where
  unfoldable pub lookup : String → Dict V → Option V
  lookup k [] = none
  lookup k ((j, v) ∷ d) = if j == k then some v else lookup k d

  -- `d[k] = v`: a key keeps its place, a new one goes to the end.
  unfoldable pub insert : String → V → Dict V → Dict V
  insert k v [] = (k, v) ∷ []
  insert k v ((j, w) ∷ d) = if j == k then (k, v) ∷ d else (j, w) ∷ insert k v d

  -- No key stands twice.
  abbrev pub Distinct : Dict V → Type ℓ
  Distinct [] = Unit
  Distinct ((k, v) ∷ d) = (lookup k d ≡ none) × Distinct d

  pub lookup-insert :
      (k j : String) (v : V) (d : Dict V)
      → lookup j (insert k v d) ≡ (if k == j then some v else lookup j d)
  unfolding lookup insert
  lookup-insert k j v [] = refl
  lookup-insert k j v ((i, w) ∷ d) =
      ground (arith, eq_iff k j, eq_iff i k, eq_iff i j, lookup-insert k j v d)

  pub Distinct-insert : (k : String) (v : V) (d : Dict V) → Distinct d → Distinct (insert k v d)
  unfolding lookup insert
  Distinct-insert k v [] h = (refl, tt)
  Distinct-insert k v ((i, w) ∷ d) h =
      ground (arith, eq_iff i k, eq_iff k i, lookup-insert k i v d, Distinct-insert k v d h.1)

  pub lookup-select-none :
      (p : (String × V) → Bool) (k : String) (d : Dict V)
      → lookup k d ≡ none
      → lookup k (select p d) ≡ none
  unfolding lookup
  lookup-select-none p k [] h = refl
  lookup-select-none p k ((i, w) ∷ d) h = ground (arith, lookup-select-none p k d)

  pub Distinct-select : (p : (String × V) → Bool) (d : Dict V) → Distinct d → Distinct (select p d)
  Distinct-select p [] h = tt
  Distinct-select p ((i, w) ∷ d) h =
      ground (arith, lookup-select-none p i d h.0, Distinct-select p d h.1)

  -- What a lookup finds after a deletion by a test on the entries.
  pub lookup-select :
      (p : (String × V) → Bool) (k : String) (d : Dict V)
      → Distinct d
      → lookup k (select p d)
        ≡ elim (lookup k d) [ none ↦ none | some v ↦ if p (k, v) then some v else none ]
  unfolding lookup
  lookup-select p k [] h = refl
  lookup-select p k ((i, w) ∷ d) h =
      ground (arith, eq_iff i k, lookup-select-none p i d, lookup-select p k d h.1)

  pub All-insert {κ} :
      (P : (String × V) → Type κ) (k : String) (v : V) (d : Dict V)
      → P (k, v)
      → All P d
      → All P (insert k v d)
  unfolding insert
  All-insert P k v [] p h = (p, tt)
  All-insert P k v ((i, w) ∷ d) p h = elim (Bool-cases (i == k)) [
    | inl e ↦ rw e (p, h.1)
    | inr e ↦ rw e (h.0, All-insert P k v d p h.1)
  ]

  pub All-lookup {κ} :
      (P : (String × V) → Type κ) (k : String) (d : Dict V) {v : V}
      → All P d
      → lookup k d ≡ some v
      → P (k, v)
  unfolding lookup
  All-lookup P k [] h e = absurd (ground arith)
  All-lookup P k ((i, w) ∷ d) {v} h e = elim (Bool-cases (i == k)) [
    | inl same ↦ let found : w ≡ v = ground arith in rw (← (eq_iff i k).0 same, ← found) h.0
    | inr other ↦ All-lookup P k d h.1 (ground arith)
  ]
