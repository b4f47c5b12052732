-- ===== src/Postgres/Current.antt =====
-- `max` over texts: the greatest of a list.
use text.Mathlib.TextEquality.{Char-path}
use sredevopsorg_sec_feed.Prelude.{
  String, ◌≡◌, refl, ap, ◌∙◌, inl, inr, true, Option, none, some, List, [], ◌∷◌, member, All, arith,
  eq_iff, ◌==◌, if◌then◌else◌, Bool-cases, Option-cases,
}
use sredevopsorg_sec_feed.Prelude.Texts.{text_leb, text_leb_total, text_leb_trans}
use sredevopsorg_sec_feed.Store.Stats.{greatest}

text_leb_antisymm : (s t : String) → text_leb s t ≡ true → text_leb t s ≡ true → s ≡ t
text_leb_antisymm String.[] String.[] h k = refl
text_leb_antisymm String.[] (String.◌∷◌ d t) h k = absurd (ground arith)
text_leb_antisymm (String.◌∷◌ c s) String.[] h k = absurd (ground arith)
text_leb_antisymm (String.◌∷◌ c s) (String.◌∷◌ d t) h k =
    let same : c ≡ d = Char-path c d (ground arith) in
    let rest : s ≡ t = text_leb_antisymm s t (ground arith) (ground arith) in rw (same, rest) refl

abbrev max_text : String → Option String → String
max_text y none = y
max_text y (some g) = if text_leb y g then g else y

greatest-cons :
    (y : String) (ys : List String)
    → greatest text_leb (y ∷ ys) ≡ some (max_text y (greatest text_leb ys))
greatest-cons y ys = elim (Option-cases (greatest text_leb ys)) [
  | inl e ↦ rw e refl
  | inr (g, e) ↦ rw e refl
]

abbrev GeqOf : String → Option String → Type 0
GeqOf x none = ⊥
GeqOf x (some g) = text_leb x g ≡ true

pub text_leb_refl : (s : String) → text_leb s s ≡ true
text_leb_refl String.[] = refl
text_leb_refl (String.◌∷◌ c s) = ground (arith, text_leb_refl s)

max_text-geq :
    (x y : String) (o : Option String) → (y == x) ≡ true → text_leb x (max_text y o) ≡ true
max_text-geq x y none h = rw ((eq_iff y x).0 h) (text_leb_refl x)
max_text-geq x y (some g) h = elim (Bool-cases (text_leb y g)) [
  | inl e ↦ rw e (rw ((eq_iff y x).0 h) at e)
  | inr e ↦ rw e (rw ((eq_iff y x).0 h) (text_leb_refl x))
]

max_text-geq_rest :
    (x y : String) (o : Option String) → GeqOf x o → text_leb x (max_text y o) ≡ true
max_text-geq_rest x y none h = elim h [ ]
max_text-geq_rest x y (some g) h = elim (Bool-cases (text_leb y g)) [
  | inl e ↦ rw e h
  | inr e ↦ rw e (text_leb_trans x g y h (text_leb_total y g e))
]

greatest-geq : (x : String) (xs : List String) → member x xs ≡ true → GeqOf x (greatest text_leb xs)
greatest-geq x [] h = absurd (ground arith)
greatest-geq x (y ∷ ys) h = rw (greatest-cons y ys) (elim (Bool-cases (y == x)) [
  | inl e ↦ max_text-geq x y (greatest text_leb ys) e
  | inr e ↦ max_text-geq_rest x y (greatest text_leb ys) (greatest-geq x ys (ground arith))
])

max_text-leq :
    (x y : String) (ys : List String)
    → text_leb y x ≡ true
    → ((g : String) → greatest text_leb ys ≡ some g → text_leb g x ≡ true)
    → text_leb (max_text y (greatest text_leb ys)) x ≡ true
max_text-leq x y ys h le = elim (Option-cases (greatest text_leb ys)) [
  | inl e ↦ rw e h
  | inr (g, e) ↦ rw e (ground (arith, le g e))
]

greatest-leq :
    (x : String) (xs : List String) (g : String)
    → All (λ y. text_leb y x ≡ true) xs
    → greatest text_leb xs ≡ some g
    → text_leb g x ≡ true
greatest-leq x [] g le h = absurd (ground arith)
greatest-leq x (y ∷ ys) g le h =
    let bound = max_text-leq x y ys le.0 (λ g' e. greatest-leq x ys g' le.1 e) in
    let same : max_text y (greatest text_leb ys) ≡ g = ground (arith, greatest-cons y ys) in
    rw (← same) bound

-- A text that is in a list, and not before any of its texts, is the greatest.
pub greatest_lem :
    (x : String) (xs : List String)
    → member x xs ≡ true
    → All (λ y. text_leb y x ≡ true) xs
    → greatest text_leb xs ≡ some x
greatest_lem x xs h le = elim (Option-cases (greatest text_leb xs)) [
  | inl e ↦ let above = greatest-geq x xs h in elim (rw e at above) [ ]
  | inr (g, e) ↦
      let above = greatest-geq x xs h in
      e ∙ ap some (text_leb_antisymm g x (greatest-leq x xs g le e) (rw e at above))
]
