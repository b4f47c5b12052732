-- ===== src/Postgres/Codec.antt =====
-- A format of lists of texts that reads back, for the runs at concrete inputs.
use Prim.Native.Char.{Char, code}
use sredevopsorg_sec_feed.Store.Stats.{has_any}
use sredevopsorg_sec_feed.Prelude.{
  ◌==◌, ◌||◌, not, Bool, true, Bool-cases, inl, inr, eq_iff, ℕ, zero, suc, String, ◌≡◌, refl, ap,
  ◌∙◌, List, [], ◌∷◌, nat_eq, leb, arith, if◌then◌else◌, false,
}
use sredevopsorg_sec_feed.Prelude.Texts.{is_blank, onto_first, drop_first, text_leb}
use sredevopsorg_sec_feed.Models.Tally.{tally}

-- A "1" before each character of a text, and a "0" behind the text.
write_text : String → String → String
write_text String.[] rest = String.◌∷◌ "0" rest
write_text (String.◌∷◌ c s) rest = String.◌∷◌ "1" (String.◌∷◌ c (write_text s rest))

write_texts : List String → String
write_texts [] = "]"
write_texts (s ∷ l) = write_text s (write_texts l)

read_texts : String → List String
read_texts String.[] = []
read_texts (String.◌∷◌ d String.[]) = []
read_texts (String.◌∷◌ d (String.◌∷◌ c t)) =
    let ended = read_texts (String.◌∷◌ c t) in
    let longer = read_texts t in
    if nat_eq (code d) (code "0") then "" ∷ ended else onto_first c longer

unfoldable pub dumps : List String → String
unfolding write_texts write_text
dumps l = String.◌∷◌ "[" (write_texts l)

unfoldable pub loads : String → List String
unfolding read_texts
loads s = read_texts (drop_first s)

read_texts-write_text :
    (s : String) (c : Char) (t : String)
    → read_texts (write_text s (String.◌∷◌ c t)) ≡ s ∷ read_texts (String.◌∷◌ c t)
unfolding read_texts write_text
read_texts-write_text String.[] c t = refl
read_texts-write_text (String.◌∷◌ d s) c t = rw (read_texts-write_text s c t) refl

write_texts_cons : (l : List String) → (c : Char) × (t : String) × (write_texts l ≡ String.◌∷◌ c t)
unfolding write_texts write_text
write_texts_cons [] = ("]", "", refl)
write_texts_cons (String.[] ∷ l) = ("0", write_texts l, refl)
write_texts_cons (String.◌∷◌ c s ∷ l) = ("1", String.◌∷◌ c (write_text s (write_texts l)), refl)

read_texts-write_texts : (l : List String) → read_texts (write_texts l) ≡ l
unfolding read_texts write_texts
read_texts-write_texts [] = refl
read_texts-write_texts (s ∷ l) =
    let (c, t, e) = write_texts_cons l in
    let ih = read_texts-write_texts l in
    rw e (read_texts-write_text s c t ∙ ap (◌∷◌ s) (rw e at ih))

pub loads-dumps : (l : List String) → loads (dumps l) ≡ l
unfolding loads dumps
loads-dumps l = read_texts-write_texts l

-- The unary times are in the order of the moments.
pub text_leb-tally : (a b : ℕ) → text_leb (tally a) (tally b) ≡ leb a b
unfolding tally
text_leb-tally zero zero = refl
text_leb-tally zero (suc b) = ground arith
text_leb-tally (suc a) zero = ground arith
text_leb-tally (suc a) (suc b) = ground (arith, text_leb-tally a b)

-- Whether the second character is a closing bracket.
closes : String → Bool
closes String.[] = false
closes (String.◌∷◌ c String.[]) = false
closes (String.◌∷◌ c (String.◌∷◌ d s)) = nat_eq (code d) (code "]")

differ : (test : String → Bool) (s t : String) → test s ≡ false → test t ≡ true → (s == t) ≡ false
differ test s t h k = elim (Bool-cases (s == t)) [
  | inr e ↦ e
  | inl e ↦ let same : s ≡ t = (eq_iff s t).0 e in absurd (cc (ap test same, h, k))
]

pub dumps_empty : (l : List String) → (dumps l == "[]" || dumps l == "") ≡ not (has_any l)
unfolding dumps write_texts write_text closes
dumps_empty [] = refl
dumps_empty (String.[] ∷ l) =
    rw
      (differ closes (dumps ("" ∷ l)) "[]" refl refl, differ is_blank (dumps ("" ∷ l)) "" refl refl)
      refl
dumps_empty (String.◌∷◌ c s ∷ l) =
    rw
      (
        differ closes (dumps (String.◌∷◌ c s ∷ l)) "[]" refl refl,
        differ is_blank (dumps (String.◌∷◌ c s ∷ l)) "" refl refl,
      )
      refl
