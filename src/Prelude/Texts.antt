-- ===== src/Prelude/Texts.antt =====
-- Texts character by character: length, prefixes, the order of Python's `str`, substrings and
-- decimal numerals.
use Prim.Native.Nat.{ℕ, zero, suc, ◌/◌, ◌%◌}
use Prim.Native.Char.{Char, code}
use Prim.Native.String.{String, ◌++◌ as ◌<>◌}
use mathlib.Core.Path.{◌≡◌, refl}
use mathlib.Core.Bool.{Bool, true, false, ◌&&◌, ◌||◌}
use mathlib.Core.List.{List, [], ◌∷◌}
use native.Mathlib.Omega.{arith}
use sredevopsorg_sec_feed.Prelude.Tests.{ltb, leb, nat_eq, if◌then◌else◌}

-- `len(s)`: the number of characters.
abbrev pub text_length : String → ℕ
text_length String.[] = 0
text_length (String.◌∷◌ c s) = suc (text_length s)

-- `s[:n]`
abbrev pub text_take : ℕ → String → String
text_take zero s = ""
text_take (suc n) String.[] = ""
text_take (suc n) (String.◌∷◌ c s) = String.◌∷◌ c (text_take n s)

pub text_length-take : (n : ℕ) (s : String) → leb (text_length (text_take n s)) n ≡ true
text_length-take zero s = ground arith
text_length-take (suc n) String.[] = ground arith
text_length-take (suc n) (String.◌∷◌ c s) = ground (arith, text_length-take n s)

-- `not s`
abbrev pub is_blank : String → Bool
is_blank String.[] = true
is_blank (String.◌∷◌ c s) = false

-- `s or t`
abbrev pub text_or : String → String → String
text_or s t = if is_blank s then t else s

-- `s <= t`, by code points.
abbrev pub text_leb : String → String → Bool
text_leb String.[] t = true
text_leb (String.◌∷◌ c s) String.[] = false
text_leb (String.◌∷◌ c s) (String.◌∷◌ d t) =
    let rest = text_leb s t in
    if ltb (code c) (code d) then true else if ltb (code d) (code c) then false else rest

pub text_leb_total : (s t : String) → text_leb s t ≡ false → text_leb t s ≡ true
text_leb_total String.[] t h = cc
text_leb_total (String.◌∷◌ c s) String.[] h = refl
text_leb_total (String.◌∷◌ c s) (String.◌∷◌ d t) h = ground (arith, text_leb_total s t)

pub text_leb_trans :
    (s t u : String) → text_leb s t ≡ true → text_leb t u ≡ true → text_leb s u ≡ true
text_leb_trans String.[] t u h k = refl
text_leb_trans (String.◌∷◌ c s) String.[] u h k = cc
text_leb_trans (String.◌∷◌ c s) (String.◌∷◌ d t) String.[] h k = cc
text_leb_trans (String.◌∷◌ c s) (String.◌∷◌ d t) (String.◌∷◌ e u) h k =
    ground (arith, text_leb_trans s t u)

-- `t.startswith(s)`
abbrev pub has_prefix : String → String → Bool
has_prefix String.[] t = true
has_prefix (String.◌∷◌ c s) String.[] = false
has_prefix (String.◌∷◌ c s) (String.◌∷◌ d t) = nat_eq (code c) (code d) && has_prefix s t

-- `s in t`
abbrev pub occurs_in : String → String → Bool
occurs_in s String.[] = has_prefix s String.[]
occurs_in s (String.◌∷◌ d t) = has_prefix s (String.◌∷◌ d t) || occurs_in s t

-- `t.replace(c, s)`, for one character.
abbrev pub replace_char : Char → String → String → String
replace_char c s String.[] = ""
replace_char c s (String.◌∷◌ d t) =
    let rest = replace_char c s t in
    if nat_eq (code c) (code d) then s <> rest else String.◌∷◌ d rest

abbrev pub has_char : Char → String → Bool
has_char c String.[] = false
has_char c (String.◌∷◌ d t) = nat_eq (code c) (code d) || has_char c t

pub replace_char_absent : (c : Char) (s t : String) → has_char c t ≡ false → replace_char c s t ≡ t
replace_char_absent c s String.[] h = refl
replace_char_absent c s (String.◌∷◌ d t) h = ground (arith, replace_char_absent c s t)

-- `sep.join(ts)`
abbrev pub join : String → List String → String
join sep [] = ""
join sep (t ∷ []) = t
join sep (t ∷ u ∷ ts) = t <> sep <> join sep (u ∷ ts)

digit : ℕ → String
digit d =
    if nat_eq d 0
    then "0"
    else if nat_eq d 1
    then "1"
    else if nat_eq d 2
    then "2"
    else if nat_eq d 3
    then "3"
    else if nat_eq d 4
    then "4"
    else if nat_eq d 5
    then "5"
    else if nat_eq d 6
    then "6"
    else if nat_eq d 7
    then "7"
    else if nat_eq d 8
    then "8"
    else "9"

decimal_fuel : ℕ → ℕ → String
unfolding digit
decimal_fuel zero n = ""
decimal_fuel (suc fuel) n =
    let front = decimal_fuel fuel (n / 10) in if ltb n 10 then digit n else front <> digit (n % 10)

-- `str(n)`: a number has at most `n + 1` digits, which is the fuel.
unfoldable pub decimal : ℕ → String
unfolding decimal_fuel
decimal n = decimal_fuel (suc n) n

-- The first element of a non-empty list of texts gets a character in front.
abbrev pub onto_first : Char → List String → List String
onto_first c [] = String.◌∷◌ c "" ∷ []
onto_first c (t ∷ ts) = String.◌∷◌ c t ∷ ts

-- `s.split(sep)`, for one character: one text more than there are separators.
abbrev pub split_on : Char → String → List String
split_on c String.[] = "" ∷ []
split_on c (String.◌∷◌ d t) =
    let rest = split_on c t in if nat_eq (code c) (code d) then "" ∷ rest else onto_first d rest

-- `s.endswith(c)`, for one character.
abbrev pub ends_with : Char → String → Bool
ends_with c String.[] = false
ends_with c (String.◌∷◌ d String.[]) = nat_eq (code c) (code d)
ends_with c (String.◌∷◌ d (String.◌∷◌ e t)) = ends_with c (String.◌∷◌ e t)

-- `s[1:]` and `s[:-1]`
abbrev pub drop_first : String → String
drop_first String.[] = ""
drop_first (String.◌∷◌ c s) = s

abbrev pub drop_last : String → String
drop_last String.[] = ""
drop_last (String.◌∷◌ c String.[]) = ""
drop_last (String.◌∷◌ c (String.◌∷◌ d s)) = String.◌∷◌ c (drop_last (String.◌∷◌ d s))

-- What stands before the first separator: `s.split(sep, 1)[0]`.
abbrev pub text_before : Char → String → String
text_before c String.[] = ""
text_before c (String.◌∷◌ d t) =
    if nat_eq (code c) (code d) then "" else String.◌∷◌ d (text_before c t)
