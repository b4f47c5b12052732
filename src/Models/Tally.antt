-- ===== src/Models/Tally.antt =====
-- A format of times that meets the assumptions on `isoformat` and `fromisoformat`
-- (app/models.py), for the runs at concrete inputs.
use sredevopsorg_sec_feed.Prelude.{ℕ, suc, zero, String, ◌≡◌, refl, false, some}
use sredevopsorg_sec_feed.Prelude.Int.{pos}
use sredevopsorg_sec_feed.Prelude.Texts.{is_blank, has_char}
use sredevopsorg_sec_feed.Models.{aware, utc, Iso}
use sredevopsorg_sec_feed.Models.RoundTrip.{IsLawful}

-- A format that meets the assumptions: a moment in unary, after a mark.
unfoldable pub tally : ℕ → String
tally zero = "0"
tally (suc n) = String.◌∷◌ "1" (tally n)

unfoldable pub count_tally : String → ℕ
count_tally String.[] = 0
count_tally (String.◌∷◌ c String.[]) = 0
count_tally (String.◌∷◌ c (String.◌∷◌ d s)) = suc (count_tally (String.◌∷◌ d s))

abbrev pub unary : Iso
unary = record {
  isoformat = λ d. tally (utc d);
  fromisoformat = λ s. some (aware (count_tally s) (pos 0));
}

tally-filled : (n : ℕ) → is_blank (tally n) ≡ false
unfolding tally
tally-filled zero = refl
tally-filled (suc n) = refl

tally-no_z : (n : ℕ) → has_char "Z" (tally n) ≡ false
unfolding tally
tally-no_z zero = refl
tally-no_z (suc n) = tally-no_z n

count_tally-tally : (n : ℕ) → count_tally (tally n) ≡ n
unfolding tally count_tally
count_tally-tally zero = refl
count_tally-tally (suc zero) = refl
count_tally-tally (suc (suc n)) = rw (count_tally-tally (suc n))

pub unary-IsLawful : IsLawful unary
unary-IsLawful = record {
  filled = tally-filled;
  no_z = tally-no_z;
  reads_back = λ t. rw count_tally-tally;
}
