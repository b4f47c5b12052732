-- ===== src/Fetcher/Infer/Words.antt =====
-- `_mentions` against its meaning: the token stands in the text as a whole word.
use sredevopsorg_sec_feed.Prelude.{String, ◌<>◌, ◌≡◌, Bool, true, not}
use sredevopsorg_sec_feed.Fetcher.Infer.{is_word_char, ends_word}

-- No character of `[a-z0-9]` stands directly before the place, at the end of `front`.
abbrev pub starts_word : Bool → String → Bool
starts_word free String.[] = free
starts_word free (String.◌∷◌ c front) = starts_word (not (is_word_char c)) front

-- The text splits around the token, which no character of `[a-z0-9]` touches.
pub record IsWordOf (token text : String) (free : Bool) : Type 0 where
  pub front : String
  pub rest : String
  pub split : text ≡ front <> (token <> rest)
  pub open_left : starts_word free front ≡ true
  pub open_right : ends_word rest ≡ true
