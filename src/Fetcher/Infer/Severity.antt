-- ===== src/Fetcher/Infer/Severity.antt =====
-- The severity that is inferred, on the scale that the deduplication compares.
use sredevopsorg_sec_feed.Prelude.{
  ℕ, ◌≤◌, String, ◌≡◌, refl, Bool, true, false, Option, none, some, List, [], ◌∷◌, member, ltb, leb,
  arith, if◌then◌else◌,
}
use sredevopsorg_sec_feed.Runtime.{TextOps}
use sredevopsorg_sec_feed.Fetcher.Dedupe.{severity_rank}
use sredevopsorg_sec_feed.Fetcher.Infer.{
  contains_any, critical_words, high_words, medium_words, low_words, infer_severity,
}

abbrev pub severities : List String
severities = "critical" ∷ "high" ∷ "medium" ∷ "low" ∷ "unknown" ∷ []

-- The shape that both ways of inferring share.
abbrev ladder : Bool → Bool → Bool → Bool → String
ladder a b c d =
    if a
    then "critical"
    else if b
    then "high"
    else if c
    then "medium"
    else if d
    then "low"
    else "unknown"

ladder-member : (a b c d : Bool) → member (ladder a b c d) severities ≡ true
ladder-member true b c d = refl
ladder-member false true c d = refl
ladder-member false false true d = refl
ladder-member false false false true = refl
ladder-member false false false false = refl

ladder-rank :
    (a b c d : Bool)
    → severity_rank (ladder a b c d)
      ≡ (if a then 4 else if b then 3 else if c then 2 else if d then 1 else 0)
unfolding severity_rank
ladder-rank true b c d = refl
ladder-rank false true c d = refl
ladder-rank false false true d = refl
ladder-rank false false false true = refl
ladder-rank false false false false = refl

-- Whatever the text and the score, the severity is one of the five that the rest of the program
-- ranks.
pub infer_severity-member :
    (ops : TextOps) (text : String) (score : Option ℕ)
    → member (infer_severity ops text score) severities ≡ true
unfolding infer_severity
infer_severity-member ops text (some score) =
    ladder-member (leb 9_000_000 score) (leb 7_000_000 score) (leb 4_000_000 score) (ltb 0 score)
infer_severity-member ops text none =
    ladder-member (contains_any (ops.lower text) critical_words)
      (contains_any (ops.lower text) high_words) (contains_any (ops.lower text) medium_words)
      (contains_any (ops.lower text) low_words)

score_rank :
    (ops : TextOps) (text : String) (score : ℕ)
    → severity_rank (infer_severity ops text (some score)) ≡ (
        if leb 9_000_000 score
        then 4
        else if leb 7_000_000 score
        then 3
        else if leb 4_000_000 score
        then 2
        else if ltb 0 score
        then 1
        else 0)
unfolding infer_severity
score_rank ops text score =
    ladder-rank (leb 9_000_000 score) (leb 7_000_000 score) (leb 4_000_000 score) (ltb 0 score)

-- A higher score never gives a lower severity, whatever the texts.
pub infer_severity_mono :
    (ops : TextOps) (text text' : String) (low high : ℕ)
    → low ≤ high
    → severity_rank (infer_severity ops text (some low))
      ≤ severity_rank (infer_severity ops text' (some high))
infer_severity_mono ops text text' low high h = rw (score_rank, score_rank) (ground arith)
