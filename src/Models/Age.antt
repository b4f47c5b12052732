-- ===== src/Models/Age.antt =====
-- The relative timestamps of `_time_ago`.
use sredevopsorg_sec_feed.Prelude.{
  ℕ, ◌+◌, ◌*◌, ◌≤◌, ◌<◌, String, ◌≡◌, inl, inr, Bool-cases, ltb, tests, false, ◌/◌, arith,
}
use sredevopsorg_sec_feed.Models.{plural, time_ago}

pub data Span : Type 0 where
  minute hour day week : Span

abbrev pub span_name : Span → String
span_name minute = "minute"
span_name hour = "hour"
span_name day = "day"
span_name week = "week"

abbrev pub span_seconds : Span → ℕ
span_seconds minute = 60
span_seconds hour = 3_600
span_seconds day = 86_400
span_seconds week = 604_800

-- The count of a unit stays below the next unit.
abbrev pub Fits : Span → ℕ → Type 0
Fits minute n = n < 60
Fits hour n = n < 24
Fits day n = n < 7
Fits week n = Unit

-- The text names the largest unit that fits, and the number of whole units of it.
pub record IsAge (seconds : ℕ) (span : Span) (n : ℕ) : Type 0 where
  pub text : time_ago seconds ≡ plural n (span_name span)
  pub positive : 0 < n
  pub fits : Fits span n
  pub whole : n * span_seconds span ≤ seconds
  pub next : seconds < (n + 1) * span_seconds span

-- From one minute on, the text of an age is a positive whole number of the largest unit (minute,
-- hour, day or week) that fits into it, rounded down.
pub time_ago_floor : (seconds : ℕ) → 60 ≤ seconds → (span : Span) × (n : ℕ) × IsAge seconds span n
unfolding time_ago
time_ago_floor s h =
    let young : ltb s 60 ≡ false = ground arith in
    elim (Bool-cases (ltb (s / 60) 60)) [
      | inl m ↦ (
        minute,
        s / 60,
        record {
          text = rw (young, m);
          positive = omega tests;
          fits = omega tests;
          whole = omega tests;
          next = omega tests;
        },
      )
      | inr m ↦ elim (Bool-cases (ltb (s / 60 / 60) 24)) [
        | inl d ↦ (
          hour,
          s / 60 / 60,
          record {
            text = rw (young, m, d);
            positive = ground arith;
            fits = omega tests;
            whole = omega tests;
            next = omega tests;
          },
        )
        | inr d ↦ elim (Bool-cases (ltb (s / 60 / 60 / 24) 7)) [
          | inl w ↦ (
            day,
            s / 60 / 60 / 24,
            record {
              text = rw (young, m, d, w);
              positive = ground arith;
              fits = omega tests;
              whole = omega tests;
              next = omega tests;
            },
          )
          | inr w ↦ (
            week,
            s / 60 / 60 / 24 / 7,
            record {
              text = rw (young, m, d, w);
              positive = ground arith;
              fits = tt;
              whole = omega tests;
              next = omega tests;
            },
          )
        ]
      ]
    ]
