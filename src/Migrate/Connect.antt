-- ===== src/Migrate/Connect.antt =====
-- Connecting while the database starts up: `_connect`, and that it ends.
use native.Mathlib.Decide.{dec_lt}
use sredevopsorg_sec_feed.Prelude.{
  ℕ, zero, suc, ◌+◌, ◌*◌, ◌/◌, ◌≤◌, ◌<◌, ◌≡◌, inl, inr, Bool, true, false, arith, leb, Bool-cases,
}
use sredevopsorg_sec_feed.Prelude.Int.{ℤ, pos_part}

-- The outside of the loop: whether attempt `n` reaches the server, and the reading of the clock, in
-- milliseconds, when it has failed.
pub record Waiting : Type 0 where
  pub started : ℕ
  pub reaches : ℕ → Bool
  pub clock : ℕ → ℕ

pub data Connected : Type 0 where
  connected_at : ℕ → Connected
  gave_up_at : ℕ → Connected
  out_of_fuel : Connected

-- `max(0, wait_seconds)`, in milliseconds.
abbrev pub patience : ℤ → ℕ
patience wait_seconds = 1000 * pos_part wait_seconds

unfoldable pub connect_from : ℕ → Waiting → ℕ → ℕ → Connected
connect_from zero w deadline n = out_of_fuel
connect_from (suc fuel) w deadline n = elim (w.reaches n) [
  | true ↦ connected_at n
  | false ↦ elim (leb deadline (w.clock n)) [
    | true ↦ gave_up_at n
    | false ↦ connect_from fuel w deadline (suc n)
  ]
]

-- The rounds that the loop may need: one for every two seconds of patience, and two more.
abbrev pub rounds : ℤ → ℕ
rounds wait_seconds = pos_part wait_seconds / 2 + 2

unfoldable pub connect : Waiting → ℤ → Connected
unfolding connect_from
connect w wait_seconds = connect_from (rounds wait_seconds) w (w.started + patience wait_seconds) 0

-- A clock that does not run back, under the `time.sleep(2)` between two attempts.
pub record Ticks (w : Waiting) : Type 0 where
  pub from_start : w.started ≤ w.clock 0
  pub sleeps : (n : ℕ) → w.clock n + 2000 ≤ w.clock (suc n)

-- After `n` failures so much time has passed.
elapsed : (w : Waiting) → Ticks w → (n : ℕ) → w.started + 2000 * n ≤ w.clock n
elapsed w ticks zero = omega (arith, ticks.from_start)
elapsed w ticks (suc n) = omega (arith, elapsed w ticks n, ticks.sleeps n)

-- What the loop has found: the first attempt that reached the server, all before it in time, or a
-- failure after the deadline with none that reached it.
pub record Succeeds (w : Waiting) (deadline n : ℕ) : Type 0 where
  pub reached : w.reaches n ≡ true
  pub in_time : (k : ℕ) → k < n → (w.reaches k ≡ false) × (w.clock k < deadline)

pub record GivesUp (w : Waiting) (deadline n : ℕ) : Type 0 where
  pub late : deadline ≤ w.clock n
  pub never : (k : ℕ) → k ≤ n → w.reaches k ≡ false

abbrev pub Ends : (w : Waiting) (deadline bound : ℕ) → Connected → Type 0
Ends w deadline bound (connected_at n) = (n < bound) × Succeeds w deadline n
Ends w deadline bound (gave_up_at n) = (n < bound) × GivesUp w deadline n
Ends w deadline bound out_of_fuel = ⊥

connect_from-Ends :
    (w : Waiting)
    → Ticks w
    → (deadline bound fuel n : ℕ) → n + fuel ≡ bound
    → deadline + 2000 ≤ w.started + 2000 * bound
    → ((k : ℕ) → k < n → (w.reaches k ≡ false) × (w.clock k < deadline))
    → 0 < fuel
    → Ends w deadline bound (connect_from fuel w deadline n)
unfolding connect_from
connect_from-Ends w ticks deadline bound zero n e d before f = elim f [ ]
connect_from-Ends w ticks deadline bound (suc fuel) n e d before f =
    elim (Bool-cases (w.reaches n)) [
      | inl here ↦
          rw (here, connect_from) (omega arith, record { reached = here; in_time = before })
      | inr away ↦ elim (Bool-cases (leb deadline (w.clock n))) [
        | inl late ↦
            rw (away, late, connect_from)
              (omega arith, record { late = ground arith; never = λ k h. all_away away k h })
        | inr early ↦
            rw (away, early, connect_from)
              (connect_from-Ends w ticks deadline bound fuel (suc n) (omega arith) d
                (λ k h. all_early away early k h) (ground (arith, elapsed w ticks n)))
      ]
    ]
  where
    all_away : w.reaches n ≡ false → (k : ℕ) → k ≤ n → w.reaches k ≡ false
    all_away away k h = elim (dec_lt k n) [
      | yes p ↦ (before k p).0
      | no q ↦ let same : k ≡ n = omega arith in rw same away
    ]

    all_early :
        w.reaches n ≡ false
        → leb deadline (w.clock n) ≡ false
        → (k : ℕ) → k < suc n
        → (w.reaches k ≡ false) × (w.clock k < deadline)
    all_early away early k h = elim (dec_lt k n) [
      | yes p ↦ before k p
      | no q ↦ let same : k ≡ n = omega arith in rw same (away, ground arith)
    ]

-- If the clock does not run back and each pause takes its two seconds, the connection loop ends
-- within the given rounds: at the first attempt that reaches the server, all earlier ones having
-- failed before the deadline, or at a failure after the deadline when none has reached it.
pub connect-Ends :
    (w : Waiting) (wait_seconds : ℤ)
    → Ticks w
    → Ends w (w.started + patience wait_seconds) (rounds wait_seconds) (connect w wait_seconds)
unfolding connect
connect-Ends w wait_seconds ticks =
    connect_from-Ends w ticks (w.started + patience wait_seconds) (rounds wait_seconds)
      (rounds wait_seconds) 0 (omega arith) (omega arith) (λ k h. elim h [ ]) (omega arith)
