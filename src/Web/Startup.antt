-- ===== src/Web/Startup.antt =====
-- The startup: `_init_store` with its retries, and the first half of `lifespan`.
use native.Mathlib.Decide.{dec_lt}
use sredevopsorg_sec_feed.Prelude.{
  Bool-cases, ℕ, zero, suc, ◌+◌, ◌-◌, ◌*◌, ◌≤◌, ◌<◌, ◌≡◌, refl, ◌⊎◌, inl, inr, List, [], ◌∷◌, arith,
  nat_eq, if◌then◌else◌,
}

-- How a call of `store.init_db` ends: `SchemaNotMigrated` is told from every other exception.
pub data Init : Type 0 where
  initialised : Init
  not_migrated : Init
  unavailable : Init

-- How many calls were made, the pauses between them in seconds, and how `_init_store` ends.
pub record Started : Type 0 where
  pub attempts : ℕ
  pub pauses : List ℕ
  pub ended : Init

abbrev pub max_attempts : ℕ
max_attempts = 5

-- `store_init n` is how the call of attempt `n` ends. A loop that ran out would return.
unfoldable pub init_from : (ℕ → Init) → ℕ → ℕ → ℕ → Started
init_from store_init zero attempt delay = record {
  attempts = attempt - 1;
  pauses = [];
  ended = initialised;
}
init_from store_init (suc left) attempt delay = elim (store_init attempt) [
  | initialised ↦ record { attempts = attempt; pauses = []; ended = initialised }
  | not_migrated ↦ record { attempts = attempt; pauses = []; ended = not_migrated }
  | unavailable ↦
      if nat_eq attempt max_attempts
      then record { attempts = attempt; pauses = []; ended = unavailable }
      else (let rest = init_from store_init left (attempt + 1) (delay * 2) in
          record rest { pauses = delay ∷ rest.pauses })
]

unfoldable pub init_store : (ℕ → Init) → Started
unfolding init_from
init_store store_init = init_from store_init max_attempts 1 1

abbrev pub total : List ℕ → ℕ
total [] = 0
total (n ∷ ns) = n + total ns

-- The calls before the last one all found the database unavailable, the end is that of the last
-- one, and only the fifth may give up.
pub record Ends (store_init : ℕ → Init) (run : Started) : Type 0 where
  pub some_attempt : 1 ≤ run.attempts
  pub few_attempts : run.attempts ≤ max_attempts
  pub short : total run.pauses ≤ 15
  pub ended_last : store_init run.attempts ≡ run.ended
  pub gave_up_last :
      (run.ended ≡ initialised) ⊎ (run.ended ≡ not_migrated) ⊎ (run.attempts ≡ max_attempts)
  pub retried : (k : ℕ) → 1 ≤ k → k < run.attempts → store_init k ≡ unavailable

Init-cases : (i : Init) → (i ≡ initialised) ⊎ (i ≡ not_migrated) ⊎ (i ≡ unavailable)
Init-cases initialised = inl refl
Init-cases not_migrated = inr (inl refl)
Init-cases unavailable = inr (inr refl)

abbrev doubled : ℕ → ℕ
doubled zero = 1
doubled (suc n) = 2 * doubled n

doubled_pos : (n : ℕ) → 1 ≤ doubled n
doubled_pos zero = omega arith
doubled_pos (suc n) = omega (arith, doubled_pos n)

module _ (store_init : ℕ → Init) where
  -- Before `attempt`, every call found the database unavailable.
  abbrev AllUnavailable : ℕ → Type 0
  AllUnavailable attempt = (k : ℕ) → 1 ≤ k → k < attempt → store_init k ≡ unavailable

  -- `Ends`, for the rounds that are left.
  record EndsFrom (delay : ℕ) (run : Started) : Type 0 where
    within : (1 ≤ run.attempts) × (run.attempts ≤ max_attempts)
    short : total run.pauses + delay ≤ 16
    ended_last : store_init run.attempts ≡ run.ended
    gave_up_last :
        (run.ended ≡ initialised) ⊎ (run.ended ≡ not_migrated) ⊎ (run.attempts ≡ max_attempts)
    retried : AllUnavailable run.attempts

  one_more :
      (attempt : ℕ)
      → store_init attempt ≡ unavailable
      → AllUnavailable attempt
      → AllUnavailable (attempt + 1)
  one_more attempt e before k low high = elim (dec_lt k attempt) [
    | yes p ↦ before k low p
    | no q ↦ let same : k ≡ attempt = omega arith in rw same e
  ]

  init_from-EndsFrom :
      (left attempt delay : ℕ)
      → attempt + left ≡ 6
      → 1 ≤ attempt
      → 1 ≤ left
      → delay * doubled left ≤ 32
      → AllUnavailable attempt
      → EndsFrom delay (init_from store_init left attempt delay)
  unfolding init_from
  init_from-EndsFrom zero attempt delay e low more d before = elim more [ ]
  init_from-EndsFrom (suc left) attempt delay e low more d before =
      let small : delay ≤ 16 = grind (arith, doubled_pos left) in
      elim (Init-cases (store_init attempt)) [
        | inl done ↦
            rw (init_from, done)
              (record {
                within = omega arith;
                short = omega (arith, small);
                ended_last = done;
                gave_up_last = inl refl;
                retried = before;
              })
        | inr (inl old) ↦
            rw (init_from, old)
              (record {
                within = omega arith;
                short = omega (arith, small);
                ended_last = old;
                gave_up_last = inr (inl refl);
                retried = before;
              })
        | inr (inr down) ↦ elim (Bool-cases (nat_eq attempt max_attempts)) [
          | inl last ↦
              rw (init_from, down, last)
                (record {
                  within = omega arith;
                  short = omega (arith, small);
                  ended_last = down;
                  gave_up_last = inr (inr (ground arith));
                  retried = before;
                })
          | inr again ↦
              let rest =
                init_from-EndsFrom left (attempt + 1) (delay * 2) (omega arith) (omega arith)
                  (ground arith) (omega arith) (one_more attempt down before) in
              rw (init_from, down, again)
                (record {
                  within = rest.within;
                  short = omega (arith, rest.short);
                  ended_last = rest.ended_last;
                  gave_up_last = rest.gave_up_last;
                  retried = rest.retried;
                })
        ]
      ]

  -- The startup calls the store at least once and at most five times, pausing for at most 15
  -- seconds in all; it repeats a call only when the database was unavailable, ends as its last call
  -- did, and gives up on an unavailable database at the fifth call only.
  pub init_store-Ends : Ends store_init (init_store store_init)
  unfolding init_store
  init_store-Ends =
      let run =
        init_from-EndsFrom max_attempts 1 1 refl (omega arith) (omega arith) (omega arith)
          (λ k low high. absurd (omega arith)) in
      record {
        some_attempt = run.within.0;
        few_attempts = run.within.1;
        short = omega (arith, run.short);
        ended_last = run.ended_last;
        gave_up_last = run.gave_up_last;
        retried = run.retried;
      }
