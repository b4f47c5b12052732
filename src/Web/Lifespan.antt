-- ===== src/Web/Lifespan.antt =====
-- The first half of `lifespan` (app/main.py): with what the process starts to serve.
use native.Mathlib.Decide.{dec_lt}
use sredevopsorg_sec_feed.Prelude.{
  ℕ, ◌≤◌, ◌≡◌, refl, ◌∙◌, ap, inl, inr, Bool, true, arith, if◌then◌else◌, Bool-cases,
}
use sredevopsorg_sec_feed.Prelude.Results.{Result, ok, err}
use sredevopsorg_sec_feed.Pipeline.Flight.{Scheduler, refresh_in_flight, schedule_refresh}
use sredevopsorg_sec_feed.Web.Startup.{
  Init, initialised, not_migrated, unavailable, init_store, init_store-Ends, max_attempts,
}

-- What the startup calls; `false` is an exception. `sync` is `ensure_index` and `sync_archive`.
pub record Boot (W : Type 0) : Type 0 where
  pub store_init : ℕ → Init
  pub seed : W → W × Bool
  pub sync : W → W × Bool
  pub has_database_url : Bool

pub data StartError : Type 0 where
  schema_not_migrated : StartError
  store_unavailable : StartError
  seeding_failed : StartError

pub data Mode : Type 0 where
  normal : Mode
  degraded : Mode

pub record Process (W : Type 0) : Type 0 where
  pub world : W
  pub scheduler : Scheduler

pub schedule-in_flight : (s : Scheduler) → refresh_in_flight (schedule_refresh s).0 ≡ true
unfolding refresh_in_flight schedule_refresh
schedule-in_flight s = elim (Bool-cases (refresh_in_flight s)) [
  | inl e ↦ rw e e
  | inr e ↦ rw e (ground arith)
]

module _ {W : Type 0} (boot : Boot W) where
  abbrev pub serve : Mode → W → Scheduler → Process W × Result StartError Mode
  serve mode world scheduler =
      (record { world = world; scheduler = (schedule_refresh scheduler).0 }, ok mode)

  -- The `else` of the `try`: what seeding raises is not caught, what the index raises is.
  abbrev pub prepare : Process W → Process W × Result StartError Mode
  prepare p =
      let (seeded, done) = boot.seed p.world in
      if done
      then serve normal (boot.sync seeded).0 p.scheduler
      else (record p { world = seeded }, err seeding_failed)

  abbrev pub proceed : Init → Process W → Process W × Result StartError Mode
  proceed initialised p = prepare p
  proceed not_migrated p = (p, err schema_not_migrated)
  proceed unavailable p =
      if boot.has_database_url
      then serve degraded p.world p.scheduler
      else (p, err store_unavailable)

  unfoldable pub lifespan : Process W → Process W × Result StartError Mode
  unfolding init_store schedule_refresh
  lifespan = proceed (init_store boot.store_init).ended

  -- The store was found up to date and seeded, after outages at most; or, with a database server,
  -- all five attempts found it unavailable.
  abbrev pub Justified : W → Mode → Type 0
  Justified before normal =
      (n : ℕ) × (n ≤ max_attempts)
      × (boot.store_init n ≡ initialised)
      × ((boot.seed before).1 ≡ true)
  Justified before degraded =
      (boot.has_database_url ≡ true)
      × ((k : ℕ) → 1 ≤ k → k ≤ max_attempts → boot.store_init k ≡ unavailable)

  served :
      (mode given : Mode) (before after : Process W) (w : W)
      → serve given w before.scheduler ≡ (after, ok mode)
      → (given ≡ mode) × (refresh_in_flight after.scheduler ≡ true)
  served mode given before after w h = (
    ground arith,
    rw (← ap (λ (r : Process W × Result StartError Mode). r.0.scheduler) h)
        (schedule-in_flight before.scheduler),
  )

  proceed-Justified :
      (init : Init) (before after : Process W) (mode : Mode)
      → (init_store boot.store_init).ended ≡ init
      → proceed init before ≡ (after, ok mode)
      → Justified before.world mode × (refresh_in_flight after.scheduler ≡ true)
  proceed-Justified initialised before after mode e h =
      elim (Bool-cases (boot.seed before.world).1) [
        | inl done ↦
            let (same, flying) = served mode normal before after _ (rw done at h) in
            let run = init_store-Ends boot.store_init in
            rw (← same) (
              ((init_store boot.store_init).attempts, run.few_attempts, run.ended_last ∙ e, done),
              flying,
            )
        | inr bad ↦ absurd (ground arith)
      ]
  proceed-Justified not_migrated before after mode e h = absurd (ground arith)
  proceed-Justified unavailable before after mode e h = elim (Bool-cases boot.has_database_url) [
    | inl url ↦
        let (same, flying) = served mode degraded before after _ (rw url at h) in
        rw (← same) ((url, all_failed e), flying)
    | inr none_given ↦ absurd (ground arith)
  ]
    where
      all_failed :
          (init_store boot.store_init).ended ≡ unavailable
          → (k : ℕ) → 1 ≤ k
          → k ≤ max_attempts
          → boot.store_init k ≡ unavailable
      all_failed e k low high =
          let run = init_store-Ends boot.store_init in
          let full : (init_store boot.store_init).attempts ≡ max_attempts = elim run.gave_up_last [
            | inl good ↦ absurd (ground arith)
            | inr (inl old) ↦ absurd (ground arith)
            | inr (inr last) ↦ last
          ] in
          elim (dec_lt k (init_store boot.store_init).attempts) [
            | yes p ↦ run.retried k low p
            | no q ↦
                let last : (init_store boot.store_init).attempts ≡ k = omega arith in
                rw (← last) (run.ended_last ∙ e)
          ]

  -- If the process starts to serve, a refresh is in flight, and either a call of the store (the
  -- fifth at the latest) found the schema current and the seeding went through, or, with a database
  -- address set, all five calls found the database unavailable and it serves in degraded mode.
  pub lifespan-Justified :
      (before after : Process W) (mode : Mode)
      → lifespan before ≡ (after, ok mode)
      → Justified before.world mode × (refresh_in_flight after.scheduler ≡ true)
  unfolding lifespan
  lifespan-Justified before after mode = proceed-Justified _ before after mode refl
