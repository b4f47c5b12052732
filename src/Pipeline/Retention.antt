-- ===== src/Pipeline/Retention.antt =====
-- The retention step of a refresh: how often it deletes, and what.
use sredevopsorg_sec_feed.Prelude.{
  ℕ, ◌+◌, ◌-◌, ◌*◌, ◌≤◌, String, ◌≡◌, ◌≢◌, ◌<◌, sym, ap, ◌∙◌, ◌⊎◌, inl, inr, Bool, true, some, ltb,
  arith,
}
use sredevopsorg_sec_feed.Prelude.Int.{pos, pos_part, ltb_ℤ}
use sredevopsorg_sec_feed.Models.{aware, utc}
use sredevopsorg_sec_feed.Store.{Engine}
use sredevopsorg_sec_feed.Store.Tables.{prune_items}
use sredevopsorg_sec_feed.Store.Sqlite.{iso_text}
use sredevopsorg_sec_feed.Pipeline.{prune_interval, day, App, Outside, Settings, prune_step}

module _ {N : Type 0} (engine : Engine) (outside : Outside N) (settings : Settings) where
  -- The moment before which rows are deleted.
  abbrev pub cutoff : App N → String
  cutoff a =
      iso_text engine
        (aware (utc (outside.clock a.net) - pos_part settings.retention_days * day) (pos 0))

  -- The step leaves all as it is, or it deletes: then retention is on, the last deletion lies a day
  -- back at least, the archive is pruned at the cutoff, and the time is remembered.
  pub prune_step_lem :
      (a : App N)
      → ((prune_step engine outside settings a).0 ≡ a)
        ⊎ ((prune_step engine outside settings a ≡ (
          record a {
            db = (prune_items (cutoff a) a.db).0;
            last_prune_at = some (outside.time a.net);
          },
          true,
        ))
            × (ltb_ℤ (pos 0) settings.retention_days ≡ true)
            × ((last : ℕ)
                → a.last_prune_at ≡ some last
                → last + prune_interval ≤ outside.time a.net))
  unfolding prune_step
  prune_step_lem a = ground arith

  -- After the retention step has deleted, and whatever else has happened since, it does nothing
  -- until a day has passed.
  pub prune_step-throttled :
      (a c : App N)
      → a.last_prune_at ≢ (prune_step engine outside settings a).0.last_prune_at
      → c.last_prune_at ≡ (prune_step engine outside settings a).0.last_prune_at
      → outside.time c.net < outside.time a.net + prune_interval
      → prune_step engine outside settings c ≡ (c, true)
  unfolding prune_step
  prune_step-throttled a c changed same early = elim (prune_step_lem a) [
    | inl e ↦ absurd (changed (sym (ap (λ (b : App N). b.last_prune_at) e)))
    | inr (e, on, spaced) ↦
        let last : c.last_prune_at ≡ some (outside.time a.net) =
          same ∙ ap (λ (p : App N × Bool). p.0.last_prune_at) e in
        let throttled : ltb (outside.time c.net) (outside.time a.net + prune_interval) ≡ true =
          ground arith in
        rw (on, last, throttled)
  ]
