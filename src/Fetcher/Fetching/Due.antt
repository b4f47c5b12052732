-- ===== src/Fetcher/Fetching/Due.antt =====
-- When a source is due again after an attempt was recorded.
use sredevopsorg_sec_feed.Prelude.{
  ◌+◌, ◌*◌, ◌<◌, String, ◌≡◌, Bool, true, false, Option, some, List, arith, nat_eq, leb,
}
use sredevopsorg_sec_feed.Models.{DateTime, naive, aware, utc, ensure_aware, Iso, ItemDict}
use sredevopsorg_sec_feed.Models.RoundTrip.{IsLawful}
use sredevopsorg_sec_feed.Sources.{Source}
use sredevopsorg_sec_feed.Store.{SourceState, Engine}
use sredevopsorg_sec_feed.Store.Sqlite.{iso_text, attempt_row}
use sredevopsorg_sec_feed.Store.State.{set_source_state_lem}
use sredevopsorg_sec_feed.Fetcher.Fetching.{World, Senses, second, is_due, load_state, save_state}

-- A state whose last attempt was at `t`.
due_at :
    (iso : Iso) (law : IsLawful iso) (source : Source) (state : SourceState) (t now : DateTime)
    → 0 < source.min_interval_seconds
    → state.last_fetched_at ≡ some (iso.isoformat (ensure_aware t))
    → is_due iso source (some state) now
      ≡ leb (source.min_interval_seconds * second + utc t) (utc now)
unfolding is_due ensure_aware
due_at iso law source state (naive t) now h e =
    let nonzero : nat_eq source.min_interval_seconds 0 ≡ false = ground arith in
    rw (nonzero, e, law.filled t, law.reads_back t)
due_at iso law source state (aware t o) now h e =
    let nonzero : nat_eq source.min_interval_seconds 0 ≡ false = ground arith in
    rw (nonzero, e, law.filled t, law.reads_back t)

module _ {N : Type 0} (engine : Engine) (law : IsLawful engine.iso) (senses : Senses N) where
  -- Once an attempt at a source with a minimum interval is saved, at whatever outcome, the source
  -- is due exactly from the end of its interval on, for a lawful ISO format and if the database
  -- answers at both times.
  pub is_due-save_state :
      (source : Source) (etag last_modified : Option String) (payload : Option (List ItemDict))
      (ok : Bool) (error : Option String) (w : World N) (net : N) (now : DateTime)
      → 0 < source.min_interval_seconds
      → senses.db_ok w.net ≡ true
      → senses.db_ok net ≡ true
      → is_due engine.iso source
          (load_state engine senses source.id
            (record (save_state engine senses source etag last_modified payload ok error w) {
              net = net;
            }))
          now
        ≡ leb (source.min_interval_seconds * second + utc (senses.clock w.net)) (utc now)
  unfolding save_state load_state attempt_row
  is_due-save_state source etag last_modified payload ok error w net now h saved read =
      let t = senses.clock w.net in
      let new =
        attempt_row engine (iso_text engine t) etag last_modified (some t) ok error payload in
      let (after, found, recorded) = set_source_state_lem source.id new w.db in
      rw (saved, read, found) (due_at engine.iso law source after t now h recorded.time_new)
