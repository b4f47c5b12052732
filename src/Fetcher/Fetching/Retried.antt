-- ===== src/Fetcher/Fetching/Retried.antt =====
-- What becomes of the retry when the source has a minimum interval.
use sredevopsorg_sec_feed.Prelude.{
  ℕ, ◌+◌, ◌*◌, ◌≤◌, ◌<◌, String, ◌≡◌, refl, ap, ◌∙◌, Bool, true, false, Option, none, some, List,
  All, All-map, All-of_all, leb→le, arith, leb,
}
use sredevopsorg_sec_feed.Prelude.Dict.{lookup}
use sredevopsorg_sec_feed.Models.{utc, ItemDict}
use sredevopsorg_sec_feed.Models.RoundTrip.{IsLawful}
use sredevopsorg_sec_feed.Sources.{Source, sources}
use sredevopsorg_sec_feed.Store.{Engine}
use sredevopsorg_sec_feed.Fetcher.Gather.{Error, info, skipped, raised, fetch_source}
use sredevopsorg_sec_feed.Fetcher.Gather.Retry.{fetch_source_again}
use sredevopsorg_sec_feed.Fetcher.Fetching.{
  World, Senses, second, is_due, etag_of, last_modified_of, load_state, save_state, Fetchers,
  error_line, ask, fetch_source_once,
}
use sredevopsorg_sec_feed.Fetcher.Fetching.Due.{is_due-save_state}

module _ {N : Type 0} (engine : Engine) (law : IsLawful engine.iso) (senses : Senses N)
    (fetchers : Fetchers N) (sleep : ℕ → N → N) where
  -- Sleeping leaves the archive alone.
  abbrev pub pause : ℕ → World N → World N
  pause n w = record w { net = sleep n w.net }

  save_state-net :
      (source : Source) (etag last_modified : Option String) (payload : Option (List ItemDict))
      (ok : Bool) (error : Option String) (w : World N)
      → (save_state engine senses source etag last_modified payload ok error w).net ≡ w.net
  unfolding save_state
  save_state-net source etag last_modified payload ok error w = ground arith

  -- A source that is not due gives `skipped`, and nothing changes.
  not_due :
      (source : Source) (w : World N)
      → is_due engine.iso source (load_state engine senses source.id w) (senses.clock w.net) ≡ false
      → fetch_source_once engine senses fetchers source w ≡ (w, skipped)
  unfolding fetch_source_once
  not_due source w h = rw h

  -- The attempt that fails: its state is saved.
  failed_once :
      (source : Source) (w w1 : World N) (e : Error)
      → is_due engine.iso source (load_state engine senses source.id w) (senses.clock w.net) ≡ true
      → ask engine senses fetchers source w ≡ (w1, raised e)
      → let state = load_state engine senses source.id w in
        fetch_source_once engine senses fetchers source w ≡ (
          save_state engine senses source
              (etag_of state)
              (last_modified_of state)
              none
              false
              (some (error_line e))
              w1,
          raised e,
        )
  unfolding fetch_source_once
  failed_once source w w1 e due failed = rw (due, ap (λ p. p.1) failed, ap (λ p. p.0) failed)

  -- A source with a minimum interval whose connection fails is not asked again: the failed attempt
  -- was saved, so the retry finds the source not due, if it comes before the interval is over and
  -- the database answers. The result is then skipped, not the error.
  pub fetch_source_hides :
      (source : Source) (w w1 : World N) (e : Error)
      → is_due engine.iso source (load_state engine senses source.id w) (senses.clock w.net) ≡ true
      → ask engine senses fetchers source w ≡ (w1, raised e)
      → (info e).is_transport ≡ true
      → senses.db_ok w1.net ≡ true
      → senses.db_ok (sleep 1 w1.net) ≡ true
      → utc (senses.clock (sleep 1 w1.net))
        < source.min_interval_seconds * second + utc (senses.clock w1.net)
      → 0 < source.min_interval_seconds
      → fetch_source (fetch_source_once engine senses fetchers) pause source w ≡ (
        pause 1 (
            save_state engine senses source
              (etag_of (load_state engine senses source.id w))
              (last_modified_of (load_state engine senses source.id w))
              none
              false
              (some (error_line e))
              w1),
        skipped,
      )
  fetch_source_hides source w w1 e due failed transport saved read early interval =
      let state = load_state engine senses source.id w in
      let w2 =
        save_state engine senses source (etag_of state) (last_modified_of state) none false
          (some (error_line e)) w1 in
      let first = failed_once source w w1 e due failed in
      let net_same =
        save_state-net source (etag_of state) (last_modified_of state) none false
          (some (error_line e)) w1 in
      let later =
        is_due-save_state engine law senses source (etag_of state) (last_modified_of state) none
          false (some (error_line e)) w1 (sleep 1 w1.net) (senses.clock (sleep 1 w1.net)) interval
          saved read in
      let undue : leb (source.min_interval_seconds * second + utc (senses.clock w1.net))
            (utc (senses.clock (sleep 1 w1.net)))
          ≡ false =
        ground arith in
      let again : fetch_source_once engine senses fetchers source (pause 1 w2)
          ≡ (pause 1 w2, skipped) =
        not_due source (pause 1 w2) (rw net_same (later ∙ undue)) in
      fetch_source_again (fetch_source_once engine senses fetchers) pause source w w2 e first
        transport again

-- Each source of the roster has a minimum interval of half an hour at least.
pub sources-interval : All (λ source. 1_800 ≤ source.min_interval_seconds) sources
unfolding sources lookup
sources-interval =
    let long : Source → Bool = λ source. leb 1_800 source.min_interval_seconds in
    All-map (λ source. long source ≡ true) _
      (λ source h. leb→le 1_800 source.min_interval_seconds h) sources
      (All-of_all long sources refl)
