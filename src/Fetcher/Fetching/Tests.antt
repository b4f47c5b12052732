-- ===== src/Fetcher/Fetching/Tests.antt =====
-- A source whose connection fails, and what the retry makes of it.
use sredevopsorg_sec_feed.Prelude.{ℕ, ◌+◌, ◌*◌, ◌≡◌, refl, true, false, none, some, [], arith, leb}
use sredevopsorg_sec_feed.Prelude.Int.{pos}
use sredevopsorg_sec_feed.Prelude.Dict.{lookup}
use sredevopsorg_sec_feed.Models.{aware}
use sredevopsorg_sec_feed.Models.Tally.{unary, unary-IsLawful}
use sredevopsorg_sec_feed.Sources.{Source}
use sredevopsorg_sec_feed.Store.{Engine}
use sredevopsorg_sec_feed.Store.Tables.{empty_db, get_source_state}
use sredevopsorg_sec_feed.Fetcher.Inputs.{debian}
use sredevopsorg_sec_feed.Fetcher.Gather.{Error, root, FetchResult, skipped, raised, fetch_source}
use sredevopsorg_sec_feed.Fetcher.Fetching.{
  World, Senses, second, is_due, load_state, save_state, Fetchers, ask, fetch_source_once,
}
use sredevopsorg_sec_feed.Fetcher.Fetching.Due.{is_due-save_state}
use sredevopsorg_sec_feed.Fetcher.Fetching.Retried.{pause, fetch_source_hides}

abbrev engine : Engine
engine = record { iso = unary; dumps = λ l. "[]"; loads = λ s. []; like = λ p s. true }

-- The world is its clock, in microseconds.
abbrev senses : Senses ℕ
senses = record { clock = λ n. aware n (pos 0); db_ok = λ n. true }

abbrev refused : Error
refused =
    root (record { kind = "ConnectError"; message = ""; is_timeout = false; is_transport = true })

abbrev offline : Fetchers ℕ
offline =
    let fails : Source → World ℕ → World ℕ × FetchResult = λ s w. (w, raised refused) in
    record {
      fetch_rss = fails;
      fetch_ghsa = fails;
      fetch_nvd = fails;
      fetch_redhat = fails;
      fetch_recent_kev = fails;
    }

abbrev half_hourly : Source
half_hourly = record debian { min_interval_seconds = 1_800 }

abbrev start : World ℕ
start = record { db = empty_db; net = 5 }

is_due-save_state_example :
    is_due unary half_hourly
      (load_state engine senses "debian"
        (record (save_state engine senses half_hourly none none none true none start) { net = 7 }))
      (aware 9 (pos 0))
    ≡ leb (1_800 * second + 5) 9
is_due-save_state_example =
    is_due-save_state engine unary-IsLawful senses half_hourly none none none true none start 7
      (aware 9 (pos 0)) (omega arith) refl refl

fetch_source_hides_example :
    fetch_source
      (fetch_source_once engine senses offline)
      (pause engine unary-IsLawful senses offline (λ n t. t + n))
      half_hourly
      start
    ≡ (
      pause engine unary-IsLawful senses offline
          (λ n t. t + n)
          1
          (save_state engine senses half_hourly none none none false (some "ConnectError: ") start),
      skipped,
    )
unfolding ask is_due load_state get_source_state empty_db lookup
fetch_source_hides_example =
    fetch_source_hides engine unary-IsLawful senses offline (λ n t. t + n) half_hourly start start
      refused refl refl refl refl refl (omega arith) (omega arith)
