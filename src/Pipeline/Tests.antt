-- ===== src/Pipeline/Tests.antt =====
-- A few events of the scheduler and one refresh, and the theorems on them.
use sredevopsorg_sec_feed.Prelude.{
  ℕ, ◌+◌, ◌*◌, ◌≤◌, ◌≡◌, refl, true, false, not, none, some, [], ◌∷◌, length,
}
use sredevopsorg_sec_feed.Prelude.Int.{pos}
use sredevopsorg_sec_feed.Prelude.Dict.{lookup}
use sredevopsorg_sec_feed.Models.{aware}
use sredevopsorg_sec_feed.Models.Tally.{unary}
use sredevopsorg_sec_feed.Store.{Engine}
use sredevopsorg_sec_feed.Store.Tables.{empty_db, prune_items}
use sredevopsorg_sec_feed.Alerts.{AlertSettings, Channels}
use sredevopsorg_sec_feed.Fetcher.Inputs.{high_item, debian}
use sredevopsorg_sec_feed.Fetcher.Gather.{fetched}
use sredevopsorg_sec_feed.Pipeline.{App, Outside, Settings, prune_step}
use sredevopsorg_sec_feed.Pipeline.Flight.{
  Scheduler, is_empty, refresh_in_flight, schedule_refresh, finish, on_refresh_done, get_feed, idle,
  Step, Reach, Reach-single_flight,
}

program : Unit {0}
unfolding refresh_in_flight schedule_refresh finish on_refresh_done get_feed prune_step prune_items
    empty_db lookup
program = tt

-- A refresh ends, another starts, and only then the callback of the first is called.
abbrev overlap : Scheduler
overlap = on_refresh_done 0 (schedule_refresh (finish 0 (schedule_refresh idle).0)).0

still_flying : refresh_in_flight overlap ≡ true
unfolding program
still_flying = refl

overlap-Reach : Reach overlap
overlap-Reach =
    Reach.next
      (Reach.next (Reach.next (Reach.next Reach.start Step.schedules) (Step.ends 0)) Step.schedules)
      (Step.calls_back 0)

Reach-single_flight_example :
    (length overlap.running ≤ 1)
    × (refresh_in_flight overlap ≡ not (is_empty overlap.running))
    × ((schedule_refresh overlap).1 ≡ is_empty overlap.running)
Reach-single_flight_example = Reach-single_flight overlap-Reach

abbrev engine : Engine
engine = record { iso = unary; dumps = λ l. "[]"; loads = λ s. []; like = λ p s. true }

-- The outside is the time in seconds; the index is down.
abbrev outside : Outside ℕ
outside = record {
  gather = λ db n. ((db, n), (debian, fetched (high_item ∷ [])) ∷ []);
  enrich_items = λ items n. (n, items);
  enrich_with_osv = λ items n. (n, items);
  index = λ items db n. (n + 3, false);
  clock = λ n. aware (n * 1_000_000) (pos 0);
  time = λ n. n;
  db_ok = λ n. true;
  mark_ok = λ n. true;
  marked_at = λ n. "T";
}

abbrev settings : Settings
settings = record { retention_days = pos 1; feed_cache_ttl = pos 300 }

abbrev app : App ℕ
app = record {
  db = empty_db;
  broker = record { max_subscribers = pos 0; subscribers = []; fresh = 0 };
  net = 90_000;
  cache = record { fetched_at = none; generated_at = none; errors = []; steps = [] };
  last_prune_at = none;
}

abbrev silent : AlertSettings
silent = record {
  discord_webhook_url = "";
  slack_webhook_url = "";
  alert_email_to = "";
  smtp_host = "";
}

abbrev no_channels : Channels ℕ
no_channels = record {
  send_discord = λ url payload n. (n, false);
  send_slack = λ url text n. (n, false);
  send_email = λ to subject body n. (n, false);
}

abbrev later : App ℕ
later = record app { net = 100_000; last_prune_at = some 90_000 }
