-- ===== src/Alerts/Tests.antt =====
-- Two runs of the alerts on a small archive, and the theorems on them.
use sredevopsorg_sec_feed.Prelude.{
  ℕ, ◌+◌, ◌≡◌, refl, true, false, ◌&&◌, ◌||◌, none, [], ◌∷◌, member,
}
use sredevopsorg_sec_feed.Prelude.Int.{pos}
use sredevopsorg_sec_feed.Prelude.Dict.{lookup, insert}
use sredevopsorg_sec_feed.Prelude.Sort.{sort, sort_insert}
use sredevopsorg_sec_feed.Models.{DateTime, aware, item_to_dict}
use sredevopsorg_sec_feed.Fetcher.Inputs.{plain_ops, high_item, other_item}
use sredevopsorg_sec_feed.Store.{Db, Engine}
use sredevopsorg_sec_feed.Store.Tables.{empty_db, is_marked, unalerted_rows, mark_alerted}
use sredevopsorg_sec_feed.Store.Sqlite.{upsert_items, unalerted_urgent_items, row_to_item}
use sredevopsorg_sec_feed.Alerts.{
  max_alerts_per_run, AlertSettings, Channels, deliver, send_items, send_urgent_alerts,
}
use sredevopsorg_sec_feed.Alerts.Delivery.{
  delivered, run, is_marked-send_urgent_alerts, send_urgent_alerts-once,
}

program : Unit {0}
unfolding empty_db upsert_items lookup insert unalerted_rows unalerted_urgent_items item_to_dict
    row_to_item mark_alerted sort sort_insert deliver send_items send_urgent_alerts
program = tt

abbrev engine : Engine
engine = record {
  iso = record { isoformat = λ d. "T"; fromisoformat = λ s. none };
  dumps = λ l. "[]";
  loads = λ s. [];
  like = λ p s. true;
}

-- Slack alone; the world counts the posts, which all succeed.
abbrev slack : AlertSettings
slack = record {
  discord_webhook_url = "";
  slack_webhook_url = "https://hooks.slack.com/1";
  alert_email_to = "";
  smtp_host = "";
}

abbrev open_channels : Channels ℕ
open_channels = record {
  send_discord = λ url payload n. (n + 1, true);
  send_slack = λ url text n. (n + 1, true);
  send_email = λ to subject body n. (n + 1, true);
}

abbrev now : DateTime
now = aware 9 (pos 0)

abbrev archive : Db
unfolding program
archive = (upsert_items engine "B" (high_item ∷ other_item ∷ []) empty_db).0

first_run :
    (send_urgent_alerts plain_ops slack open_channels engine true now archive true "C" archive 0).1
    ≡ "runc" ∷ []
unfolding program
first_run = refl

abbrev once_alerted : Db
once_alerted = (run plain_ops slack open_channels engine now archive "C" archive 0 true true).0.0

is_marked-send_urgent_alerts_example : is_marked once_alerted "runc" ≡ (
    is_marked archive "runc"
    || true
      && true
      && delivered plain_ops slack open_channels engine now "runc"
          (unalerted_rows max_alerts_per_run archive)
          0)
is_marked-send_urgent_alerts_example =
    is_marked-send_urgent_alerts plain_ops slack open_channels engine now archive "C" archive 0 true
      true "runc"

send_urgent_alerts-once_example :
    member "runc"
      (send_urgent_alerts plain_ops slack open_channels engine true now once_alerted true "D"
        once_alerted 1).1
    ≡ false
unfolding program
send_urgent_alerts-once_example =
    send_urgent_alerts-once plain_ops slack open_channels engine archive archive "C" now 0
      once_alerted once_alerted now true "D" 1 (λ k h. h) "runc" refl
