-- ===== src/Alerts.antt =====
-- Alerts for urgent items (app/alerts.py). The channels are the parameter `Channels`: each post
-- changes the outside world `N` and either succeeds or raises. The archive is the store's state.
pub mod Delivery
mod Tests
use sredevopsorg_sec_feed.Prelude.{
  ℕ, String, ◌<>◌, Bool, true, false, ◌&&◌, ◌||◌, not, Option, none, some, List, [], ◌∷◌, map,
  if◌then◌else◌,
}
use sredevopsorg_sec_feed.Prelude.Dict.{Dict, lookup}
use sredevopsorg_sec_feed.Prelude.Texts.{text_take, is_blank, text_or, join}
use sredevopsorg_sec_feed.Runtime.{TextOps}
use sredevopsorg_sec_feed.Models.{DateTime, ItemDict, get_or, list_or_nil}
use sredevopsorg_sec_feed.Store.{Db, Engine}
use sredevopsorg_sec_feed.Store.Tables.{mark_alerted}
use sredevopsorg_sec_feed.Store.Sqlite.{unalerted_urgent_items}

abbrev pub max_alerts_per_run : ℕ
max_alerts_per_run = 10

-- `str(value)` in an f-string; a missing value is `None`.
abbrev pub shown : Option String → String
shown none = "None"
shown (some s) = s

-- `item.get(key, default)`
abbrev pub given : Option String → String → String
given none d = d
given (some s) d = s

abbrev pub severity_colors : Dict ℕ
severity_colors =
    ("critical", 15_022_389)
    ∷ ("high", 16_485_376)
    ∷ ("medium", 16_635_957)
    ∷ ("low", 2_001_125)
    ∷ ("unknown", 10_395_294)
    ∷ []

-- The one embed of a Discord message, without the texts that are the same in every message.
pub record DiscordPayload : Type 0 where
  pub title : String
  pub description : String
  pub url : Option String
  pub color : ℕ
  pub source_value : String
  pub cves_value : String

module _ (ops : TextOps) where
  unfoldable pub format_item : ItemDict → String
  format_item item =
      let tags = join " " (map (λ t. "`" <> t <> "`") (list_or_nil item.tags)) in
      let cves = join " " (list_or_nil item.cves) in
      let severity = ops.upper (given item.severity "unknown") in
      "*["
      <> severity
      <> "] "
      <> shown item.title
      <> "*\n"
      <> text_take 300 (given item.summary "")
      <> "\n"
      <> "Source: "
      <> shown item.source
      <> " | "
      <> shown item.time_ago
      <> "\n"
      <> "Tags: "
      <> tags
      <> " | CVEs: "
      <> cves
      <> "\n"
      <> "<"
      <> shown item.url
      <> ">"

  unfoldable pub discord_payload : ItemDict → DiscordPayload
  unfolding lookup
  discord_payload item =
      let severity = ops.lower (text_or (given item.severity "") "unknown") in
      let cves = text_or (join ", " (list_or_nil item.cves)) "—" in
      record {
        title = text_take 256 ("[" <> ops.upper severity <> "] " <> given item.title "");
        description = text_or (text_take 1800 (given item.summary "")) "—";
        url = item.url;
        color = get_or (lookup severity severity_colors) 10_395_294;
        source_value = shown item.source <> " · " <> shown item.time_ago;
        cves_value = text_take 1024 cves;
      }

  unfoldable pub alert_subject : ItemDict → String
  alert_subject item =
      "[security-feed] "
      <> ops.upper (given item.severity "unknown")
      <> " - "
      <> text_take 80 (given item.title "")

-- The settings that choose the channels.
pub record AlertSettings : Type 0 where
  pub discord_webhook_url : String
  pub slack_webhook_url : String
  pub alert_email_to : String
  pub smtp_host : String

-- `_send_discord`, `_send_slack` and `_send_email` on the world `N`; `false` is an exception.
pub record Channels (N : Type 0) : Type 0 where
  pub send_discord : String → DiscordPayload → N → N × Bool
  pub send_slack : String → String → N → N × Bool
  pub send_email : String → String → String → N → N × Bool

abbrev pub is_nil : List String → Bool
is_nil [] = true
is_nil (k ∷ ks) = false

abbrev pub is_set : String → Bool
is_set value = not (is_blank value)

module _ {N : Type 0} (ops : TextOps) (settings : AlertSettings) (channels : Channels N) where
  -- A channel that is not configured is passed over.
  unfoldable pub via_discord : ItemDict → N → N × Bool
  via_discord item n =
      if is_set settings.discord_webhook_url
      then channels.send_discord settings.discord_webhook_url (discord_payload ops item) n
      else (n, true)

  unfoldable pub via_slack : ItemDict → N → N × Bool
  via_slack item n =
      if is_set settings.slack_webhook_url
      then channels.send_slack settings.slack_webhook_url (format_item ops item) n
      else (n, true)

  unfoldable pub via_email : ItemDict → N → N × Bool
  via_email item n =
      if is_set settings.alert_email_to && is_set settings.smtp_host
      then channels.send_email settings.alert_email_to (alert_subject ops item)
          (format_item ops item) n
      else (n, true)

  -- The body of the `try`: one channel after another, and an exception ends it. With no channel
  -- configured the alert is logged only, which succeeds.
  unfoldable pub deliver : ItemDict → N → N × Bool
  unfolding via_discord via_slack via_email
  deliver item n =
      let (n1, ok1) = via_discord item n in
      let (n2, ok2) = via_slack item n1 in
      let (n3, ok3) = via_email item n2 in
      if not ok1 then (n1, false) else if not ok2 then (n2, false) else (n3, ok3)

  -- The ids that are appended to `alerted`; an item of the store always has one.
  unfoldable pub send_items : List ItemDict → N → N × List String
  send_items [] n = (n, [])
  send_items (item ∷ items) n =
      let (n', ok) = deliver item n in
      let (n'', rest) = send_items items n' in (n'', if ok then shown item.id ∷ rest else rest)

  -- `found` is the archive when the items are read, at `now`; `read_ok` says whether that works.
  -- `db` is the archive when the marks are written, at `marked_at`; `mark_ok` says whether that
  -- works.
  unfoldable pub send_urgent_alerts :
      Engine → Bool → DateTime → Db → Bool → String → Db → N → (Db × N) × List String
  send_urgent_alerts engine read_ok now found mark_ok marked_at db n =
      if read_ok
      then (let (n', alerted) =
            send_items (unalerted_urgent_items engine now max_alerts_per_run found) n in
          if not (is_nil alerted) && mark_ok
          then ((mark_alerted marked_at alerted db, n'), alerted)
          else ((db, n'), alerted))
      else ((db, n), [])
