-- ===== src/Alerts/Delivery.antt =====
-- Which items a run of the alerts marks as alerted.
use sredevopsorg_sec_feed.Prelude.{
  ap, ◌≤◌, String, ◌≡◌, refl, sym, ◌∙◌, inl, inr, Bool, true, false, ◌&&◌, ◌||◌, not, List, [], ◌∷◌,
  ◌++◌, map, any, length, member, All, All-map, arith, eq_iff, ◌==◌, Bool-cases, if◌then◌else◌,
}
use sredevopsorg_sec_feed.Prelude.Texts.{is_blank}
use sredevopsorg_sec_feed.Runtime.{TextOps}
use sredevopsorg_sec_feed.Models.{DateTime, ItemDict, item_to_dict}
use sredevopsorg_sec_feed.Store.{Row, Db, Engine}
use sredevopsorg_sec_feed.Store.Tables.{is_marked, unalerted_rows, mark_alerted}
use sredevopsorg_sec_feed.Store.Sqlite.{row_to_item, unalerted_urgent_items}
use sredevopsorg_sec_feed.Store.Alerted.{is_marked-mark_alerted, unalerted_rows_lem}
use sredevopsorg_sec_feed.Alerts.{
  max_alerts_per_run, shown, AlertSettings, Channels, deliver, via_discord, via_slack, via_email,
  discord_payload, format_item, alert_subject, send_items, is_nil, send_urgent_alerts,
}

-- A post, if its channel is configured.
abbrev pub posts_if {ℓ} : {A : Type ℓ} → Bool → A → List A
posts_if configured post = if configured then post ∷ [] else []

-- The posts one after another, up to the first that fails; `true` if none does.
abbrev pub post_all {ℓ} : {N : Type ℓ} → List (N → N × Bool) → N → N × Bool
post_all [] n = (n, true)
post_all (post ∷ rest) n =
    let (n', took) = post n in let others = post_all rest n' in if took then others else (n', false)

-- The id is that of a row.
abbrev pub has_id : String → List Row → Bool
has_id k rows = any (λ (r : Row). r.id == k) rows

has_id-All :
    (k : String) (test : String → Bool) (rows : List Row)
    → All (λ r. test r.id ≡ false) rows
    → has_id k rows ≡ true
    → test k ≡ false
has_id-All k test [] h e = cc
has_id-All k test (r ∷ rows) h e = elim (Bool-cases (r.id == k)) [
  | inl same ↦ rw (← (eq_iff r.id k).0 same) h.0
  | inr other ↦ has_id-All k test rows h.1 (ground arith)
]

marked_after :
    (k marked_at : String) (alerted : List String) (db : Db)
    → is_marked (if not (is_nil alerted) then mark_alerted marked_at alerted db else db) k
      ≡ (is_marked db k || member k alerted)
marked_after k marked_at [] db = ground arith
marked_after k marked_at (j ∷ alerted) db = is_marked-mark_alerted marked_at k (j ∷ alerted) db

module _ {N : Type 0} (ops : TextOps) (settings : AlertSettings) (channels : Channels N)
    (engine : Engine) (now : DateTime) where
  -- The posts for an item, one for each channel that is configured: a webhook that is set, and
  -- the mail if a recipient and a host are set.
  abbrev pub posts : ItemDict → List (N → N × Bool)
  posts item =
      posts_if (not (is_blank settings.discord_webhook_url))
        (channels.send_discord settings.discord_webhook_url (discord_payload ops item))
      ++ posts_if (not (is_blank settings.slack_webhook_url))
          (channels.send_slack settings.slack_webhook_url (format_item ops item))
      ++ posts_if (not (is_blank settings.alert_email_to) && not (is_blank settings.smtp_host)) (
          channels.send_email settings.alert_email_to (alert_subject ops item)
            (format_item ops item))

  deliver-post_all :
      (item : ItemDict) (n : N) → deliver ops settings channels item n ≡ post_all (posts item) n
  unfolding deliver via_discord via_slack via_email
  deliver-post_all item n = ground arith

  row_to_item-id : (r : Row) → shown (row_to_item engine now r).id ≡ r.id
  unfolding row_to_item item_to_dict
  row_to_item-id r = refl

  -- The rows are tried one after another: the outcome for the row with an id, if every post for
  -- it went through.
  unfoldable pub delivered : String → List Row → N → Bool
  delivered k [] n = false
  delivered k (r ∷ rows) n =
      let (n', took) = post_all (posts (row_to_item engine now r)) n in
      took && r.id == k || delivered k rows n'

  member-send_items :
      (k : String) (rows : List Row) (n : N)
      → member k (send_items ops settings channels (map (row_to_item engine now) rows) n).1
        ≡ delivered k rows n
  unfolding send_items delivered
  member-send_items k [] n = refl
  member-send_items k (r ∷ rows) n =
      let item = row_to_item engine now r in
      let sent = post_all (posts item) n in
      let rest = member-send_items k rows sent.0 in
      elim (Bool-cases sent.1) [
        | inl took ↦ rw (deliver-post_all item n, took, row_to_item-id r, rest)
        | inr failed ↦ rw (deliver-post_all item n, failed) rest
      ]

  delivered-has_id :
      (k : String) (rows : List Row) (n : N) → delivered k rows n ≡ true → has_id k rows ≡ true
  unfolding delivered
  delivered-has_id k [] n h = h
  delivered-has_id k (r ∷ rows) n h =
      ground (arith, delivered-has_id k rows (post_all (posts (row_to_item engine now r)) n).0)

  length-send_items :
      (rows : List Row) (n : N)
      → length (send_items ops settings channels (map (row_to_item engine now) rows) n).1
        ≤ length rows
  unfolding send_items
  length-send_items [] n = omega arith
  length-send_items (r ∷ rows) n =
      ground (
        arith,
        length-send_items rows (deliver ops settings channels (row_to_item engine now r) n).0,
      )

  module _ (found : Db) (marked_at : String) (db : Db) (n : N) where
    abbrev pub run : Bool → Bool → (Db × N) × List String
    run read_ok mark_ok =
        send_urgent_alerts ops settings channels engine read_ok now found mark_ok marked_at db n

    -- After a run an item is marked exactly if it was before, or it was among the rows that were
    -- read and the posts for it, to each channel that is configured, went through one after
    -- another; if the rows cannot be read or the marks cannot be written, no mark changes.
    pub is_marked-send_urgent_alerts :
        (read_ok mark_ok : Bool) (k : String)
        → is_marked (run read_ok mark_ok).0.0 k ≡ (
            is_marked db k
            || read_ok && mark_ok && delivered k (unalerted_rows max_alerts_per_run found) n)
    unfolding send_urgent_alerts unalerted_urgent_items
    is_marked-send_urgent_alerts false mark_ok k = ground arith
    is_marked-send_urgent_alerts true false k = ground arith
    is_marked-send_urgent_alerts true true k =
        let rows = unalerted_rows max_alerts_per_run found in
        let alerted = (send_items ops settings channels (map (row_to_item engine now) rows) n).1 in
        ground (arith, marked_after k marked_at alerted db, member-send_items k rows n)

    -- The items that a run alerts are at most ten, and each is the item of a row that was read and
    -- was not marked.
    pub send_urgent_alerts_lem :
        (mark_ok : Bool) (k : String)
        → member k (run true mark_ok).1 ≡ true
        → (length (run true mark_ok).1 ≤ max_alerts_per_run)
          × (has_id k (unalerted_rows max_alerts_per_run found) ≡ true)
          × (is_marked found k ≡ false)
    unfolding send_urgent_alerts unalerted_urgent_items
    send_urgent_alerts_lem mark_ok k h =
        let rows = unalerted_rows max_alerts_per_run found in
        let alerted = (send_items ops settings channels (map (row_to_item engine now) rows) n).1 in
        let (few, each) = unalerted_rows_lem max_alerts_per_run found in
        let same : (run true mark_ok).1 ≡ alerted = ground arith in
        let sent : member k alerted ≡ true = ap (member k) (sym same) ∙ h in
        let has = delivered-has_id k rows n (sym (member-send_items k rows n) ∙ sent) in
        (
          rw same (omega (arith, few, length-send_items rows n)),
          has,
          has_id-All k (λ j. is_marked found j) rows
              (All-map _ (λ (r : Row). is_marked found r.id ≡ false) (λ r h. h.1) rows each) has,
        )

    alerted-delivered :
        (mark_ok : Bool) (k : String)
        → member k (run true mark_ok).1 ≡ delivered k (unalerted_rows max_alerts_per_run found) n
    unfolding send_urgent_alerts unalerted_urgent_items
    alerted-delivered mark_ok k =
        ground (arith, member-send_items k (unalerted_rows max_alerts_per_run found) n)

module _ {N : Type 0} (ops : TextOps) (settings : AlertSettings) (channels : Channels N)
    (engine : Engine) (found db : Db) (marked_at : String) (now : DateTime) (n : N) where
  -- Once a run has written its marks, no later run that reads an archive with these marks alerts
  -- any of its items again, whatever else is in that archive.
  pub send_urgent_alerts-once :
      (found' db' : Db) (now' : DateTime) (mark_ok' : Bool) (marked_at' : String) (n' : N)
      → let first =
          send_urgent_alerts ops settings channels engine true now found true marked_at db n in
        ((k : String) → is_marked first.0.0 k ≡ true → is_marked found' k ≡ true)
        → (k : String) → member k first.1 ≡ true
        → member k
            (send_urgent_alerts ops settings channels engine true now' found' mark_ok' marked_at'
              db' n').1
          ≡ false
  send_urgent_alerts-once found' db' now' mark_ok' marked_at' n' keeps k h =
      let first =
        send_urgent_alerts ops settings channels engine true now found true marked_at db n in
      let second =
        send_urgent_alerts ops settings channels engine true now' found' mark_ok' marked_at' db'
          n' in
      let went : delivered ops settings channels engine now k
            (unalerted_rows max_alerts_per_run found) n
          ≡ true =
        sym (alerted-delivered ops settings channels engine now found marked_at db n true k) ∙ h in
      let marked : is_marked first.0.0 k ≡ true = ground (
        arith,
        is_marked-send_urgent_alerts ops settings channels engine now found marked_at db n true true
            k,
        went,
      ) in
      elim (Bool-cases (member k second.1)) [
        | inl again ↦
            let free =
              send_urgent_alerts_lem ops settings channels engine now' found' marked_at' db' n'
                mark_ok' k again in
            absurd (ground (arith, free.2, keeps k marked))
        | inr not_again ↦ not_again
      ]
