-- ===== src/Pipeline/Steps.antt =====
-- What a refresh leaves behind, whatever fails in it.
use sredevopsorg_sec_feed.Prelude.{
  ℕ, String, ◌≡◌, refl, ap, ◌∙◌, Bool, true, List, [], ◌∷◌, length, arith,
}
use sredevopsorg_sec_feed.Prelude.Dict.{Dict, insert}
use sredevopsorg_sec_feed.Runtime.{TextOps}
use sredevopsorg_sec_feed.Models.{DateTime, FeedItem}
use sredevopsorg_sec_feed.Events.{publish}
use sredevopsorg_sec_feed.Store.{Engine}
use sredevopsorg_sec_feed.Alerts.{AlertSettings, Channels}
use sredevopsorg_sec_feed.Pipeline.{
  FeedCache, FeedUpdated, App, Outside, Settings, outcome, record_step, persist, prune_step,
  index_step, publish_step, alert_step, downstream,
}

five_steps :
    (old : Dict String) (b1 b2 b3 b4 b5 answers : Bool)
    → old ≡ []
    → b1 ≡ answers
    → b4 ≡ true
    → b5 ≡ true
    → insert "alert" (outcome b5) (
        insert "publish" (outcome b4) (
          insert "index"
            (outcome b3)
            (insert "prune" (outcome b2) (insert "persist" (outcome b1) old))))
      ≡ ("persist", outcome answers)
        ∷ ("prune", outcome b2)
        ∷ ("index", outcome b3)
        ∷ ("publish", "ok")
        ∷ ("alert", "ok")
        ∷ []
unfolding insert
five_steps old b1 b2 b3 b4 b5 answers empty e1 e4 e5 = rw (empty, e1, e4, e5)

module _ {N : Type 0} where
  record_step-cache :
      (step : String) (x : App N × Bool) (c : FeedCache)
      → x.0.cache ≡ c
      → (record_step step x).cache ≡ record c { steps = insert step (outcome x.1) c.steps }
  unfolding record_step
  record_step-cache step x c e =
      ap (λ (c : FeedCache). record c { steps = insert step (outcome x.1) c.steps }) e

  record_step-broker : (step : String) (x : App N × Bool) → (record_step step x).broker ≡ x.0.broker
  unfolding record_step
  record_step-broker step x = refl

module _ {N : Type 0} (engine : Engine) (outside : Outside N) where
  persist_keeps :
      (items : List FeedItem) (a : App N)
      → ((persist engine outside items a).0.cache ≡ a.cache)
        × ((persist engine outside items a).0.broker ≡ a.broker)
        × ((persist engine outside items a).1 ≡ outside.db_ok a.net)
  unfolding persist
  persist_keeps items a = ground arith

  prune_keeps :
      (settings : Settings) (a : App N)
      → ((prune_step engine outside settings a).0.cache ≡ a.cache)
        × ((prune_step engine outside settings a).0.broker ≡ a.broker)
  unfolding prune_step
  prune_keeps settings a = ground arith

  index_keeps :
      (items : List FeedItem) (a : App N)
      → ((index_step engine outside items a).0.cache ≡ a.cache)
        × ((index_step engine outside items a).0.broker ≡ a.broker)
  unfolding index_step
  index_keeps items a = (refl, refl)

  alert_keeps :
      (ops : TextOps) (alerts : AlertSettings) (channels : Channels N) (a : App N)
      → ((alert_step engine outside ops alerts channels a).0.cache ≡ a.cache)
        × ((alert_step engine outside ops alerts channels a).0.broker ≡ a.broker)
        × ((alert_step engine outside ops alerts channels a).1 ≡ true)
  unfolding alert_step
  alert_keeps ops alerts channels a = (refl, refl, refl)

  publish_keeps :
      (generated_at : DateTime) (count : ℕ) (a : App N)
      → ((publish_step engine outside generated_at count a).0.cache ≡ a.cache)
        × ((publish_step engine outside generated_at count a).0.broker
            ≡ publish a.broker
                (record { generated_at = engine.iso.isoformat generated_at; count = count }))
        × ((publish_step engine outside generated_at count a).1 ≡ true)
  unfolding publish_step
  publish_keeps generated_at count a = (refl, refl, refl)

  module _ (ops : TextOps) (alerts : AlertSettings) (channels : Channels N) (settings : Settings)
      (items : List FeedItem) (generated_at : DateTime) (a : App N) where
    abbrev after : App N
    after = downstream engine outside ops alerts channels settings items generated_at a

    -- Whatever fails, the five steps have run in their order and each has its outcome in the cache,
    -- that of the first says whether the database answered, and those of the last two are "ok"; the
    -- rest of the cache is kept; and one event, with the number of items, is published.
    pub downstream_lem :
        a.cache.steps ≡ []
        → (pruned : Bool) × (indexed : Bool) × ((downstream engine outside ops alerts channels
              settings items generated_at a).cache
            ≡ record (a.cache) {
              steps =
                  ("persist", outcome (outside.db_ok a.net))
                  ∷ ("prune", outcome pruned)
                  ∷ ("index", outcome indexed)
                  ∷ ("publish", "ok")
                  ∷ ("alert", "ok")
                  ∷ [];
            })
          × ((downstream engine outside ops alerts channels settings items generated_at a).broker
              ≡ publish a.broker (record {
                generated_at = engine.iso.isoformat generated_at;
                count = length items;
              }))
    unfolding downstream
    downstream_lem fresh =
        let s1 = persist engine outside items a in
        let a1 = record_step "persist" s1 in
        let s2 = prune_step engine outside settings a1 in
        let a2 = record_step "prune" s2 in
        let s3 = index_step engine outside items a2 in
        let a3 = record_step "index" s3 in
        let s4 = publish_step engine outside generated_at (length items) a3 in
        let a4 = record_step "publish" s4 in
        let s5 = alert_step engine outside ops alerts channels a4 in
        let k1 = persist_keeps items a in
        let k2 = prune_keeps settings a1 in
        let k3 = index_keeps items a2 in
        let k4 = publish_keeps generated_at (length items) a3 in
        let k5 = alert_keeps ops alerts channels a4 in
        let c1 = record_step-cache "persist" s1 a.cache k1.0 in
        let c2 = record_step-cache "prune" s2 _ (k2.0 ∙ c1) in
        let c3 = record_step-cache "index" s3 _ (k3.0 ∙ c2) in
        let c4 = record_step-cache "publish" s4 _ (k4.0 ∙ c3) in
        let c5 = record_step-cache "alert" s5 _ (k5.0 ∙ c4) in
        let published : FeedUpdated = record {
          generated_at = engine.iso.isoformat generated_at;
          count = length items;
        } in
        (
          s2.1,
          s3.1,
          c5
              ∙ ap (λ (steps : Dict String). record (a.cache) { steps = steps })
                  (five_steps a.cache.steps s1.1 s2.1 s3.1 s4.1 s5.1 (outside.db_ok a.net) fresh
                    k1.2 k4.2 k5.2),
          record_step-broker "alert" s5
              ∙ k5.1
              ∙ record_step-broker "publish" s4
              ∙ k4.1
              ∙ ap (λ b. publish b published)
                  (record_step-broker "index" s3
                    ∙ k3.1
                    ∙ record_step-broker "prune" s2
                    ∙ k2.1
                    ∙ record_step-broker "persist" s1
                    ∙ k1.1),
        )
