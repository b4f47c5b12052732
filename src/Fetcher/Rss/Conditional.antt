-- ===== src/Fetcher/Rss/Conditional.antt =====
-- A feed that answers "not modified" gives what it gave before.
use sredevopsorg_sec_feed.Prelude.{String, ◌≡◌, refl, false, some, List, [], ◌∷◌, map, take, All}
use sredevopsorg_sec_feed.Prelude.Sets.{Uniq}
use sredevopsorg_sec_feed.Runtime.{TextOps}
use sredevopsorg_sec_feed.Models.{DateTime, FeedItem, Iso, item_to_dict}
use sredevopsorg_sec_feed.Models.RoundTrip.{IsLawful, normal, item_from_dict-to_dict}
use sredevopsorg_sec_feed.Sources.{Source}
use sredevopsorg_sec_feed.Store.{SourceState, Engine}
use sredevopsorg_sec_feed.Fetcher.Gather.{is_nil}
use sredevopsorg_sec_feed.Fetcher.Fetching.{Senses, items_from_dicts, stored_items}
use sredevopsorg_sec_feed.Fetcher.Rss.{Response, Http, rss_items}

-- The payload of some items gives their normal forms.
items_from_dicts-to_dicts :
    (iso : Iso) (law : IsLawful iso) (now : DateTime) (items : List FeedItem)
    → All (λ item. Uniq item.tags) items
    → items_from_dicts iso (map (λ item. item_to_dict iso item now) items) ≡ some (map normal items)
unfolding items_from_dicts
items_from_dicts-to_dicts iso law now [] h = refl
items_from_dicts-to_dicts iso law now (item ∷ items) h =
    rw
      (item_from_dict-to_dict iso law item now h.0, items_from_dicts-to_dicts iso law now items h.1)

pub stored_items-to_dicts :
    (iso : Iso) (law : IsLawful iso) (now : DateTime) (state : SourceState) (items : List FeedItem)
    → All (λ item. Uniq item.tags) items
    → is_nil items ≡ false
    → state.last_payload ≡ some (map (λ item. item_to_dict iso item now) items)
    → stored_items iso (some state) ≡ some (map normal items)
unfolding stored_items
stored_items-to_dicts iso law now state [] h filled e = cc
stored_items-to_dicts iso law now state (item ∷ items) h filled e =
    rw e (items_from_dicts-to_dicts iso law now (item ∷ items) h)

module _ {N B : Type 0} (ops : TextOps) (hash : String → String) (engine : Engine)
    (law : IsLawful engine.iso) (senses : Senses N) (http : Http N B) where
  -- The items that the fetcher makes of a response.
  abbrev pub items_of : Source → Response B → List FeedItem
  items_of source resp =
      rss_items ops hash http.parse_date source (take source.max_items (http.entries resp.content))
