-- ===== src/Fetcher/Ghsa/Conditional.antt =====
-- What a GitHub advisory query returns, and what it returns when it is not modified.
use sredevopsorg_sec_feed.Prelude.{String, ◌≡◌, refl, Option, List, take, All-map}
use sredevopsorg_sec_feed.Prelude.Sets.{Uniq}
use sredevopsorg_sec_feed.Prelude.Sort.{sort}
use sredevopsorg_sec_feed.Prelude.Results.{ok}
use sredevopsorg_sec_feed.Runtime.{TextOps}
use sredevopsorg_sec_feed.Models.{FeedItem}
use sredevopsorg_sec_feed.Sources.{Source}
use sredevopsorg_sec_feed.Store.{Engine}
use sredevopsorg_sec_feed.Fetcher.Gather.{fetched}
use sredevopsorg_sec_feed.Fetcher.Fetching.{World, Senses}
use sredevopsorg_sec_feed.Fetcher.Rss.{Response}
use sredevopsorg_sec_feed.Fetcher.Newest.{RestClient, read_json, newest, newer_first}
use sredevopsorg_sec_feed.Fetcher.Ghsa.{GhsaRow, GhsaBody, rows, ghsa_items, ghsa_save, ghsa_body}
use sredevopsorg_sec_feed.Fetcher.Ghsa.Items.{
  IsAdvisory, ghsa_items-IsAdvisory, has_mixed_dates_of_aware,
}

module _ {N B : Type 0} (ops : TextOps) (hash : String → String) (engine : Engine)
    (senses : Senses N) (client : RestClient N B GhsaBody) (github_token : Option String)
    (source : Source) (u : Uniq source.tags) where
  -- The items of an answer, sorted and cut.
  abbrev pub kept_of : List GhsaRow → List FeedItem
  kept_of advisories =
      take source.max_items (sort newer_first (ghsa_items ops hash engine.iso source advisories))

  ghsa_newest :
      (advisories : List GhsaRow)
      → newest source.max_items (ghsa_items ops hash engine.iso source advisories)
        ≡ ok (kept_of advisories)
  unfolding newest
  ghsa_newest advisories =
      let items = ghsa_items ops hash engine.iso source advisories in
      rw
        (has_mixed_dates_of_aware items (
          All-map (IsAdvisory source) _ (λ item h. h.is_aware) items
            (ghsa_items-IsAdvisory ops hash engine.iso source u advisories)))
        refl

  -- What one answer with a list of advisories comes to.
  pub ghsa_body_lem :
      (resp : Response B) (advisories : List GhsaRow) (w : World N)
      → read_json client resp ≡ ok (rows advisories)
      → ghsa_body ops hash engine senses client github_token source resp w ≡ (
        ghsa_save ops hash engine senses client github_token source resp (kept_of advisories) w,
        fetched (kept_of advisories),
      )
  unfolding ghsa_body
  ghsa_body_lem resp advisories w e = rw (e, ghsa_newest advisories, ghsa_body) refl
