-- ===== src/Fetcher/Gather/Retry.antt =====
-- How often a source is asked.
use sredevopsorg_sec_feed.Prelude.{◌∙◌, ap, ℕ, ◌≡◌, Bool, true, false, arith, if◌then◌else◌}
use sredevopsorg_sec_feed.Sources.{Source}
use sredevopsorg_sec_feed.Fetcher.Gather.{
  Error, info, FetchResult, fetched, skipped, raised, fetch_source,
}

-- The connection itself failed.
abbrev pub is_transport_failure : FetchResult → Bool
is_transport_failure (fetched items) = false
is_transport_failure skipped = false
is_transport_failure (raised e) = (info e).is_transport

module _ {W : Type 0} (once : Source → W → W × FetchResult) (pause : ℕ → W → W) where
  -- A source is asked once; only if the connection failed is it asked a second and last time, after
  -- one pause, and then the second answer counts, whatever it is.
  pub fetch_source_lem :
      (source : Source) (w : W)
      → fetch_source once pause source w ≡ (
          if is_transport_failure (once source w).1
          then once source (pause 1 (once source w).0)
          else once source w)
  unfolding fetch_source
  fetch_source_lem source w = ground arith

  -- The second attempt, after a first that failed to connect.
  pub fetch_source_again :
      (source : Source) (w w' : W) (e : Error) {result : W × FetchResult}
      → once source w ≡ (w', raised e)
      → (info e).is_transport ≡ true
      → once source (pause 1 w') ≡ result
      → fetch_source once pause source w ≡ result
  fetch_source_again source w w' e first transport again =
      fetch_source_lem source w ∙ rw (ap (λ p. p.1) first, ap (λ p. p.0) first, transport) again
