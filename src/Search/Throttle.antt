-- ===== src/Search/Throttle.antt =====
-- How often the whole archive is indexed.
use sredevopsorg_sec_feed.Prelude.{
  ℕ, ◌+◌, ◌≤◌, ◌≡◌, refl, inl, inr, ◌⊎◌, true, false, Option, none, some, List, [], ◌∷◌, arith, ltb,
  if◌then◌else◌, Option-cases, Spaced,
}
use sredevopsorg_sec_feed.Models.{ItemDict}
use sredevopsorg_sec_feed.Search.{
  OpenSearch, SearchState, sync_interval, sync_archive, maybe_sync_archive,
}

-- An attempt to sync that is not forced: its time, and what the archive gives.
pub record Attempt : Type 0 where
  pub time : ℕ
  pub archive : Option (List ItemDict)

module _ {N : Type 0} (server : OpenSearch N) where
  abbrev pub attempt : Attempt → SearchState N → SearchState N × ℕ
  attempt a s = maybe_sync_archive server false a.time a.archive s

  -- When something was indexed, in a run of attempts.
  unfoldable pub synced_at : List Attempt → SearchState N → List ℕ
  synced_at [] s = []
  synced_at (a ∷ attempts) s =
      let later = synced_at attempts (attempt a s).0 in
      if ltb 0 (attempt a s).1 then a.time ∷ later else later

  sync_archive_keeps :
      (archive : Option (List ItemDict)) (s : SearchState N)
      → (sync_archive server archive s).0.last_sync_at ≡ s.last_sync_at
  unfolding sync_archive
  sync_archive_keeps none s = refl
  sync_archive_keeps (some items) s = ground arith

  -- The last sync, if there was one, is long ago.
  abbrev Old : Option ℕ → ℕ → Type 0
  Old none time = Unit
  Old (some last) time = last + sync_interval ≤ time

  -- An attempt indexes nothing and leaves the time of the last sync, or it sets it.
  attempt_cases :
      (a : Attempt) (s : SearchState N)
      → ((ltb 0 (attempt a s).1 ≡ false) × ((attempt a s).0.last_sync_at ≡ s.last_sync_at))
        ⊎ ((ltb 0 (attempt a s).1 ≡ true)
            × ((attempt a s).0.last_sync_at ≡ some a.time)
            × Old s.last_sync_at a.time)
  unfolding maybe_sync_archive
  attempt_cases a s = elim (Option-cases s.last_sync_at) [
    | inl e ↦ rw e (ground (arith, sync_archive_keeps a.archive s))
    | inr (last, e) ↦ rw e (ground (arith, sync_archive_keeps a.archive s))
  ]

  Spaced-cons :
      (last : Option ℕ) (t : ℕ) (ts : List ℕ)
      → Old last t
      → Spaced sync_interval (some t) ts
      → Spaced sync_interval last (t ∷ ts)
  Spaced-cons none t ts old h = h
  Spaced-cons (some l) t ts old h = (old, h)

  -- However often a sync that is not forced is attempted, two that index the archive are at least
  -- 30 minutes apart, whatever the server and the archive do.
  pub synced_at-Spaced :
      (attempts : List Attempt) (s : SearchState N)
      → Spaced sync_interval s.last_sync_at (synced_at attempts s)
  unfolding synced_at
  synced_at-Spaced [] s = tt
  synced_at-Spaced (a ∷ attempts) s = elim (attempt_cases a s) [
    | inl (idle, same) ↦
        rw (synced_at, idle) (rw same at (synced_at-Spaced attempts (attempt a s).0))
    | inr (done, set, old) ↦
        let rest = rw set at (synced_at-Spaced attempts (attempt a s).0) in
        rw (synced_at, done)
          (Spaced-cons s.last_sync_at a.time (synced_at attempts (attempt a s).0) old rest)
  ]
