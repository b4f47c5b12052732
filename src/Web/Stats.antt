-- ===== src/Web/Stats.antt =====
-- The cached statistics: `api_stats` (app/main.py). The clock is `time.monotonic`, in milliseconds.
use sredevopsorg_sec_feed.Prelude.{
  ℕ, ◌+◌, ◌*◌, ◌≤◌, ◌≡◌, refl, true, false, Option, none, some, List, [], ◌∷◌, arith, ltb,
  if◌then◌else◌, Bool-cases, Option-cases, Spaced, inl, inr,
}

abbrev pub stats_cache_ttl : ℕ
stats_cache_ttl = 30 * 1000

-- One request: the clock at its start, what `store.stats` would give (`none` is an exception),
-- and the clock after that.
pub record StatsCall (D : Type 0) : Type 0 where
  pub now : ℕ
  pub stats : Option D
  pub after : ℕ

pub data StatsAnswer (D : Type 0) : Type 0 where
  from_cache : D → StatsAnswer D
  from_store : D → StatsAnswer D
  stats_failed : StatsAnswer D

-- `_STATS_CACHE`
abbrev pub StatsCache : Type 0 → Type 0
StatsCache D = Option (ℕ × D)

module _ {D : Type 0} where
  abbrev ask_store : StatsCall D → StatsCache D → StatsCache D × StatsAnswer D
  ask_store call cache = elim call.stats [
    | none ↦ (cache, stats_failed)
    | some stats ↦ (some (call.after, stats), from_store stats)
  ]

  unfoldable pub api_stats : StatsCall D → StatsCache D → StatsCache D × StatsAnswer D
  api_stats call none = ask_store call none
  api_stats call (some (time, stats)) =
      if ltb call.now (time + stats_cache_ttl)
      then (some (time, stats), from_cache stats)
      else ask_store call (some (time, stats))

  -- When the archive was read, in a run of requests.
  unfoldable pub reads : List (StatsCall D) → StatsCache D → List ℕ
  unfolding api_stats
  reads [] cache = []
  reads (call ∷ calls) cache =
      let later = reads calls (api_stats call cache).0 in
      elim (api_stats call cache).1 [
        | from_cache stats ↦ later
        | from_store stats ↦ call.after ∷ later
        | stats_failed ↦ later
      ]

  abbrev pub cached_at : StatsCache D → Option ℕ
  cached_at none = none
  cached_at (some (time, stats)) = some time

  -- No request takes negative time.
  abbrev pub Forward : List (StatsCall D) → Type 0
  Forward [] = Unit
  Forward (call ∷ calls) = (call.now ≤ call.after) × Forward calls

module _ {D : Type 0} where
  kept :
      (call : StatsCall D) (time : ℕ) (stats : D)
      → ltb call.now (time + stats_cache_ttl) ≡ true
      → api_stats call (some (time, stats)) ≡ (some (time, stats), from_cache stats)
  unfolding api_stats
  kept call time stats e = rw e refl

  asked :
      (call : StatsCall D) (time : ℕ) (stats : D)
      → ltb call.now (time + stats_cache_ttl) ≡ false
      → api_stats call (some (time, stats)) ≡ ask_store call (some (time, stats))
  unfolding api_stats
  asked call time stats e = rw e refl

  -- However often the statistics are asked for, two reads of the archive are at least 30 seconds
  -- apart, if no request takes negative time.
  pub reads-Spaced :
      (calls : List (StatsCall D)) (cache : StatsCache D)
      → Forward calls
      → Spaced stats_cache_ttl (cached_at cache) (reads calls cache)
  unfolding reads
  reads-Spaced [] none h = tt
  reads-Spaced [] (some (time, stats)) h = tt
  reads-Spaced (call ∷ calls) none h = elim (Option-cases call.stats) [
    | inl e ↦ rw (api_stats, e) (reads-Spaced calls none h.1)
    | inr (stats, e) ↦ rw (api_stats, e) (reads-Spaced calls (some (call.after, stats)) h.1)
  ]
  reads-Spaced (call ∷ calls) (some (time, stats)) h =
      elim (Bool-cases (ltb call.now (time + stats_cache_ttl))) [
        | inl fresh ↦
            rw (reads, kept call time stats fresh, kept call time stats fresh)
              (reads-Spaced calls (some (time, stats)) h.1)
        | inr old ↦ elim (Option-cases call.stats) [
          | inl e ↦
              rw (reads, asked call time stats old, e, asked call time stats old, e)
                (reads-Spaced calls (some (time, stats)) h.1)
          | inr (new, e) ↦
              rw (reads, asked call time stats old, e, asked call time stats old, e)
                (ground arith, reads-Spaced calls (some (call.after, new)) h.1)
        ]
      ]
