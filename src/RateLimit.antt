-- ===== src/RateLimit.antt =====
-- The in-process request limiter (app/ratelimit.py), one function for each method.
-- A timestamp is a number of clock ticks, and `window_seconds` is given in the same unit. The
-- comparison `t <= timestamp - window` is written `t + window <= timestamp`, which is the same
-- over the reals and does not stop at zero.
pub mod Window
pub mod Tracks
pub mod Trace
mod Tests
use sredevopsorg_sec_feed.Prelude.{
  ℕ, ◌+◌, String, Bool, true, false, ◌||◌, not, Option, none, some, List, [], ◌∷◌, ◌++◌, length,
  select, ltb, leb, if◌then◌else◌,
}
use sredevopsorg_sec_feed.Prelude.Int.{ℤ, pos, ltb_ℤ, leb_ℤ}
use sredevopsorg_sec_feed.Prelude.Dict.{Dict, lookup, insert}

abbrev pub prune_threshold : ℕ
prune_threshold = 4096

-- `_hits` maps a key to its hits, oldest first.
pub record RateLimiter : Type 0 where
  pub max_requests : ℤ
  pub window_seconds : ℕ
  pub hits : Dict (List ℕ)

unfoldable pub init : ℤ → ℕ → RateLimiter
init max_requests window_seconds = record {
  max_requests = max_requests;
  window_seconds = window_seconds;
  hits = [];
}

unfoldable pub enabled : RateLimiter → Bool
enabled l = ltb_ℤ (pos 0) l.max_requests

-- A hit at `t` has aged out of the window that ends at `timestamp`.
abbrev pub is_old : ℕ → ℕ → ℕ → Bool
is_old window timestamp t = leb (t + window) timestamp

-- `while hits and hits[0] <= cutoff: hits.popleft()`
unfoldable pub drop_old : ℕ → ℕ → List ℕ → List ℕ
drop_old window timestamp [] = []
drop_old window timestamp (t ∷ ts) =
    let rest = drop_old window timestamp ts in if is_old window timestamp t then rest else t ∷ ts

-- `not hits or hits[-1] <= cutoff`
unfoldable pub is_stale : ℕ → ℕ → List ℕ → Bool
is_stale window timestamp [] = true
is_stale window timestamp (t ∷ []) = is_old window timestamp t
is_stale window timestamp (t ∷ t' ∷ ts) = is_stale window timestamp (t' ∷ ts)

unfoldable pub prune : RateLimiter → ℕ → RateLimiter
unfolding is_stale
prune l timestamp = record l {
  hits = select (λ e. not (is_stale l.window_seconds timestamp e.1)) l.hits;
}

abbrev pub queue_of : Option (List ℕ) → List ℕ
queue_of none = []
queue_of (some q) = q

-- The branch under the lock, once the map is small enough: the key's deque is created if it is
-- missing, and the deque is changed in place.
unfoldable pub admit : RateLimiter → String → ℕ → RateLimiter × Bool
unfolding drop_old lookup insert
admit l key timestamp =
    let q = drop_old l.window_seconds timestamp (queue_of (lookup key l.hits)) in
    if leb_ℤ l.max_requests (pos (length q))
    then (record l { hits = insert key q l.hits }, false)
    else (record l { hits = insert key (q ++ timestamp ∷ []) l.hits }, true)

unfoldable pub check : RateLimiter → String → ℕ → RateLimiter × Bool
unfolding enabled prune admit
check l key timestamp =
    if enabled l
    then admit (if ltb prune_threshold (length l.hits) then prune l timestamp else l) key timestamp
    else (l, true)
