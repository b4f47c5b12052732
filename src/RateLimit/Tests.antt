-- ===== src/RateLimit/Tests.antt =====
-- Runs of the limiter on a few requests, and the theorems on them.
use sredevopsorg_sec_feed.Prelude.{ℕ, ◌≤◌, String, ◌≡◌, refl, true, List, [], ◌∷◌, arith}
use sredevopsorg_sec_feed.Prelude.Int.{pos, negsuc}
use sredevopsorg_sec_feed.RateLimit.{init, enabled, drop_old, is_stale, prune, admit, check}
use sredevopsorg_sec_feed.RateLimit.Tracks.{times, recent}
use sredevopsorg_sec_feed.RateLimit.Trace.{
  granted, window_granted, granted-window_granted, granted_bound,
}

-- The third hit of "a" is refused, and the fourth comes after the first has aged out.
abbrev trace : List (String × ℕ)
trace = ("a", 5) ∷ ("a", 6) ∷ ("b", 7) ∷ ("a", 8) ∷ ("a", 65) ∷ []

program : Unit {0}
unfolding init enabled drop_old is_stale prune admit check granted times recent
program = tt

granted_run : granted (init (pos 2) 60) [] trace ≡ ("a", 5) ∷ ("a", 6) ∷ ("b", 7) ∷ ("a", 65) ∷ []
unfolding program
granted_run = refl

check_off : (check (init (negsuc 0) 60) "a" 3).1 ≡ true
unfolding program
check_off = refl

granted-window_granted_example :
    granted (init (pos 2) 60) [] trace ≡ window_granted (pos 2) 60 [] trace
granted-window_granted_example = granted-window_granted 1 60 trace 65 (omega arith)

granted_bound_example : recent 60 65 "a" (granted (init (pos 2) 60) [] trace) ≤ 2
granted_bound_example = granted_bound 1 60 trace 65 "a" (omega arith)
