-- ===== src/RateLimit/Trace.antt =====
-- Runs of the limiter: the requests that it lets through, in the order of time.
use sredevopsorg_sec_feed.Prelude.{
  ℕ, ◌+◌, ◌≤◌, suc, String, ◌≡◌, refl, inl, inr, not, List, [], ◌∷◌, ◌++◌, select-append,
  length-select-le, length-append, arith, leb, if◌then◌else◌, ◌==◌, eq_iff, Bool-cases,
}
use mathlib.Core.List.{append-nil}
use sredevopsorg_sec_feed.Prelude.Int.{ℤ, pos}
use sredevopsorg_sec_feed.Prelude.Dict.{lookup}
use sredevopsorg_sec_feed.RateLimit.{RateLimiter, init, check}
use sredevopsorg_sec_feed.RateLimit.Window.{live, live-live}
use sredevopsorg_sec_feed.RateLimit.Tracks.{
  Log, times, recent, window_check, Tracks, times-append, check_lem,
}

-- The requests that a limiter lets through, in order, added to those of before.
unfoldable pub granted : RateLimiter → Log → List (String × ℕ) → Log
granted l log [] = log
granted l log ((k, t) ∷ trace) =
    let (l', ok) = check l k t in granted l' (if ok then log ++ (k, t) ∷ [] else log) trace

-- The same of the sliding window.
unfoldable pub window_granted : ℤ → ℕ → Log → List (String × ℕ) → Log
window_granted limit window log [] = log
window_granted limit window log ((k, t) ∷ trace) =
    window_granted limit window (window_check limit window log k t).0 trace

-- The clock does not run backwards, and `end` is not before the last request.
abbrev pub InOrder : ℕ → List (String × ℕ) → ℕ → Type 0
InOrder now [] end = now ≤ end
InOrder now ((k, t) ∷ trace) end = (now ≤ t) × InOrder t trace end

init-Tracks : (limit : ℤ) (window : ℕ) → Tracks limit window (init limit window) [] 0
unfolding init lookup times
init-Tracks limit window = record {
  limit_eq = refl;
  window_eq = refl;
  distinct = tt;
  same = λ k. refl;
  ordered = λ k. tt;
  past = λ k. tt;
}

module _ (n window : ℕ) where
  window_check-log :
      (log : Log) (k : String) (t : ℕ)
      → (window_check (pos (suc n)) window log k t).0
        ≡ (if (window_check (pos (suc n)) window log k t).1 then log ++ (k, t) ∷ [] else log)
  unfolding window_check
  window_check-log log k t = ground arith

  granted_lem :
      (trace : List (String × ℕ)) {l : RateLimiter} {log : Log} {now : ℕ} (end : ℕ)
      → InOrder now trace end
      → Tracks (pos (suc n)) window l log now
      → granted l log trace ≡ window_granted (pos (suc n)) window log trace
  unfolding granted window_granted
  granted_lem [] end h t = refl
  granted_lem ((k, now') ∷ trace) {l} {log} end h t =
      let (same, t') = check_lem (pos (suc n)) window k now' h.0 t in
      rw (same, ← window_check-log log k now') (granted_lem trace end h.1 t')

  recent-le :
      (now later : ℕ) (k : String) (log : Log)
      → now ≤ later
      → recent window later k log ≤ recent window now k log
  unfolding recent
  recent-le now later k log h =
      rw (← live-live window now later (times k log) h)
        (length-select-le _ (live window now (times k log)))

  recent-append :
      (log : Log) (key : String) (now t : ℕ) (k : String)
      → recent window now k (log ++ (key, t) ∷ [])
        ≤ (if key == k then suc (recent window now k log) else recent window now k log)
  unfolding recent
  recent-append log key now t k = elim (Bool-cases (key == k)) [
    | inl e ↦
        rw (times-append, e, select-append, length-append)
          (ground (arith, length-select-le (λ u. not (leb (u + window) now)) (t ∷ [])))
    | inr e ↦ rw (times-append, e, append-nil) (omega arith)
  ]

  window_check_bound :
      (log : Log) (key : String) (now : ℕ) (k : String)
      → recent window now k log ≤ suc n
      → recent window now k (window_check (pos (suc n)) window log key now).0 ≤ suc n
  unfolding window_check
  window_check_bound log key now k h =
      elim (Bool-cases (leb (suc n + 0) (recent window now key log + 0))) [
        | inl full ↦ rw full (ground arith)
        | inr room ↦ rw room (ground (arith, recent-append log key now now k, eq_iff key k))
      ]

  window_granted_bound :
      (trace : List (String × ℕ)) (log : Log) (now end : ℕ) (k : String)
      → InOrder now trace end
      → recent window now k log ≤ suc n
      → recent window end k (window_granted (pos (suc n)) window log trace) ≤ suc n
  unfolding window_granted
  window_granted_bound [] log now end k h b = omega (arith, recent-le now end k log h)
  window_granted_bound ((key, t) ∷ trace) log now end k h b =
      window_granted_bound trace (window_check (pos (suc n)) window log key t).0 t end k h.1
        (window_check_bound log key t k (omega (arith, recent-le now t k log h.0)))

  -- For requests in the order of time, the limiter lets through exactly the requests that a sliding
  -- window of the same length and positive limit lets through, pruning of the map included.
  pub granted-window_granted :
      (trace : List (String × ℕ)) (end : ℕ)
      → InOrder 0 trace end
      → granted (init (pos (suc n)) window) [] trace ≡ window_granted (pos (suc n)) window [] trace
  granted-window_granted trace end h = granted_lem trace end h (init-Tracks (pos (suc n)) window)

  -- For requests in the order of time, no key ever has more hits let through within one window than
  -- the positive limit.
  pub granted_bound :
      (trace : List (String × ℕ)) (end : ℕ) (k : String)
      → InOrder 0 trace end
      → recent window end k (granted (init (pos (suc n)) window) [] trace) ≤ suc n
  granted_bound trace end k h =
      rw (granted-window_granted trace end h)
        (window_granted_bound trace [] 0 end k h (unfold recent times in omega arith))
