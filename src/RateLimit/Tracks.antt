-- ===== src/RateLimit/Tracks.antt =====
-- The state of the limiter against the log of the hits that it let through.
use sredevopsorg_sec_feed.Prelude.{
  ℕ, ◌+◌, ◌≤◌, String, ◌≡◌, refl, sym, ap, ◌∙◌, ◌⊎◌, inl, inr, Bool, true, false, not, none, List,
  [], ◌∷◌, ◌++◌, length, select-append, All, All-select, arith, leb, ltb, if◌then◌else◌, ◌==◌,
  eq_iff, eq_refl, Bool-cases, Option-cases,
}
use mathlib.Core.List.{append-nil}
use sredevopsorg_sec_feed.Prelude.Int.{ℤ, pos, ltb_ℤ, leb_ℤ}
use sredevopsorg_sec_feed.Prelude.Dict.{
  lookup, insert, Distinct, lookup-insert, Distinct-insert, lookup-select, Distinct-select,
}
use sredevopsorg_sec_feed.RateLimit.{
  RateLimiter, enabled, drop_old, is_stale, prune, prune_threshold, queue_of, admit, check,
}
use sredevopsorg_sec_feed.RateLimit.Window.{
  live, IsChronological, live-live, drop_old-live, live_of_is_stale, live-IsChronological,
  append-IsChronological,
}

-- The hits let through, in order.
abbrev pub Log : Type 0
Log = List (String × ℕ)

unfoldable pub times : String → Log → List ℕ
times k [] = []
times k ((j, t) ∷ log) = if j == k then t ∷ times k log else times k log

-- How many hits of a key were let through in the window that ends at `now`.
unfoldable pub recent : ℕ → ℕ → String → Log → ℕ
unfolding times
recent window now k log = length (live window now (times k log))

-- The sliding-window limit, on the log alone.
unfoldable pub window_check : ℤ → ℕ → Log → String → ℕ → Log × Bool
unfolding recent
window_check limit window log key now =
    if ltb_ℤ (pos 0) limit
    then (if leb_ℤ limit (pos (recent window now key log))
        then (log, false)
        else (log ++ (key, now) ∷ [], true))
    else (log, true)

-- The limiter's state agrees with the log on all that still counts.
pub record Tracks (limit : ℤ) (window : ℕ) (l : RateLimiter) (log : Log) (now : ℕ) : Type 0 where
  pub limit_eq : l.max_requests ≡ limit
  pub window_eq : l.window_seconds ≡ window
  pub distinct : Distinct l.hits
  pub same :
      (k : String) → live window now (queue_of (lookup k l.hits)) ≡ live window now (times k log)
  pub ordered : (k : String) → IsChronological (queue_of (lookup k l.hits))
  pub past : (k : String) → All (λ t. t ≤ now) (queue_of (lookup k l.hits))

pub times-append :
    (k j : String) (t : ℕ) (log : Log)
    → times k (log ++ (j, t) ∷ []) ≡ times k log ++ (if j == k then t ∷ [] else [])
unfolding times
times-append k j t [] = refl
times-append k j t ((i, u) ∷ log) = ground (arith, times-append k j t log)

le-All :
    {now later : ℕ} (ts : List ℕ) → now ≤ later → All (λ t. t ≤ now) ts → All (λ t. t ≤ later) ts
le-All [] h a = tt
le-All (t ∷ ts) h a = (omega arith, le-All ts h a.1)

module _ (limit : ℤ) (window : ℕ) where
  -- Time passes.
  advance :
      {l : RateLimiter} {log : Log} {now : ℕ} (later : ℕ)
      → now ≤ later
      → Tracks limit window l log now
      → Tracks limit window l log later
  advance {l} {log} {now} later h t = record {
    limit_eq = t.limit_eq;
    window_eq = t.window_eq;
    distinct = t.distinct;
    same = λ k.
        sym (live-live window now later (queue_of (lookup k l.hits)) h)
        ∙ ap (live window later) (t.same k)
        ∙ live-live window now later (times k log) h;
    ordered = t.ordered;
    past = λ k. le-All (queue_of (lookup k l.hits)) h (t.past k);
  }

  -- Pruning leaves a key's deque alone, or forgets one with no hit that counts.
  prune_cases :
      (l : RateLimiter) (now : ℕ) (k : String)
      → Distinct l.hits
      → (lookup k (prune l now).hits ≡ lookup k l.hits)
        ⊎ ((lookup k (prune l now).hits ≡ none)
            × (is_stale l.window_seconds now (queue_of (lookup k l.hits)) ≡ true))
  unfolding prune
  prune_cases l now k d = elim (Option-cases (lookup k l.hits)) [
    | inl e ↦ inl (ground (arith, lookup-select fresh k l.hits d))
    | inr (q, e) ↦ elim (Bool-cases (is_stale l.window_seconds now q)) [
      | inl old ↦ inr (ground (arith, lookup-select fresh k l.hits d), rw e old)
      | inr new ↦ inl (ground (arith, lookup-select fresh k l.hits d))
    ]
  ]
    where
      fresh : (String × List ℕ) → Bool
      fresh e = not (is_stale l.window_seconds now e.1)

  prune-Tracks :
      {l : RateLimiter} {log : Log} {now : ℕ}
      → Tracks limit window l log now
      → Tracks limit window (prune l now) log now
  prune-Tracks {l} {log} {now} t = record {
    limit_eq = unfold prune in t.limit_eq;
    window_eq = unfold prune in t.window_eq;
    distinct =
        unfold prune in
        Distinct-select (λ e. not (is_stale l.window_seconds now e.1)) l.hits t.distinct;
    same = λ k. elim (prune_cases l now k t.distinct) [
      | inl e ↦ rw e (t.same k)
      | inr (e, old) ↦ rw e (
          sym (
            live_of_is_stale window now (queue_of (lookup k l.hits)) (t.ordered k)
              (rw t.window_eq at old))
          ∙ t.same k)
    ];
    ordered = λ k. elim (prune_cases l now k t.distinct) [
      | inl e ↦ rw e (t.ordered k)
      | inr (e, old) ↦ rw e tt
    ];
    past = λ k. elim (prune_cases l now k t.distinct) [
      | inl e ↦ rw e (t.past k)
      | inr (e, old) ↦ rw e tt
    ];
  }

  -- A deque that agrees with the log is stored for the key; the other keys are as before.
  store-Tracks :
      {l : RateLimiter} {log : Log} {now : ℕ} (key : String) (q : List ℕ) (log' : Log)
      → Tracks limit window l log now
      → IsChronological q × All (λ u. u ≤ now) q
      → live window now q ≡ live window now (times key log')
      → ((k : String) → (key == k) ≡ false → times k log' ≡ times k log)
      → Tracks limit window (record l { hits = insert key q l.hits }) log' now
  store-Tracks {l} {log} {now} key q log' t (chronological, bound) own other = record {
    limit_eq = t.limit_eq;
    window_eq = t.window_eq;
    distinct = Distinct-insert key q l.hits t.distinct;
    same = λ k. elim (Bool-cases (key == k)) [
      | inl e ↦ rw (lookup-insert, e, ← (eq_iff key k).0 e) own
      | inr e ↦ rw (lookup-insert, e, other k e) (t.same k)
    ];
    ordered = λ k. elim (Bool-cases (key == k)) [
      | inl e ↦ rw (lookup-insert, e) chronological
      | inr e ↦ rw (lookup-insert, e) (t.ordered k)
    ];
    past = λ k. elim (Bool-cases (key == k)) [
      | inl e ↦ rw (lookup-insert, e) bound
      | inr e ↦ rw (lookup-insert, e) (t.past k)
    ];
  }

  -- One call under the lock answers as the window does, and keeps the agreement.
  admit_lem :
      {l : RateLimiter} {log : Log} {now : ℕ} (key : String)
      → ltb_ℤ (pos 0) limit ≡ true
      → Tracks limit window l log now
      → ((admit l key now).1 ≡ (window_check limit window log key now).1)
        × Tracks limit window (admit l key now).0 (window_check limit window log key now).0 now
  unfolding admit window_check
  admit_lem {l} {log} {now} key on t =
      let q = live window now (times key log) in
      let dropped : drop_old l.window_seconds now (queue_of (lookup key l.hits)) ≡ q =
        rw t.window_eq
          (drop_old-live window now (queue_of (lookup key l.hits)) (t.ordered key) ∙ t.same key) in
      let rest : IsChronological q × All (λ u. u ≤ now) q = rw (← t.same key) (
        live-IsChronological window now (queue_of (lookup key l.hits)) (t.ordered key),
        All-select (λ u. u ≤ now) (λ u. not (leb (u + window) now)) (queue_of (lookup key l.hits))
            (t.past key),
      ) in
      let again : live window now q ≡ q = live-live window now now (times key log) (omega arith) in
      let joined : live window now (q ++ now ∷ [])
          ≡ live window now (times key (log ++ (key, now) ∷ [])) =
        rw (times-append, eq_refl, select-append, select-append, again) in
      elim (Bool-cases (leb_ℤ l.max_requests (pos (length q)))) [
        | inl full ↦
            rw (dropped, on, full, rw t.limit_eq at full)
              (refl, store-Tracks key q log t rest again (λ k e. refl))
        | inr room ↦
            rw (dropped, on, room, rw t.limit_eq at room)
              (
                refl,
                store-Tracks key (q ++ now ∷ []) (log ++ (key, now) ∷ []) t
                    (append-IsChronological now q rest.0 rest.1) joined
                    (λ k e. rw (times-append, e, append-nil)),
              )
      ]

  -- One call, pruning included.
  pub check_lem :
      {l : RateLimiter} {log : Log} {now : ℕ} (key : String) (later : ℕ)
      → now ≤ later
      → Tracks limit window l log now
      → ((check l key later).1 ≡ (window_check limit window log key later).1)
        × Tracks limit window
            (check l key later).0
            (window_check limit window log key later).0
            later
  unfolding check enabled window_check
  check_lem {l} {log} key later h t =
      let t' = advance later h t in
      elim (Bool-cases (ltb_ℤ (pos 0) l.max_requests)) [
        | inl on ↦ elim (Bool-cases (ltb prune_threshold (length l.hits))) [
          | inl many ↦ rw (on, many) (admit_lem key (rw t.limit_eq at on) (prune-Tracks t'))
          | inr few ↦ rw (on, few) (admit_lem key (rw t.limit_eq at on) t')
        ]
        | inr off ↦ rw (off, rw t.limit_eq at off) (refl, t')
      ]
