-- ===== src/RateLimit/Window.antt =====
-- The hits of one key inside the window, and what dropping and pruning keep of them.
use sredevopsorg_sec_feed.Prelude.{
  ℕ, ◌≤◌, ◌≡◌, refl, true, false, not, List, [], ◌∷◌, ◌++◌, select, All, All-map, All-append,
  All-select, select-All, select-select, arith,
}
use sredevopsorg_sec_feed.RateLimit.{is_old, drop_old, is_stale}

-- The hits that still count at `timestamp`.
abbrev pub live : ℕ → ℕ → List ℕ → List ℕ
live window timestamp = select (λ t. not (is_old window timestamp t))

-- Oldest first.
abbrev pub IsChronological : List ℕ → Type 0
IsChronological [] = Unit
IsChronological (t ∷ ts) = All (λ u. t ≤ u) ts × IsChronological ts

module _ (window : ℕ) where
  -- What has aged out stays out.
  pub live-live :
      (now later : ℕ) (ts : List ℕ)
      → now ≤ later
      → live window later (live window now ts) ≡ live window later ts
  live-live now later ts h =
      select-select (λ t. not (is_old window now t)) (λ t. not (is_old window later t))
        (λ t e. ground arith) ts

  -- On a chronological deque, popping old hits from the front removes all the old ones.
  pub drop_old-live :
      (now : ℕ) (ts : List ℕ) → IsChronological ts → drop_old window now ts ≡ live window now ts
  unfolding drop_old
  drop_old-live now [] h = refl
  drop_old-live now (t ∷ ts) h = ground (
    arith,
    drop_old-live now ts h.1,
    λ (p : is_old window now t ≡ false).
        select-All (λ u. not (is_old window now u)) ts
          (All-map (λ u. t ≤ u) (λ u. not (is_old window now u) ≡ true) (λ u q. ground arith) ts
            h.0),
  )

  -- The last hit of a chronological deque is its newest: if that is old, so is every other.
  pub live_of_is_stale :
      (now : ℕ) (ts : List ℕ)
      → IsChronological ts
      → is_stale window now ts ≡ true
      → live window now ts ≡ []
  unfolding is_stale
  live_of_is_stale now [] h e = refl
  live_of_is_stale now (t ∷ []) h e = ground arith
  live_of_is_stale now (t ∷ u ∷ ts) h e =
      let rest = live_of_is_stale now (u ∷ ts) h.1 e in ground (arith, h.0.0)

  pub live-IsChronological :
      (now : ℕ) (ts : List ℕ) → IsChronological ts → IsChronological (live window now ts)
  live-IsChronological now [] h = tt
  live-IsChronological now (t ∷ ts) h = ground (
    arith,
    All-select (λ u. t ≤ u) (λ u. not (is_old window now u)) ts h.0,
    live-IsChronological now ts h.1,
  )

-- A hit at `now` joins a deque of earlier ones.
pub append-IsChronological :
    (now : ℕ) (ts : List ℕ)
    → IsChronological ts
    → All (λ t. t ≤ now) ts
    → IsChronological (ts ++ now ∷ []) × All (λ t. t ≤ now) (ts ++ now ∷ [])
append-IsChronological now [] h b = ((tt, tt), (omega arith, tt))
append-IsChronological now (t ∷ ts) h b =
    let rest = append-IsChronological now ts h.1 b.1 in
    ((All-append (λ u. t ≤ u) ts (now ∷ []) h.0 (b.0, tt), rest.0), (b.0, rest.1))
