-- ===== src/Fetcher/Nvd/Stagger.antt =====
-- The start slots of the requests to the NVD, in the order in which they are reserved.
use sredevopsorg_sec_feed.Prelude.{
  ℕ, ◌+◌, ◌≤◌, ◌≡◌, ◌⊎◌, true, none, some, List, [], ◌∷◌, arith, nat_eq, if◌then◌else◌, Spaced,
}
use sredevopsorg_sec_feed.Fetcher.Nvd.{Slots, nvd_stagger, reserve, at_least, is_loop}

-- The starts that calls at the times `nows` reserve on one loop.
unfoldable pub reserve_all : ℕ → List ℕ → Slots → List ℕ
unfolding reserve
reserve_all loop [] slots = []
reserve_all loop (now ∷ nows) slots =
    let (slots', start) = reserve loop now slots in start ∷ reserve_all loop nows slots'

-- The first call after `last` starts at once if it may, and as soon as it may otherwise.
abbrev pub Prompt : ℕ → List ℕ → List ℕ → Type 0
Prompt next [] [] = Unit
Prompt next [] (s ∷ starts) = ⊥
Prompt next (now ∷ nows) [] = ⊥
Prompt next (now ∷ nows) (start ∷ starts) =
    (now ≤ start) × ((start ≡ now) ⊎ (start ≡ next)) × Prompt (start + nvd_stagger) nows starts

-- What is promised to calls at the times `nows`, when the next free start is `next`.
pub record AreStaggered (next : ℕ) (nows starts : List ℕ) : Type 0 where
  pub spaced : Spaced nvd_stagger none starts
  pub prompt : Prompt next nows starts

-- The earliest start that is free on a loop.
abbrev pub free_from : ℕ → Slots → ℕ
free_from loop slots = if is_loop slots.slot_loop loop then slots.next_start else 0

-- The slots after a reservation of `last`.
abbrev taken : ℕ → ℕ → Slots
taken loop last = record { slot_loop = some loop; next_start = last + nvd_stagger }

reserve_all-taken :
    (loop last : ℕ) (nows : List ℕ)
    → let starts = reserve_all loop nows (taken loop last) in
      Spaced nvd_stagger (some last) starts × Prompt (last + nvd_stagger) nows starts
unfolding reserve_all reserve
reserve_all-taken loop last [] = (tt, tt)
reserve_all-taken loop last (now ∷ nows) =
    let same : nat_eq loop loop ≡ true = ground arith in
    let start = at_least now (last + nvd_stagger) in
    let rest = reserve_all-taken loop start nows in
    rw same ((ground arith, rest.0), (ground arith, ground arith, rest.1))

-- Whatever the times of the calls on one loop and whatever was reserved before, each call reserves
-- a start at least two seconds after the one before it, not before the time of the call, and no
-- later than it must: at once, or two seconds after the start before.
pub reserve_all-AreStaggered :
    (loop : ℕ) (nows : List ℕ) (slots : Slots)
    → AreStaggered (free_from loop slots) nows (reserve_all loop nows slots)
unfolding reserve_all reserve
reserve_all-AreStaggered loop [] slots = record { spaced = tt; prompt = tt }
reserve_all-AreStaggered loop (now ∷ nows) slots =
    let start = at_least now (free_from loop slots) in
    let rest = reserve_all-taken loop start nows in
    record { spaced = rest.0; prompt = (ground arith, ground arith, rest.1) }
