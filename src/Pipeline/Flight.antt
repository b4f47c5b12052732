-- ===== src/Pipeline/Flight.antt =====
-- The single flight of the refreshes (app/pipeline.py): `refresh_in_flight`, `schedule_refresh`,
-- `_on_refresh_done` and `get_feed`. A task has an identity; it runs, then it is done, and some
-- time later its callback is called.
use sredevopsorg_sec_feed.Prelude.{
  ℕ, suc, ◌+◌, ◌*◌, ◌≤◌, ◌<◌, ◌≡◌, refl, Bool, true, false, not, Option, none, some, List, [], ◌∷◌,
  any, select, length, All, All-map, All-select, arith, ◌⊎◌, inl, inr, ◌∙◌, ap, sym, nat_eq, ltb,
  Bool-cases, Option-cases, if◌then◌else◌,
}
use sredevopsorg_sec_feed.Prelude.Int.{ℤ, pos}
use sredevopsorg_sec_feed.Models.{DateTime, utc}

-- `done` holds the tasks whose callback is still to come, `fresh` the identity of the next task.
pub record Scheduler : Type 0 where
  pub refresh_task : Option ℕ
  pub running : List ℕ
  pub done : List ℕ
  pub fresh : ℕ

abbrev pub holds : ℕ → List ℕ → Bool
holds k tasks = any (λ j. nat_eq j k) tasks

abbrev pub without : ℕ → List ℕ → List ℕ
without k tasks = select (λ j. not (nat_eq j k)) tasks

abbrev pub is_empty : List ℕ → Bool
is_empty [] = true
is_empty (k ∷ tasks) = false

-- `_REFRESH_TASK is not None and not _REFRESH_TASK.done()`
unfoldable pub refresh_in_flight : Scheduler → Bool
refresh_in_flight s = elim s.refresh_task [ none ↦ false | some k ↦ holds k s.running ]

unfoldable pub schedule_refresh : Scheduler → Scheduler × Bool
unfolding refresh_in_flight
schedule_refresh s = if refresh_in_flight s then (s, false) else (
  record s { refresh_task = some s.fresh; running = s.fresh ∷ s.running; fresh = s.fresh + 1 },
  true,
)

-- The task ends: by its result, by an exception or by a cancellation.
unfoldable pub finish : ℕ → Scheduler → Scheduler
finish k s =
    if holds k s.running then record s { running = without k s.running; done = k ∷ s.done } else s

-- `if _REFRESH_TASK is task: _REFRESH_TASK = None`
unfoldable pub on_refresh_done : ℕ → Scheduler → Scheduler
on_refresh_done k s =
    if holds k s.done
    then record s {
      done = without k s.done;
      refresh_task = elim s.refresh_task [
        | none ↦ none
        | some j ↦ if nat_eq j k then none else some j
      ];
    }
    else s

-- `feed_cache_ttl` is in seconds; a time that lies ahead has a negative age.
unfoldable pub is_stale_cache : Option DateTime → ℤ → DateTime → Bool
is_stale_cache none ttl now = true
is_stale_cache (some t) (pos ttl) now = ltb (utc t + ttl * 1_000_000) (utc now)
is_stale_cache (some t) (ℤ.negsuc ttl) now = ltb (utc t) (utc now + suc ttl * 1_000_000)

-- The cache is returned as it is.
unfoldable pub get_feed : Option DateTime → ℤ → DateTime → Scheduler → Scheduler
unfolding schedule_refresh is_stale_cache
get_feed fetched_at ttl now s =
    if is_stale_cache fetched_at ttl now then (schedule_refresh s).0 else s

abbrev pub idle : Scheduler
idle = record { refresh_task = none; running = []; done = []; fresh = 0 }

-- What can happen: a request or the startup schedules, a task ends, a callback is called.
pub data Step (s : Scheduler) : Scheduler → Type 0 where
  schedules : Step s (schedule_refresh s).0
  serves :
      (fetched_at : Option DateTime) (ttl : ℤ) (now : DateTime)
      → Step s (get_feed fetched_at ttl now s)
  ends : (k : ℕ) → Step s (finish k s)
  calls_back : (k : ℕ) → Step s (on_refresh_done k s)

pub data Reach : Scheduler → Type 0 where
  start : Reach idle
  next : {s t : Scheduler} → Reach s → Step s t → Reach t

-- The running tasks are none, or the remembered one alone; no task that runs is done, and no task
-- has the next identity.
record IsSingle (s : Scheduler) : Type 0 where
  single : (s.running ≡ []) ⊎ ((k : ℕ) × (s.running ≡ k ∷ []) × (s.refresh_task ≡ some k))
  remembered : (k : ℕ) → s.refresh_task ≡ some k → k < s.fresh
  old : All (λ k. k < s.fresh) s.done
  apart : All (λ k. holds k s.running ≡ false) s.done

in_flight_of_none : (s : Scheduler) → s.running ≡ [] → refresh_in_flight s ≡ false
unfolding refresh_in_flight
in_flight_of_none s e = elim (Option-cases s.refresh_task) [ inl n ↦ rw n | inr (k, h) ↦ rw (h, e) ]

in_flight_of_one :
    (s : Scheduler) (k : ℕ)
    → s.running ≡ k ∷ []
    → s.refresh_task ≡ some k
    → refresh_in_flight s ≡ true
unfolding refresh_in_flight
in_flight_of_one s k e h = rw (h, e) (ground arith)

schedule-IsSingle : (s : Scheduler) → IsSingle s → IsSingle (schedule_refresh s).0
unfolding schedule_refresh
schedule-IsSingle s v = elim v.single [
  | inl e ↦ rw (in_flight_of_none s e) (record {
    single = inr (s.fresh, rw e, refl);
    remembered = λ k h. ground arith;
    old = All-map (λ k. k < s.fresh) (λ k. k < s.fresh + 1) (λ k h. omega arith) s.done v.old;
    apart = rw e (
        All-map (λ k. k < s.fresh) (λ k. holds k (s.fresh ∷ []) ≡ false) (λ k h. ground arith)
          s.done v.old);
  })
  | inr (k, e, h) ↦ rw (in_flight_of_one s k e h) v
]

get_feed-IsSingle :
    (fetched_at : Option DateTime) (ttl : ℤ) (now : DateTime) (s : Scheduler)
    → IsSingle s
    → IsSingle (get_feed fetched_at ttl now s)
unfolding get_feed
get_feed-IsSingle fetched_at ttl now s v = elim (Bool-cases (is_stale_cache fetched_at ttl now)) [
  | inl e ↦ rw e (schedule-IsSingle s v)
  | inr e ↦ rw e v
]

holds-All : (P : ℕ → Type 0) (k : ℕ) (tasks : List ℕ) → All P tasks → holds k tasks ≡ true → P k
holds-All P k [] h e = cc
holds-All P k (j ∷ tasks) h e = elim (Bool-cases (nat_eq j k)) [
  | inl same ↦ let eq : j ≡ k = ground arith in rw (← eq) h.0
  | inr other ↦ holds-All P k tasks h.1 (ground arith)
]

finish-IsSingle : (k : ℕ) (s : Scheduler) → IsSingle s → IsSingle (finish k s)
unfolding finish
finish-IsSingle k s v = elim (Bool-cases (holds k s.running)) [
  | inr e ↦ rw e v
  | inl e ↦ elim v.single [
    | inl no_task ↦ absurd (ground (arith, ap (holds k) no_task))
    | inr (j, only, task) ↦
        let here : holds k (j ∷ []) ≡ true = ap (holds k) (sym only) ∙ e in
        let same : j ≡ k = ground arith in
        let empty : without k s.running ≡ [] = rw only (ground arith) in
        rw e (record {
          single = inl empty;
          remembered = v.remembered;
          old = (rw (← same) (v.remembered j task), v.old);
          apart =
              All-map (λ x. x < s.fresh) (λ x. holds x (without k s.running) ≡ false)
                (λ x h. ap (holds x) empty) (k ∷ s.done) (rw (← same) (v.remembered j task), v.old);
        })
  ]
]

cleared_from :
    (k n : ℕ) (task : Option ℕ) (j : ℕ)
    → ((i : ℕ) → task ≡ some i → i < n)
    → elim task [ none ↦ none | some i ↦ if nat_eq i k then none else some i ] ≡ some j
    → j < n
cleared_from k n none j bound h = absurd (ground arith)
cleared_from k n (some i) j bound h = bound j (ground arith)

on_refresh_done-IsSingle : (k : ℕ) (s : Scheduler) → IsSingle s → IsSingle (on_refresh_done k s)
unfolding on_refresh_done
on_refresh_done-IsSingle k s v = elim (Bool-cases (holds k s.done)) [
  | inr e ↦ rw e v
  | inl e ↦
      let gone = holds-All (λ x. holds x s.running ≡ false) k s.done v.apart e in
      rw e (record {
        single = elim v.single [
          | inl no_task ↦ inl no_task
          | inr (j, only, task) ↦
              let other : nat_eq j k ≡ false = ground (arith, ap (holds k) only) in
              inr (j, only, rw (task, other))
        ];
        remembered = λ j h. cleared_from k s.fresh s.refresh_task j v.remembered h;
        old = All-select (λ x. x < s.fresh) _ s.done v.old;
        apart = All-select (λ x. holds x s.running ≡ false) _ s.done v.apart;
      })
]

Step-IsSingle : {s t : Scheduler} → Step s t → IsSingle s → IsSingle t
Step-IsSingle {s} schedules v = schedule-IsSingle s v
Step-IsSingle {s} (serves fetched_at ttl now) v = get_feed-IsSingle fetched_at ttl now s v
Step-IsSingle {s} (ends k) v = finish-IsSingle k s v
Step-IsSingle {s} (calls_back k) v = on_refresh_done-IsSingle k s v

Reach-IsSingle : {s : Scheduler} → Reach s → IsSingle s
Reach-IsSingle start = record {
  single = inl refl;
  remembered = λ k h. absurd (ground arith);
  old = tt;
  apart = tt;
}
Reach-IsSingle (next r step) = Step-IsSingle step (Reach-IsSingle r)

-- After any run of requests, ends of refreshes and callbacks: at most one refresh runs; a refresh
-- is reported in flight exactly while one runs; and a call starts a new one exactly if none runs,
-- whatever callbacks of earlier refreshes are still to come.
pub Reach-single_flight :
    {s : Scheduler}
    → Reach s
    → (length s.running ≤ 1)
      × (refresh_in_flight s ≡ not (is_empty s.running))
      × ((schedule_refresh s).1 ≡ is_empty s.running)
unfolding schedule_refresh
Reach-single_flight {s} r =
    let v = Reach-IsSingle r in
    elim v.single [
      | inl e ↦
          let quiet = in_flight_of_none s e in (rw e (omega arith), rw (quiet, e), rw (quiet, e))
      | inr (k, e, h) ↦
          let busy = in_flight_of_one s k e h in (rw e (omega arith), rw (busy, e), rw (busy, e))
    ]
