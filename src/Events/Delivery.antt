-- ===== src/Events/Delivery.antt =====
-- What one subscriber receives.
use sredevopsorg_sec_feed.Prelude.{
  ℕ, zero, suc, ◌+◌, ◌≤◌, ◌≡◌, refl, ap, Option, none, some, List, [], ◌∷◌, ◌++◌, map, length,
  length-append, All, leb, nat_eq, arith, if◌then◌else◌,
}
use mathlib.Core.List.{append_assoc, append-nil}
use sredevopsorg_sec_feed.Events.{
  queue_maxsize, Queue, Broker, subscribe, offer, publish, take_from, receive,
}
use sredevopsorg_sec_feed.Events.Cap.{IsBounded, IsValid}

module _ {A : Type 0} where
  -- The events that wait for a subscriber; `none` for one that is not connected.
  abbrev pub waiting : ℕ → List (Queue A) → Option (List A)
  waiting q [] = none
  waiting q (s ∷ subs) = if nat_eq s.ident q then some s.events else waiting q subs

  -- A queue that is full misses the event.
  abbrev pub joined : A → Option (List A) → Option (List A)
  joined event none = none
  joined event (some es) =
      if leb queue_maxsize (length es) then some es else some (es ++ event ∷ [])

  waiting-offer :
      (q : ℕ) (event : A) (subs : List (Queue A))
      → waiting q (map (offer event) subs) ≡ joined event (waiting q subs)
  unfolding offer
  waiting-offer q event [] = refl
  waiting-offer q event (s ∷ subs) = ground (arith, waiting-offer q event subs)

  -- Publishing reaches every subscriber by its own queue alone: each gets the event at the end of
  -- its queue, or, if that holds 16 events already, keeps it as it is.
  pub waiting-publish :
      (b : Broker A) (event : A) (q : ℕ)
      → waiting q (publish b event).subscribers ≡ joined event (waiting q b.subscribers)
  unfolding publish
  waiting-publish b event q = waiting-offer q event b.subscribers

  waiting-take_from :
      (q : ℕ) (subs : List (Queue A)) (e : A) (rest : List A)
      → waiting q subs ≡ some (e ∷ rest)
      → ((take_from q subs).1 ≡ some e) × (waiting q (take_from q subs).0 ≡ some rest)
  unfolding take_from
  waiting-take_from q [] e rest h = absurd (ground arith)
  waiting-take_from q (s ∷ subs) e rest h = ground (arith, waiting-take_from q subs e rest)

  unfoldable pub publish_all : Broker A → List A → Broker A
  publish_all b [] = b
  publish_all b (e ∷ es) = publish_all (publish b e) es

  -- The next events that a subscriber's stream takes, `n` at most.
  unfoldable pub drain : ℕ → Broker A → ℕ → List A
  drain zero b q = []
  drain (suc n) b q =
      let (b', event) = receive b q in
      let rest = drain n b' q in elim event [ none ↦ [] | some e ↦ e ∷ rest ]

  waiting-publish_all :
      (b : Broker A) (q : ℕ) (es news : List A)
      → waiting q b.subscribers ≡ some es
      → length es + length news ≤ queue_maxsize
      → waiting q (publish_all b news).subscribers ≡ some (es ++ news)
  unfolding publish_all
  waiting-publish_all b q es [] h room = rw append-nil h
  waiting-publish_all b q es (e ∷ news) h room = rw (← append_assoc es (e ∷ []) news) (
      waiting-publish_all (publish b e) q (es ++ e ∷ []) news
        (ground (arith, waiting-publish b e q)) (omega (arith, length-append es (e ∷ []))))

  drain-waiting :
      (b : Broker A) (q : ℕ) (es : List A)
      → waiting q b.subscribers ≡ some es
      → drain (length es) b q ≡ es
  unfolding drain receive
  drain-waiting b q [] h = refl
  drain-waiting b q (e ∷ es) h =
      let (got, left) = waiting-take_from q b.subscribers e es h in
      rw (drain, got) (ap (◌∷◌ e) (drain-waiting (receive b q).0 q es left))

  waiting_fresh :
      (q : ℕ) (subs : List (Queue A))
      → All (IsBounded q) subs
      → waiting q (subs ++ record { ident = q; events = [] } ∷ []) ≡ some []
  waiting_fresh q [] h = ground arith
  waiting_fresh q (s ∷ subs) h = ground (arith, h.0.known, waiting_fresh q subs h.1)

  waiting-subscribe :
      (b : Broker A) {b' : Broker A} {q : ℕ}
      → IsValid b
      → subscribe b ≡ (b', some q)
      → waiting q b'.subscribers ≡ some []
  unfolding subscribe
  waiting-subscribe b v joins = ground (arith, waiting_fresh b.fresh b.subscribers v.bounded)

  -- A new subscriber of a valid broker that is at most 16 events behind receives all that is
  -- published, in order.
  pub drain-publish_all :
      (b : Broker A) {b' : Broker A} {q : ℕ} (events : List A)
      → IsValid b
      → subscribe b ≡ (b', some q)
      → length events ≤ queue_maxsize
      → drain (length events) (publish_all b' events) q ≡ events
  drain-publish_all b {b'} {q} events v joins room =
      drain-waiting (publish_all b' events) q events
        (waiting-publish_all b' q [] events (waiting-subscribe b v joins) (omega arith))
