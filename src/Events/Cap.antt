-- ===== src/Events/Cap.antt =====
-- The bounds of the broker, in every state that its operations reach.
use sredevopsorg_sec_feed.Prelude.{
  ℕ, ◌+◌, ◌≤◌, ◌<◌, ◌≡◌, refl, inl, inr, true, ◌&&◌, not, List, [], ◌∷◌, map, length, length-append,
  length-select-le, All, All-append, All-select, All-map, Bool-cases, nat_eq, arith,
}
use sredevopsorg_sec_feed.Prelude.Int.{ℤ, pos, ltb_ℤ, leb_ℤ, ◌≤ℤ◌}
use sredevopsorg_sec_feed.Events.{
  queue_maxsize, Queue, Broker, init, subscribe, unsubscribe, offer, publish, take_from, receive,
}

module _ {A : Type 0} where
  -- What a queue of a broker is: its identity was given out, and it holds at most `maxsize` events.
  pub record IsBounded (fresh : ℕ) (q : Queue A) : Type 0 where
    pub known : q.ident < fresh
    pub small : length q.events ≤ queue_maxsize

  pub record IsValid (b : Broker A) : Type 0 where
    pub capped :
        ltb_ℤ (pos 0) b.max_subscribers ≡ true → pos (length b.subscribers) ≤ℤ b.max_subscribers
    pub bounded : All (IsBounded b.fresh) b.subscribers

  -- One call by the application: a client connects or leaves, the pipeline publishes, a stream
  -- takes an event.
  pub data Step (b : Broker A) : Broker A → Type 0 where
    subscribes : Step b (subscribe b).0
    unsubscribes : (q : ℕ) → Step b (unsubscribe b q)
    publishes : (event : A) → Step b (publish b event)
    receives : (q : ℕ) → Step b (receive b q).0

  pub data Reach (limit : ℤ) : Broker A → Type 0 where
    start : Reach limit (init limit)
    next : {b c : Broker A} → Reach limit b → Step b c → Reach limit c

  subscribe-IsValid : (b : Broker A) → IsValid b → IsValid (subscribe b).0
  unfolding subscribe
  subscribe-IsValid b v =
      elim (Bool-cases
        (ltb_ℤ (pos 0) b.max_subscribers && leb_ℤ b.max_subscribers (pos (length b.subscribers)))) [
          | inl full ↦ rw full v
          | inr room ↦ rw room (record {
            capped = λ on. rw length-append (ground arith);
            bounded =
                All-append (IsBounded (b.fresh + 1)) b.subscribers _
                  (All-map (IsBounded b.fresh) (IsBounded (b.fresh + 1))
                    (λ q h. record { known = omega (arith, h.known); small = h.small })
                    b.subscribers v.bounded)
                  (record { known = omega arith; small = omega arith }, tt);
          })
        ]

  unsubscribe-IsValid : (b : Broker A) (q : ℕ) → IsValid b → IsValid (unsubscribe b q)
  unfolding unsubscribe
  unsubscribe-IsValid b q v = record {
    capped = λ on.
        let shorter = length-select-le (λ s. not (nat_eq s.ident q)) b.subscribers in
        let before = v.capped on in omega (arith, shorter, before);
    bounded = All-select (IsBounded b.fresh) _ b.subscribers v.bounded;
  }

  length-offer : (event : A) (subs : List (Queue A)) → length (map (offer event) subs) ≡ length subs
  length-offer event [] = refl
  length-offer event (s ∷ subs) = rw (length-offer event subs)

  offer-IsBounded :
      (fresh : ℕ) (event : A) (subs : List (Queue A))
      → All (IsBounded fresh) subs
      → All (IsBounded fresh) (map (offer event) subs)
  unfolding offer
  offer-IsBounded fresh event [] h = tt
  offer-IsBounded fresh event (s ∷ subs) h = (one, offer-IsBounded fresh event subs h.1)
    where
      one : IsBounded fresh (offer event s)
      one = ground (arith, length-append s.events (event ∷ []), h.0.known, h.0.small)

  publish-IsValid : (b : Broker A) (event : A) → IsValid b → IsValid (publish b event)
  unfolding publish
  publish-IsValid b event v = record {
    capped = λ on. let before = v.capped on in rw length-offer (omega arith);
    bounded = offer-IsBounded b.fresh event b.subscribers v.bounded;
  }

  length-take_from : (q : ℕ) (subs : List (Queue A)) → length (take_from q subs).0 ≡ length subs
  unfolding take_from
  length-take_from q [] = refl
  length-take_from q (s ∷ subs) = ground (arith, length-take_from q subs)

  take_from-IsBounded :
      (fresh : ℕ) (q : ℕ) (subs : List (Queue A))
      → All (IsBounded fresh) subs
      → All (IsBounded fresh) (take_from q subs).0
  unfolding take_from
  take_from-IsBounded fresh q [] h = tt
  take_from-IsBounded fresh q (s ∷ subs) h =
      let rest = take_from-IsBounded fresh q subs h.1 in ground (arith, h.0.known, h.0.small)

  receive-IsValid : (b : Broker A) (q : ℕ) → IsValid b → IsValid (receive b q).0
  unfolding receive
  receive-IsValid b q v = record {
    capped = λ on. let before = v.capped on in rw length-take_from (omega arith);
    bounded = take_from-IsBounded b.fresh q b.subscribers v.bounded;
  }

  Step-IsValid : {b c : Broker A} → Step b c → IsValid b → IsValid c
  Step-IsValid {b} subscribes v = subscribe-IsValid b v
  Step-IsValid {b} (unsubscribes q) v = unsubscribe-IsValid b q v
  Step-IsValid {b} (publishes event) v = publish-IsValid b event v
  Step-IsValid {b} (receives q) v = receive-IsValid b q v

  -- Whatever clients connect, leave and receive, and whatever is published: with a positive cap
  -- there are never more subscribers than it, and no queue ever holds more than 16 events.
  pub Reach-IsValid : {limit : ℤ} {b : Broker A} → Reach limit b → IsValid b
  unfolding init
  Reach-IsValid start = record { capped = λ on. ground arith; bounded = tt }
  Reach-IsValid (next r s) = Step-IsValid s (Reach-IsValid r)
