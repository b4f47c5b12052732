-- ===== src/Web/Streams.antt =====
-- The subscribers that the event streams leave behind.
use sredevopsorg_sec_feed.Prelude.{
  ℕ, ◌≡◌, refl, inl, inr, true, false, not, ◌&&◌, length, List, [], ◌∷◌, ◌++◌, All, arith, nat_eq,
  select, Bool-cases, Option-cases,
}
use sredevopsorg_sec_feed.Prelude.Results.{Result, ok, err}
use sredevopsorg_sec_feed.Prelude.Int.{pos, ltb_ℤ, leb_ℤ}
use sredevopsorg_sec_feed.Events.{Broker, Queue, subscribe, unsubscribe}
use sredevopsorg_sec_feed.Events.Cap.{IsValid, IsBounded}
use sredevopsorg_sec_feed.RateLimit.{RateLimiter}
use sredevopsorg_sec_feed.Web.Clients.{Request, HttpError, rate_limit}
use sredevopsorg_sec_feed.Web.Api.{Gate, limited, open_stream, api_events, stream_closed}

module _ {A : Type 0} where
  -- A refused request leaves the broker alone; an accepted one adds one empty queue. If its stream
  -- is closed once it has started, the subscribers are those of before; if it is closed before that,
  -- its queue stays.
  pub data Opens (before : Broker A) : Broker A → Result HttpError ℕ → Type 0 where
    refused : {e : HttpError} → Opens before before (err e)
    opened :
        {after : Broker A} {q : ℕ}
        → after.subscribers ≡ before.subscribers ++ record { ident = q; events = [] } ∷ []
        → (stream_closed true q after).subscribers ≡ before.subscribers
        → (stream_closed false q after).subscribers
          ≡ before.subscribers ++ record { ident = q; events = [] } ∷ []
        → Opens before after (ok q)

  closed :
      (subs : List (Queue A)) (fresh : ℕ)
      → All (IsBounded fresh) subs
      → select
          (λ (s : Queue A). not (nat_eq s.ident fresh))
          (subs ++ record { ident = fresh; events = [] } ∷ [])
        ≡ subs
  closed [] fresh h = ground arith
  closed (s ∷ subs) fresh h = ground (arith, closed subs fresh h.1, h.0.known)

  open_stream-Opens : (b : Broker A) → IsValid b → Opens b (open_stream b).0 (open_stream b).1
  unfolding subscribe stream_closed unsubscribe
  open_stream-Opens b v =
      elim (Bool-cases
        (ltb_ℤ (pos 0) b.max_subscribers && leb_ℤ b.max_subscribers (pos (length b.subscribers)))) [
          | inl full ↦ rw (full, open_stream, subscribe, full) Opens.refused
          | inr room ↦
              rw (room, open_stream, subscribe, room)
                (Opens.opened refl (closed b.subscribers b.fresh v.bounded) refl)
        ]

  -- A request for the event stream that is refused, by the rate limit or by the cap, leaves the
  -- subscribers alone; one that is accepted adds one empty queue; closing its stream after the
  -- greeting restores the subscribers, and closing it before it has started leaves the queue among
  -- them, for a valid broker.
  pub api_events-Opens :
      (gate : Gate) (request : Request) (timestamp : ℕ) (limiter : RateLimiter) (b : Broker A)
      → IsValid b
      → Opens b
          (api_events gate request timestamp limiter b).0.1
          (api_events gate request timestamp limiter b).1
  unfolding api_events
  api_events-Opens gate request timestamp limiter b v =
      elim (Option-cases
        (rate_limit gate.ops gate.ticks gate.trust_proxy request timestamp limiter).1) [
          | inl free ↦ rw (limited, free) (open_stream-Opens b v)
          | inr (e, limit) ↦ rw (limited, limit) Opens.refused
        ]
