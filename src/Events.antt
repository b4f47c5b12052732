-- ===== src/Events.antt =====
-- The publish/subscribe broker for Server-Sent Events (app/events.py). A subscriber's queue is an
-- object with an identity; the set of the queues is a list in the order in which it is walked.
pub mod Cap
pub mod Delivery
mod Tests
use sredevopsorg_sec_feed.Prelude.{
  ℕ, ◌+◌, ◌≡◌, Bool, true, false, ◌&&◌, not, Option, none, some, List, [], ◌∷◌, ◌++◌, map, length,
  select, leb, nat_eq, if◌then◌else◌,
}
use sredevopsorg_sec_feed.Prelude.Int.{ℤ, pos, ltb_ℤ, leb_ℤ}

abbrev pub queue_maxsize : ℕ
queue_maxsize = 16

pub record Queue (A : Type 0) : Type 0 where
  pub ident : ℕ
  pub events : List A

-- `fresh` is the identity of the next queue that is made.
pub record Broker (A : Type 0) : Type 0 where
  pub max_subscribers : ℤ
  pub subscribers : List (Queue A)
  pub fresh : ℕ

module _ {A : Type 0} where
  unfoldable pub init : ℤ → Broker A
  init max_subscribers = record { max_subscribers = max_subscribers; subscribers = []; fresh = 0 }

  -- `None` when the cap is reached, and the new queue's identity otherwise.
  unfoldable pub subscribe : Broker A → Broker A × Option ℕ
  subscribe b =
      if ltb_ℤ (pos 0) b.max_subscribers && leb_ℤ b.max_subscribers (pos (length b.subscribers))
      then (b, none)
      else (
        record b {
          subscribers = b.subscribers ++ record { ident = b.fresh; events = [] } ∷ [];
          fresh = b.fresh + 1;
        },
        some b.fresh,
      )

  -- `set.discard`
  unfoldable pub unsubscribe : Broker A → ℕ → Broker A
  unsubscribe b q = record b { subscribers = select (λ s. not (nat_eq s.ident q)) b.subscribers }

  -- `put_nowait`; `none` is `QueueFull`.
  unfoldable pub put_nowait : Queue A → A → Option (Queue A)
  put_nowait q event =
      if leb queue_maxsize (length q.events)
      then none
      else some (record q { events = q.events ++ event ∷ [] })

  -- The body of the loop of `publish`: a full queue misses the event.
  unfoldable pub offer : A → Queue A → Queue A
  unfolding put_nowait
  offer event q = elim (put_nowait q event) [ none ↦ q | some q' ↦ q' ]

  unfoldable pub publish : Broker A → A → Broker A
  unfolding offer
  publish b event = record b { subscribers = map (offer event) b.subscribers }

  -- `queue.get()` of the event stream (app/main.py): the oldest event of a queue, if there is one.
  take_from : ℕ → List (Queue A) → List (Queue A) × Option A
  take_from q [] = ([], none)
  take_from q (s ∷ subs) =
      let (subs', event) = take_from q subs in
      if nat_eq s.ident q
      then elim s.events [
        | [] ↦ (s ∷ subs, none)
        | e ∷ rest ↦ (record s { events = rest } ∷ subs, some e)
      ]
      else (s ∷ subs', event)

  unfoldable pub receive : Broker A → ℕ → Broker A × Option A
  unfolding take_from
  receive b q =
      let (subs, event) = take_from q b.subscribers in (record b { subscribers = subs }, event)
