-- ===== src/Events/Tests.antt =====
-- The broker on a few events, and the theorems on them.
use sredevopsorg_sec_feed.Prelude.{ℕ, ◌≡◌, refl, none, some, [], ◌∷◌, arith}
use sredevopsorg_sec_feed.Prelude.Int.{pos}
use sredevopsorg_sec_feed.Events.{
  Broker, init, subscribe, unsubscribe, put_nowait, offer, publish, take_from, receive,
}
use sredevopsorg_sec_feed.Events.Cap.{Step, Reach, IsValid, Reach-IsValid}
use sredevopsorg_sec_feed.Events.Delivery.{publish_all, drain, drain-publish_all}

program : Unit {0}
unfolding init subscribe unsubscribe put_nowait offer publish take_from receive publish_all drain
program = tt

abbrev one : Broker ℕ
unfolding program
one = (subscribe (init (pos 1))).0

full_house : (subscribe one).1 ≡ none
unfolding program one
full_house = refl

freed : (subscribe (unsubscribe one 0)).1 ≡ some 1
unfolding program one
freed = refl

one-Reach : Reach (pos 1) one
unfolding one
one-Reach = Reach.next Reach.start Step.subscribes

Reach-IsValid_example : IsValid one
Reach-IsValid_example = Reach-IsValid one-Reach

drain-publish_all_example : drain 2 (publish_all one (7 ∷ 8 ∷ [])) 0 ≡ 7 ∷ 8 ∷ []
unfolding one program
drain-publish_all_example =
    drain-publish_all (init (pos 1)) (7 ∷ 8 ∷ []) (Reach-IsValid Reach.start) refl (omega arith)
