-- ===== src/Tests/Subscribers.antt =====
-- The properties of the subscribers with two channels, one of them left.
use skall.Base.{ℕ, ◌≢◌, refl, none, [], ◌∷◌, true, false}
use skall.Dict.{get, put}
use skall.Chat.Subscribers.{
  Subscribers, no_subscribers, subscribe, subscribe_e, unsubscribe, publish, close, remove_first,
  close_channel, close_found, with_channels,
}
use skall.Chat.Panics.{Reach, Step, Reach-ne-panics}

abbrev one : Subscribers ℕ
one = (subscribe no_subscribers).0

abbrev two : Subscribers ℕ
two = (subscribe_e one).0

abbrev left : Subscribers ℕ
left = record {
  channels =
      (0, record { queue = []; closed = true }) ∷ (1, record { queue = []; closed = false }) ∷ [];
  subs = 1 ∷ [];
  next = 2;
}

left-Reach : Reach left
unfolding subscribe subscribe_e unsubscribe remove_first close_channel close_found with_channels get
    put
left-Reach =
    Reach.next (Reach.next (Reach.next Reach.start Step.subscribes) Step.subscribes_e)
      (Step.unsubscribes 0 refl)

Reach-ne-panics_example :
    (publish 7 left ≢ none) × (unsubscribe 0 left ≢ none) × (close left ≢ none)
Reach-ne-panics_example = Reach-ne-panics 7 0 left-Reach
