-- ===== src/Ui/Listener.antt =====
-- How the terminal interface listens for events (internal/ui/app.go) on the subscribers of the chat service
-- (internal/chat/p2p_service.go).
use skall.Base.{ℕ, Option, none, some, List, [], ◌∷◌, if◌then◌else◌, ℕ-eq}
use skall.Dict.{put}
use skall.Chat.Subscribers.{Channel, Subscribers, subscribe}

-- The select of listenEvents on its channel: an event, or, for a closed channel without events, no message
-- and no further listening.
pub data Heard (E : Type 0) : Type 0 where
  event : E → Heard E
  waits silent : Heard E

module _ {E : Type 0} where
  unfoldable pub receive : Option (Channel E) → Heard E
  receive none = waits
  receive (some c) = elim c.queue [
    | ev ∷ queue ↦ event ev
    | [] ↦ if c.closed then silent else waits
  ]

  -- listenEvents: a new subscription, each time that it is called.
  unfoldable pub listen_events : Subscribers E → Subscribers E × ℕ
  listen_events s = subscribe s

  -- The subscribers after an event is taken from a channel.
  unfoldable pub taken : ℕ → Channel E → List E → Subscribers E → Subscribers E
  taken ch c queue s = record s { channels = put ch (record c { queue = queue }) s.channels }
