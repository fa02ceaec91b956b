-- ===== src/Chat/Subscribers.antt =====
-- The subscribers of P2PService: channels with a buffer, at most maxSubs of them. A channel has a number;
-- `none` is a panic, a send on a closed channel or the close of one.
use skall.Base.{
  ℕ, suc, Bool, true, false, Option, none, some, List, [], ◌∷◌, ◌++◌, leb, length, contains, ◌==◌,
  ℕ-eq, if◌then◌else◌,
}
use skall.Dict.{Dict, empty, get, put}

abbrev pub subscriber_buf : ℕ
subscriber_buf = 64

abbrev pub max_subs : ℕ
max_subs = 16

pub record Channel (E : Type 0) : Type 0 where
  pub queue : List E
  pub closed : Bool

pub record Subscribers (E : Type 0) : Type 0 where
  pub channels : Dict ℕ (Channel E)
  pub subs : List ℕ
  pub next : ℕ

unfoldable pub remove_first : ℕ → List ℕ → List ℕ
remove_first ch [] = []
remove_first ch (sub ∷ subs) =
    let rest = remove_first ch subs in if sub == ch then subs else sub ∷ rest

module _ {E : Type 0} where
  -- The subscribers of NewP2PService
  abbrev pub no_subscribers : Subscribers E
  no_subscribers = record { channels = empty; subs = []; next = 0 }

  -- close(ch)
  unfoldable pub close_found :
      ℕ → Dict ℕ (Channel E) → Option (Channel E) → Option (Dict ℕ (Channel E))
  close_found ch channels none = none
  close_found ch channels (some c) =
      if c.closed then none else some (put ch (record c { closed = true }) channels)

  unfoldable pub close_channel : ℕ → Dict ℕ (Channel E) → Option (Dict ℕ (Channel E))
  close_channel ch channels = close_found ch channels (get ch channels)

  -- One turn of the loop of publish: an event for a full channel is dropped.
  unfoldable pub send_found :
      E → ℕ → Dict ℕ (Channel E) → Option (Channel E) → Option (Dict ℕ (Channel E))
  send_found ev ch channels none = none
  send_found ev ch channels (some c) =
      if c.closed
      then none
      else if leb subscriber_buf (length c.queue)
      then some channels
      else some (put ch (record c { queue = c.queue ++ ev ∷ [] }) channels)

  unfoldable pub send : E → ℕ → Dict ℕ (Channel E) → Option (Dict ℕ (Channel E))
  send ev ch channels = send_found ev ch channels (get ch channels)

  unfoldable pub for_each :
      (ℕ → Dict ℕ (Channel E) → Option (Dict ℕ (Channel E)))
      → List ℕ
      → Dict ℕ (Channel E)
      → Option (Dict ℕ (Channel E))
  for_each op [] channels = some channels
  for_each op (ch ∷ subs) channels = elim (op ch channels) [
    | none ↦ none
    | some after ↦ for_each op subs after
  ]

  -- Subscribe: the service after it, and the channel, which is closed when there are too many.
  unfoldable pub subscribe : Subscribers E → Subscribers E × ℕ
  subscribe s =
      if leb max_subs (length s.subs)
      then (
        record s {
          channels = put s.next (record { queue = []; closed = true }) s.channels;
          next = suc s.next;
        },
        s.next,
      )
      else (
        record {
          channels = put s.next (record { queue = []; closed = false }) s.channels;
          subs = s.subs ++ s.next ∷ [];
          next = suc s.next;
        },
        s.next,
      )

  -- SubscribeE
  unfoldable pub subscribe_e : Subscribers E → Subscribers E × Option ℕ
  subscribe_e s = if leb max_subs (length s.subs) then (s, none) else (
    record {
      channels = put s.next (record { queue = []; closed = false }) s.channels;
      subs = s.subs ++ s.next ∷ [];
      next = suc s.next;
    },
    some s.next,
  )

  unfoldable pub with_channels :
      Subscribers E → List ℕ → Option (Dict ℕ (Channel E)) → Option (Subscribers E)
  with_channels s subs none = none
  with_channels s subs (some channels) = some (record s { channels = channels; subs = subs })

  -- Unsubscribe
  unfoldable pub unsubscribe : ℕ → Subscribers E → Option (Subscribers E)
  unsubscribe ch s =
      if contains ch s.subs
      then with_channels s (remove_first ch s.subs) (close_channel ch s.channels)
      else some s

  -- publish
  unfoldable pub publish : E → Subscribers E → Option (Subscribers E)
  publish ev s = with_channels s s.subs (for_each (send ev) s.subs s.channels)

  -- Close, as far as the subscribers go
  unfoldable pub close : Subscribers E → Option (Subscribers E)
  close s = with_channels s [] (for_each close_channel s.subs s.channels)
