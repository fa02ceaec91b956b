-- ===== src/Discovery/Calls.antt =====
-- What the events of a connector do to each peer of a connection.Manager
-- (internal/network/discovery/connector.go over internal/network/connection/manager.go).
use skall.Base.{ℕ, ◌&&◌, Option, none, some, List, [], ◌∷◌, if◌then◌else◌, ◌==◌, ℕ-eq}
use skall.Bytes.{Bytes, Bytes-eq}
use skall.Discovery.Peer.{
  EventType, Event, peer_added, peer_removed, other_event, is_valid, endpoint,
}
use skall.Connection.Manager.{
  State, disconnected, connecting, connected, failed, Entry, Manager, trim,
}

-- What Status shows of an entry, but for the times.
abbrev pub shown : Option Entry → Option (Bytes × State)
shown none = none
shown (some entry) = some (entry.endpoint, entry.state)

-- What an event of a peer asks for: a new peer is dialled at its endpoint, one that is connected or being
-- dialled is left alone, and a peer that is gone has no entry.
abbrev pub asked : EventType → Bytes → Option (Bytes × State) → Option (Bytes × State)
asked peer_added at none = some (at, connecting)
asked peer_added at (some (e, disconnected)) = some (at, connecting)
asked peer_added at (some (e, failed)) = some (at, connecting)
asked peer_added at (some (e, connecting)) = some (e, connecting)
asked peer_added at (some (e, connected)) = some (e, connected)
asked peer_removed at o = none
asked other_event at o = o

-- What the events ask for one peer: those that are valid and carry its ID, in their order.
abbrev pub asked_all : Bytes → List (ℕ × Event) → Option (Bytes × State) → Option (Bytes × State)
asked_all p [] o = o
asked_all p ((now, ev) ∷ events) o = asked_all p events (
    if is_valid ev.peer && trim ev.peer.peer_id == p
    then asked ev.type (trim (endpoint ev.peer)) o
    else o)
