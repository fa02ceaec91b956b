-- ===== src/Discovery/Connector.antt =====
-- Connector (internal/network/discovery/connector.go) over the modelled connection.Manager.
use skall.Base.{ℕ, List, [], ◌∷◌, if◌then◌else◌}
use skall.Discovery.Peer.{
  PeerInfo, EventType, Event, peer_added, peer_removed, other_event, is_valid, endpoint,
}
use skall.Connection.Manager.{Manager, connect, disconnect}

unfoldable pub handle_valid : ℕ → EventType → PeerInfo → Manager → Manager
handle_valid now peer_added p m = (connect m now p.peer_id (endpoint p)).0
handle_valid now peer_removed p m = (disconnect m p.peer_id).0
handle_valid now other_event p m = m

-- Connector.handle: errors are logged.
unfoldable pub handle : ℕ → Event → Manager → Manager
handle now ev m = if is_valid ev.peer then handle_valid now ev.type ev.peer m else m

-- Connector.Run over the events that come before the channel closes or the context ends, each with the
-- time at which it is handled.
unfoldable pub run : List (ℕ × Event) → Manager → Manager
run [] m = m
run ((now, ev) ∷ events) m = run events (handle now ev m)
