-- ===== src/Chat/Inbound.antt =====
-- handleInbound and monitorPeers (internal/chat/p2p_service.go).
use skall.Base.{
  ℕ, Bool, true, false, not, Option, none, some, List, [], ◌∷◌, length, ltb, nat_eq, if◌then◌else◌,
}
use skall.Bytes.{Bytes, Bytes-eq, is_empty}
use skall.Protocol.Message.{Message}
use skall.Storage.Rows.{Times, Store, direction_inbound, status_received}
use skall.Storage.Peers.{upsert_peer}
use skall.Storage.Messages.{insert_message}
use skall.Chat.Node.{
  Node, Event, DisplayMessage, ConnectionStatus, connecting, connected, disconnected, new_message,
  peer_connected, status_changed, max_peer_id_len, get_peer_name, published,
}

unfoldable pub status_eq : ConnectionStatus → ConnectionStatus → Bool
status_eq disconnected disconnected = true
status_eq connecting connecting = true
status_eq connected connected = true
status_eq _ _ = false

-- The message as the event shows it: under the ID that libp2p has authenticated.
unfoldable pub inbound_display : Node → Message → Bytes → DisplayMessage
inbound_display n m from = record {
  id = m.id;
  sender_id = from;
  sender_name = get_peer_name n from;
  body = m.body;
  timestamp = m.timestamp;
  is_outbound = false;
}

abbrev pub then_publish : Bool → Event → Option Node → Option Node
then_publish test ev none = none
then_publish test ev (some n) = if test then published ev n else some n

module _ (times : Times) where
  -- UpsertPeer and InsertMessage, whose errors are only logged.
  unfoldable pub persist_inbound : Option Bytes → Option Bytes → ℕ → Message → Bytes → Node → Node
  persist_inbound peer_fault fault now m from n =
      let s = (upsert_peer times peer_fault now n.store from from now).0 in
      record n { store = (insert_message times fault now s m direction_inbound status_received).0 }

  -- handleInbound
  unfoldable pub handle_inbound :
      Option Bytes → Option Bytes → ℕ → Message → Bytes → Node → Option Node
  handle_inbound peer_fault fault now m from n =
      if ltb max_peer_id_len (length from)
      then some n
      else (let n' = persist_inbound peer_fault fault now m from n in
          published
            (new_message (if is_empty m.group_id then from else m.group_id)
              (inbound_display n' m from))
            n')

  -- The loop of monitorPeers over the connected peers; `fault` is what the database answers for each.
  unfoldable pub upsert_each : (Bytes → Option Bytes) → ℕ → List Bytes → Store → Store
  upsert_each fault now [] s = s
  upsert_each fault now (pid ∷ pids) s =
      upsert_each fault now pids (upsert_peer times (fault pid) now s pid pid now).0

  -- One tick of monitorPeers.
  unfoldable pub monitor_tick : (Bytes → Option Bytes) → ℕ → List Bytes → Node → Option Node
  monitor_tick fault now pids n =
      let status = if nat_eq (length pids) 0 then connecting else connected in
      let n' = record n { store = upsert_each fault now pids n.store; status = status } in
      then_publish (not (nat_eq (length pids) n.last_count)) peer_connected (
        then_publish (not (status_eq n.status status)) (status_changed status)
          (some (record n' { last_count = length pids })))
