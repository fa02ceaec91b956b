-- ===== src/Client/Session.antt =====
-- persistOutbound, the announcement and the receiving goroutine of StartClient (internal/network/client.go).
use skall.Base.{ℕ, Bool, Option, none, some, [], if◌then◌else◌, ◌==◌}
use skall.Bytes.{Bytes, Bytes-eq, lit, is_empty, to_lower, contains_text}
use skall.Dict.{Dict, get, put, delete}
use skall.Protocol.Message.{Message, protocol_version, type_join, type_leave, type_system}
use skall.Storage.Rows.{
  Times, Store, direction_inbound, direction_outbound, status_pending, status_sent, status_received,
  status_failed,
}
use skall.Storage.Peers.{upsert_peer}
use skall.Storage.Messages.{insert_message, update_message_status}

-- `peers` are the names of the peers that have joined.
pub record Session : Type 0 where
  pub store : Store
  pub peers : Dict Bytes Bytes

-- What the database answers to the two statements of one message, and the clock.
pub record Answers : Type 0 where
  pub first : Option Bytes
  pub second : Option Bytes
  pub now : ℕ

-- The message that announces the client; `id` is the formatted time.
unfoldable pub join_message : Bytes → ℕ → Bytes → Bytes → Message
join_message id now sender_id name = record {
  version = protocol_version;
  id = id;
  type = type_join;
  sender_id = sender_id;
  recipient_id = [];
  group_id = [];
  timestamp = now;
  body = name;
}

-- The name that a message is shown under.
unfoldable pub name_of : Bytes → Option Bytes → Bytes
name_of sender_id none = sender_id
name_of sender_id (some name) = if is_empty name then sender_id else name

-- The status that a system message is stored with; strings.ToLower is that of the letters of ASCII.
unfoldable pub system_status : Bytes → Bytes
system_status body =
    if contains_text (to_lower body) (lit "delivery failed") then status_failed else status_received

module _ (times : Times) where
  -- persistOutbound, when the message is written or not; the flag says that it returns nil.
  unfoldable pub persist_outbound : Answers → Bool → Message → Session → Session × Bool
  persist_outbound ans written m s =
      let kept =
        (insert_message times ans.first ans.now s.store m direction_outbound status_pending).0 in
      let status = if written then status_sent else status_failed in
      (
        record s { store = (update_message_status times ans.second ans.now kept m.id status).0 },
        written,
      )

  -- UpsertPeer and InsertMessage of one received message, whose errors are only printed.
  unfoldable pub keep_message : Answers → Bytes → Message → Store → Store
  keep_message ans name m s =
      let known = (upsert_peer times ans.first ans.now s m.sender_id name m.timestamp).0 in
      (insert_message times ans.second ans.now known m direction_inbound status_received).0

  -- The switch of the receiving goroutine.
  unfoldable pub receive : Answers → Message → Session → Session
  receive ans m s =
      if m.type == type_join
      then record {
        store = keep_message ans m.body m s.store;
        peers = put m.sender_id m.body s.peers;
      }
      else if m.type == type_leave
      then record {
        store = keep_message ans m.sender_id m s.store;
        peers = delete m.sender_id s.peers;
      }
      else if m.type == type_system
      then record s {
        store =
            (insert_message times ans.second ans.now s.store m direction_inbound
              (system_status m.body)).0;
      }
      else record s {
        store = keep_message ans (name_of m.sender_id (get m.sender_id s.peers)) m s.store;
      }
