-- ===== src/Storage/Messages.antt =====
-- Messages: InsertMessage, UpdateMessageStatus, GetMessage, and the two conversations.
use skall.Base.{
  ℕ, Bool, false, ◌||◌, ◌&&◌, Option, none, some, List, [], map, nat_eq, keep, take, if◌then◌else◌,
  ◌==◌, Result, ok, err,
}
use skall.Bytes.{Bytes, Bytes-eq, is_empty, trim_space, bytes_le}
use skall.Dict.{Dict, get, has, put}
use skall.Dict.Sort.{sort}
use skall.Protocol.Message.{Message, validate}
use skall.Storage.Rows.{
  Times, must_parse_time, MessageRow, Store, StoredMessage, direction_inbound, status_pending,
  null_if_empty,
}
use skall.Storage.Errors.{
  StoreError, message_id_required, message_status_required, peer_ids_required, group_id_required,
  duplicate_message, no_rows, invalid_message, classify_db_error, is_duplicate_err, unique_failed,
}

-- The error of an INSERT that failed with this message.
unfoldable pub insert_error : Bytes → StoreError
insert_error text = if is_duplicate_err text then duplicate_message else classify_db_error text

-- A NULL reads as the empty text.
abbrev pub text_of : Option Bytes → Bytes
text_of none = []
text_of (some t) = t

-- group_id IS NULL AND ((sender, recipient) is one way or the other): a comparison with NULL fails.
unfoldable pub is_direct : Bytes → Bytes → Bytes × MessageRow → Bool
is_direct a b (id, row) = elim row.group_id [
  | some g ↦ false
  | none ↦ elim row.recipient_id [
    | none ↦ false
    | some r ↦ (row.sender_id == a && r == b) || (row.sender_id == b && r == a)
  ]
]

-- group_id = ?
unfoldable pub in_group : Bytes → Bytes × MessageRow → Bool
in_group g (id, row) = elim row.group_id [ none ↦ false | some h ↦ h == g ]

-- ORDER BY timestamp ASC, message_id ASC: both are text.
unfoldable pub by_time : Bytes × MessageRow → Bytes × MessageRow → Bool
by_time (i, v) (j, w) =
    if v.timestamp == w.timestamp then bytes_le i j else bytes_le v.timestamp w.timestamp

-- SELECT … WHERE … ORDER BY … LIMIT …
unfoldable pub select :
    (Bytes × MessageRow → Bool) → ℕ → Dict Bytes MessageRow → List (Bytes × MessageRow)
select p limit rows = take limit (sort by_time (keep p rows))

module _ (times : Times) where
  unfoldable pub message_row : Message → Bytes → Bytes → ℕ → MessageRow
  message_row m direction status now = record {
    version = m.version;
    type = m.type;
    sender_id = m.sender_id;
    recipient_id = null_if_empty m.recipient_id;
    group_id = null_if_empty m.group_id;
    timestamp = times.format m.timestamp;
    body = m.body;
    direction = if is_empty direction then direction_inbound else direction;
    status = if is_empty status then status_pending else status;
    created_at = times.format now;
    updated_at = times.format now;
  }

  -- The INSERT of InsertMessage, with its primary key.
  unfoldable pub insert_row : Option Bytes → Store → Bytes → MessageRow → Store × Option StoreError
  insert_row (some fault) s id row = (s, some (insert_error fault))
  insert_row none s id row =
      if has id s.messages
      then (s, some (insert_error unique_failed))
      else (record s { messages = put id row s.messages }, none)

  -- InsertMessage
  unfoldable pub insert_message :
      Option Bytes → ℕ → Store → Message → Bytes → Bytes → Store × Option StoreError
  insert_message fault now s m direction status = elim (validate m) [
    | some e ↦ (s, some (invalid_message e))
    | none ↦ insert_row fault s m.id (message_row m direction status now)
  ]

  -- The UPDATE of UpdateMessageStatus, and the count of its rows.
  unfoldable pub update_row :
      Option MessageRow → ℕ → Store → Bytes → Bytes → Store × Option StoreError
  update_row none now s id status = (s, some no_rows)
  update_row (some row) now s id status = (
    record s {
      messages = put id (record row { status = status; updated_at = times.format now }) s.messages;
    },
    none,
  )

  -- UpdateMessageStatus
  unfoldable pub update_message_status :
      Option Bytes → ℕ → Store → Bytes → Bytes → Store × Option StoreError
  update_message_status fault now s message_id status =
      let id = trim_space message_id in
      if is_empty id
      then (s, some message_id_required)
      else if is_empty status
      then (s, some message_status_required)
      else elim fault [
        | some text ↦ (s, some (classify_db_error text))
        | none ↦ update_row (get id s.messages) now s id status
      ]

  -- scanStoredMessage on a row
  unfoldable pub to_stored : Bytes × MessageRow → StoredMessage
  to_stored (id, row) = record {
    message = record {
      version = row.version;
      id = id;
      type = row.type;
      sender_id = row.sender_id;
      recipient_id = text_of row.recipient_id;
      group_id = text_of row.group_id;
      timestamp = must_parse_time times row.timestamp;
      body = row.body;
    };
    direction = row.direction;
    status = row.status;
    created_at = must_parse_time times row.created_at;
    updated_at = must_parse_time times row.updated_at;
  }

  -- GetMessage: scanStoredMessage wraps the missing row by classifyDBError.
  unfoldable pub get_message : Option Bytes → Store → Bytes → Result StoreError StoredMessage
  get_message fault s message_id =
      let id = trim_space message_id in
      if is_empty id then err message_id_required else elim fault [
        | some text ↦ err (classify_db_error text)
        | none ↦ elim (get id s.messages) [
          | none ↦ err no_rows
          | some row ↦ ok (to_stored (id, row))
        ]
      ]

  -- ListDirectConversation; a limit of 0 stands for one that is not positive.
  unfoldable pub list_direct_conversation :
      Option Bytes → Store → Bytes → Bytes → ℕ → Result StoreError (List StoredMessage)
  list_direct_conversation fault s local remote limit =
      let a = trim_space local in
      let b = trim_space remote in
      if is_empty a || is_empty b then err peer_ids_required else elim fault [
        | some text ↦ err (classify_db_error text)
        | none ↦ ok (
            map to_stored
              (select (is_direct a b) (if nat_eq limit 0 then 100 else limit) s.messages))
      ]

  -- ListGroupConversation
  unfoldable pub list_group_conversation :
      Option Bytes → Store → Bytes → ℕ → Result StoreError (List StoredMessage)
  list_group_conversation fault s group_id limit =
      let g = trim_space group_id in
      if is_empty g then err group_id_required else elim fault [
        | some text ↦ err (classify_db_error text)
        | none ↦
            ok (
              map to_stored
                (select (in_group g) (if nat_eq limit 0 then 100 else limit) s.messages))
      ]
