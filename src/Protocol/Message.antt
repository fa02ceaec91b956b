-- ===== src/Protocol/Message.antt =====
-- The message record and Validate (internal/protocol/message.go), in the order of the checks of the
-- source. A Go string type such as `Type` holds any text; the four names are constants. A time is a
-- number of nanoseconds, and 0 is the zero time. Lengths count bytes.
pub mod Valid
use skall.Base.{
  ℕ, ◌≡◌, Bool, true, false, ◌||◌, ◌&&◌, not, Option, none, some, nat_eq, ltb, length,
  if◌then◌else◌, ◌==◌, Result, ok, err,
}
use skall.Bytes.{Bytes, Bytes-eq, lit, is_empty, trim_space}

abbrev pub max_body_len : ℕ
max_body_len = 65536

abbrev pub max_id_len : ℕ
max_id_len = 256

abbrev pub max_sender_id_len : ℕ
max_sender_id_len = 512

abbrev pub protocol_version : ℕ
protocol_version = 1

abbrev pub type_chat : Bytes
type_chat = lit "chat"

abbrev pub type_join : Bytes
type_join = lit "join"

abbrev pub type_leave : Bytes
type_leave = lit "leave"

abbrev pub type_system : Bytes
type_system = lit "system"

pub record Message : Type 0 where
  pub version : ℕ
  pub id : Bytes
  pub type : Bytes
  pub sender_id : Bytes
  pub recipient_id : Bytes
  pub group_id : Bytes
  pub timestamp : ℕ
  pub body : Bytes

-- The errors by their wrapped sentinel, which is what errors.Is looks at.
pub data MessageError : Type 0 where
  invalid_json missing_required unsupported_version unknown_type field_too_long : MessageError

-- strings.TrimSpace(s) == ""
unfoldable pub is_blank : Bytes → Bool
is_blank s = is_empty (trim_space s)

unfoldable pub is_known_type : Bytes → Bool
is_known_type t = t == type_chat || t == type_join || t == type_leave || t == type_system

unfoldable pub check_lengths : Message → Option MessageError
check_lengths m =
    if ltb max_id_len (length m.id)
    then some field_too_long
    else if ltb max_sender_id_len (length m.sender_id)
    then some field_too_long
    else if ltb max_sender_id_len (length m.recipient_id)
    then some field_too_long
    else if ltb max_sender_id_len (length m.group_id)
    then some field_too_long
    else if ltb max_body_len (length m.body)
    then some field_too_long
    else none

-- Validate: nil is `none`.
unfoldable pub validate : Message → Option MessageError
validate m =
    if not (nat_eq m.version protocol_version)
    then some unsupported_version
    else if is_blank m.id || is_blank m.sender_id || is_blank m.body
    then some missing_required
    else if not (is_known_type m.type)
    then some unknown_type
    else if nat_eq m.timestamp 0
    then some missing_required
    else check_lengths m

-- encoding/json on messages: the two functions that the sources call, and what they rely on. What
-- is encodable (valid UTF-8, a year of four digits) comes back as it was.
pub record Json : Type 1 where
  pub marshal : Message → Bytes
  pub unmarshal : Bytes → Option Message
  pub Encodable : Message → Type 0
  pub unmarshal-marshal : (m : Message) → Encodable m → unmarshal (marshal m) ≡ some m

module _ (json : Json) where
  -- MarshalMessage, of a message that json.Marshal accepts.
  unfoldable pub marshal_message : Message → Result MessageError Bytes
  marshal_message m = elim (validate m) [ some e ↦ err e | none ↦ ok (json.marshal m) ]

  unfoldable pub unmarshal_message : Bytes → Result MessageError Message
  unmarshal_message b = elim (json.unmarshal b) [
    | none ↦ err invalid_json
    | some m ↦ elim (validate m) [ some e ↦ err e | none ↦ ok m ]
  ]

-- NewChatMessage: `now` is time.Now().UTC() and `format` is strconv.FormatInt(_, 10).
unfoldable pub new_chat_message : (ℕ → Bytes) → ℕ → Bytes → Bytes → Bytes → Bytes → Message
new_chat_message format now sender recipient group text = record {
  version = protocol_version;
  id = format now;
  type = type_chat;
  sender_id = sender;
  recipient_id = recipient;
  group_id = group;
  timestamp = now;
  body = text;
}
