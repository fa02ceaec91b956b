-- ===== src/Protocol/Message/Valid.antt =====
-- What a message that passes Validate is, exactly.
use skall.Base.{◌≡◌, ◌≢◌, ◌≤◌, ◌⊎◌, ◌↔◌, true, false, none, length, arith, eq_iff, ok}
use skall.Bytes.{Bytes, Bytes-eq}
use skall.Protocol.Message.{
  Message, Json, validate, check_lengths, is_known_type, is_blank, marshal_message,
  unmarshal_message, max_body_len, max_id_len, max_sender_id_len, protocol_version, type_chat,
  type_join, type_leave, type_system,
}

-- The conditions on a message, as the comments of the source put them.
pub record IsValid (m : Message) : Type 0 where
  pub version_known : m.version ≡ protocol_version
  pub id_given : is_blank m.id ≡ false
  pub sender_given : is_blank m.sender_id ≡ false
  pub body_given : is_blank m.body ≡ false
  pub type_known :
      (m.type ≡ type_chat) ⊎ (m.type ≡ type_join) ⊎ (m.type ≡ type_leave) ⊎ (m.type ≡ type_system)
  pub dated : m.timestamp ≢ 0
  pub id_fits : length m.id ≤ max_id_len
  pub sender_fits : length m.sender_id ≤ max_sender_id_len
  pub recipient_fits : length m.recipient_id ≤ max_sender_id_len
  pub group_fits : length m.group_id ≤ max_sender_id_len
  pub body_fits : length m.body ≤ max_body_len

is_known_type_iff :
    (t : Bytes)
    → (is_known_type t ≡ true)
      ↔ ((t ≡ type_chat) ⊎ (t ≡ type_join) ⊎ (t ≡ type_leave) ⊎ (t ≡ type_system))
unfolding is_known_type
is_known_type_iff t =
    ground
      (arith, eq_iff t type_chat, eq_iff t type_join, eq_iff t type_leave, eq_iff t type_system)

check_lengths_sound :
    (m : Message)
    → check_lengths m ≡ none
    → (length m.id ≤ max_id_len)
      × (length m.sender_id ≤ max_sender_id_len)
      × (length m.recipient_id ≤ max_sender_id_len)
      × (length m.group_id ≤ max_sender_id_len)
      × (length m.body ≤ max_body_len)
unfolding check_lengths
check_lengths_sound m h = ground arith

validate_sound : (m : Message) → validate m ≡ none → IsValid m
unfolding validate
validate_sound m h = ground (arith, is_known_type_iff m.type, check_lengths_sound m)

check_lengths_complete : (m : Message) → IsValid m → check_lengths m ≡ none
unfolding check_lengths
check_lengths_complete m v = ground arith

validate_complete : (m : Message) → IsValid m → validate m ≡ none
unfolding validate
validate_complete m v = ground (arith, is_known_type_iff m.type, check_lengths_complete m v)

-- Validate returns nil for exactly the messages that meet every condition.
pub validate_iff : (m : Message) → (validate m ≡ none) ↔ IsValid m
validate_iff m = (validate_sound m, validate_complete m)

module _ (json : Json) where
  -- What UnmarshalMessage accepts is valid, whatever the bytes are.
  pub unmarshal_message-IsValid :
      (b : Bytes) {m : Message} → unmarshal_message json b ≡ ok m → IsValid m
  unfolding unmarshal_message
  unmarshal_message-IsValid b {m} h = validate_sound m (ground arith)

  -- An encodable valid message survives MarshalMessage and UnmarshalMessage.
  pub unmarshal_message-marshal_message :
      (m : Message)
      → json.Encodable m
      → IsValid m
      → (marshal_message json m ≡ ok (json.marshal m))
        × (unmarshal_message json (json.marshal m) ≡ ok m)
  unfolding marshal_message unmarshal_message
  unmarshal_message-marshal_message m c v =
      let valid = validate_complete m v in
      (ground arith, ground (arith, json.unmarshal-marshal m c))

  marshal_message-IsValid :
      (m : Message) {b : Bytes} → marshal_message json m ≡ ok b → IsValid m × (b ≡ json.marshal m)
  unfolding marshal_message
  marshal_message-IsValid m h = (validate_sound m (ground arith), ground arith)
