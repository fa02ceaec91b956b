-- ===== src/Storage/RoundTrip.antt =====
-- InsertMessage and GetMessage together (internal/storage/store.go).
use skall.Base.{
  ℕ, ◌≡◌, ◌≢◌, ◌<◌, refl, false, not, ◌&&◌, ◌==◌, none, some, [], ◌∷◌, arith, eq_iff, if◌then◌else◌,
  ok, err,
}
use skall.Bytes.{Bytes, Bytes-eq, is_empty, trim_space, contains_text, to_lower}
use skall.Dict.{get, has, put, get-put, get-put_self}
use skall.Protocol.Message.{Message, validate, is_blank}
use skall.Protocol.Message.Valid.{IsValid, validate_iff}
use skall.Storage.Rows.{
  Times, year_10000, must_parse_time-format, Store, StoredMessage, null_if_empty, direction_inbound,
  status_pending,
}
use skall.Storage.Errors.{duplicate_message, no_rows, is_duplicate_err, unique_failed}
use skall.Storage.Messages.{
  insert_error, insert_message, insert_row, message_row, update_message_status, update_row,
  get_message, to_stored, text_of,
}

-- NULL and the empty text are one on the way back.
text_of-null_if_empty : (v : Bytes) → text_of (null_if_empty v) ≡ trim_space v
unfolding null_if_empty
text_of-null_if_empty v = go (trim_space v)
  where
    go : (t : Bytes) → text_of (if is_empty t then none else some t) ≡ t
    go [] = refl
    go (b ∷ t) = refl

insert_error_unique : insert_error unique_failed ≡ duplicate_message
unfolding insert_error is_duplicate_err contains_text to_lower
insert_error_unique = refl

-- What comes back for a message: its recipient and its group trimmed, the rest as it was.
unfoldable pub stored_as : Message → Bytes → Bytes → ℕ → StoredMessage
stored_as m direction status now = record {
  message = record m { recipient_id = trim_space m.recipient_id; group_id = trim_space m.group_id };
  direction = if is_empty direction then direction_inbound else direction;
  status = if is_empty status then status_pending else status;
  created_at = now;
  updated_at = now;
}

module _ (times : Times) where
  to_stored-message_row :
      (m : Message) (direction status : Bytes) (now : ℕ)
      → m.timestamp < year_10000
      → now < year_10000
      → to_stored times (m.id, message_row times m direction status now)
        ≡ stored_as m direction status now
  unfolding to_stored message_row stored_as
  to_stored-message_row m direction status now dated clock = ground (
    arith,
    text_of-null_if_empty m.recipient_id,
    text_of-null_if_empty m.group_id,
    must_parse_time-format times m.timestamp dated,
    must_parse_time-format times now clock,
  )

  -- With a working engine, InsertMessage of a valid message stores its row when the id is new, and
  -- reports a duplicate when it is not. No other row changes, and no row is overwritten.
  pub insert_message_lem :
      (now : ℕ) (s : Store) (m : Message) (direction status j : Bytes)
      → IsValid m
      → let r = insert_message times none now s m direction status in
        (r.1 ≡ (if has m.id s.messages then some duplicate_message else none))
        × (get j r.0.messages ≡ (
            if m.id == j && not (has m.id s.messages)
            then some (message_row times m direction status now)
            else get j s.messages))
  unfolding insert_message insert_row
  insert_message_lem now s m direction status j v =
      let valid = (validate_iff m).1 v in
      let there = get-put j m.id (message_row times m direction status now) s.messages in
      (ground (arith, insert_error_unique), ground (arith, there, eq_iff m.id j))

  -- What an InsertMessage that returns nil has done.
  insert_message_ok :
      (now : ℕ) (s : Store) (m : Message) (direction status : Bytes)
      → (insert_message times none now s m direction status).1 ≡ none
      → (is_empty (trim_space m.id) ≡ false)
        × ((insert_message times none now s m direction status).0 ≡ record s {
          messages = put m.id (message_row times m direction status now) s.messages;
        })
  unfolding insert_message insert_row is_blank
  insert_message_ok now s m direction status h =
      let valid : validate m ≡ none = ground arith in
      (((validate_iff m).0 valid).id_given, ground arith)

  -- GetMessage returns what InsertMessage stored, for an id with no white space at its ends and times
  -- before the year 10000.
  pub get_message-insert_message :
      (now : ℕ) (s : Store) (m : Message) (direction status : Bytes)
      → trim_space m.id ≡ m.id
      → m.timestamp < year_10000
      → now < year_10000
      → (insert_message times none now s m direction status).1 ≡ none
      → get_message times none (insert_message times none now s m direction status).0 m.id
        ≡ ok (stored_as m direction status now)
  unfolding get_message
  get_message-insert_message now s m direction status t dated clock h =
      let (given, after) = insert_message_ok now s m direction status h in
      let row = message_row times m direction status now in
      rw after (
        ground (
          arith,
          t,
          given,
          get-put_self m.id row s.messages,
          to_stored-message_row m direction status now dated clock,
        ))

  -- An id with white space at an end is stored as it is and looked up trimmed: a message that
  -- InsertMessage accepted can then be neither read nor updated.
  pub padded_id_lost :
      (now : ℕ) (s : Store) (m : Message) (direction status next : Bytes)
      → trim_space m.id ≢ m.id
      → has (trim_space m.id) s.messages ≡ false
      → is_empty next ≡ false
      → (insert_message times none now s m direction status).1 ≡ none
      → let s' = (insert_message times none now s m direction status).0 in
        (get_message times none s' m.id ≡ err no_rows)
        × (update_message_status times none now s' m.id next ≡ (s', some no_rows))
  unfolding get_message update_message_status update_row
  padded_id_lost now s m direction status next t fresh n h =
      let (given, after) = insert_message_ok now s m direction status h in
      let row = message_row times m direction status now in
      let missing : get (trim_space m.id) (put m.id row s.messages) ≡ none =
        ground
          (arith, get-put (trim_space m.id) m.id row s.messages, eq_iff m.id (trim_space m.id)) in
      rw after (ground (arith, given, missing), ground (arith, given, missing))
