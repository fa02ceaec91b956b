-- ===== src/Storage/Errors.antt =====
-- The errors of the store, and how the messages of the database engine are sorted into them.
use skall.Base.{Bool, ◌||◌, if◌then◌else◌}
use skall.Bytes.{Bytes, lit, contains_text, to_lower}
use skall.Protocol.Message.{MessageError}

-- `database` wraps any other message of the engine.
pub data StoreError : Type 0 where
  group_id_required group_name_required peer_id_required message_id_required : StoreError
  message_status_required peer_ids_required duplicate_message no_rows corrupted_database :
      StoreError
  database : Bytes → StoreError
  invalid_message : MessageError → StoreError

-- isCorruptionErr
unfoldable pub is_corruption_err : Bytes → Bool
is_corruption_err text =
    let msg = to_lower text in
    contains_text msg (lit "file is not a database")
    || contains_text msg (lit "database disk image is malformed")
    || contains_text msg (lit "malformed")

-- isDuplicateErr
unfoldable pub is_duplicate_err : Bytes → Bool
is_duplicate_err text =
    let msg = to_lower text in
    contains_text msg (lit "unique constraint failed")
    || contains_text msg (lit "constraint failed")

-- classifyDBError on an error that is there
unfoldable pub classify_db_error : Bytes → StoreError
classify_db_error text = if is_corruption_err text then corrupted_database else database text

-- The messages of the engine for a primary key that is taken and for a missing parent row.
abbrev pub unique_failed : Bytes
unique_failed = lit "UNIQUE constraint failed: messages.message_id"

abbrev pub foreign_key_failed : Bytes
foreign_key_failed = lit "FOREIGN KEY constraint failed"
