-- ===== src/Tests/Protocol.antt =====
-- The properties of messages and frames at a chat message.
use skall.Base.{◌≡◌, ◌↔◌, refl, [], ◌∷◌, ◌++◌, arith, length, ok, none, inl}
use skall.Bytes.{Bytes, bytes_eq, lit, trim_space}
use skall.Protocol.Message.{
  Message, type_chat, validate, marshal_message, unmarshal_message, is_blank, is_known_type,
  check_lengths,
}
use skall.Protocol.Message.Valid.{IsValid, validate_iff}
use skall.Protocol.Framing.{
  write_message, read_message, uint32, put_uint32, read_full, after_header, read_payload,
  decode_payload, wrote_suc, failed, write_all, write_payload, write_message_to,
}
use skall.Protocol.Framing.Writing.{write_message_to_ok}
use skall.Protocol.Framing.RoundTrip.{read_message-write_message}
use skall.Protocol.Framing.Limits.{read_message-IsValid}
use skall.Tests.Codec.{json, write_fields, read_fields, message_fields, message_of}

abbrev pub hello : Message
hello = record {
  version = 1;
  id = lit "7";
  type = type_chat;
  sender_id = lit "ann";
  recipient_id = lit "bob";
  group_id = [];
  timestamp = 5;
  body = lit "hi";
}

pub hello-IsValid : IsValid hello
unfolding is_blank trim_space
hello-IsValid = record {
  version_known = refl;
  id_given = refl;
  sender_given = refl;
  body_given = refl;
  type_known = inl refl;
  dated = ground arith;
  id_fits = omega arith;
  sender_fits = omega arith;
  recipient_fits = omega arith;
  group_fits = omega arith;
  body_fits = omega arith;
}

validate_iff_example : (validate hello ≡ none) ↔ IsValid hello
validate_iff_example = validate_iff hello

read_message-write_message_example :
    (frame : Bytes) × (write_message json hello ≡ ok frame)
    × (read_message json (frame ++ 1 ∷ []) ≡ (ok hello, 1 ∷ []))
unfolding write_fields message_fields
read_message-write_message_example =
    read_message-write_message json hello (1 ∷ []) tt hello-IsValid (omega arith) (omega arith)

abbrev frame : Bytes
frame = put_uint32 (length (json.marshal hello)) ++ json.marshal hello

read_message-IsValid_example : IsValid hello
unfolding read_message read_full after_header read_payload decode_payload uint32 put_uint32
    write_fields message_fields read_fields message_of unmarshal_message validate is_blank
    trim_space is_known_type bytes_eq check_lengths
read_message-IsValid_example = read_message-IsValid json frame refl

-- The writer takes three bytes, then at most a hundred with each call.
write_message_to_example :
    write_message json hello
    ≡ ok (write_message_to json (wrote_suc 2 ∷ wrote_suc 99 ∷ wrote_suc 99 ∷ failed ∷ []) hello).0
unfolding write_message_to write_payload write_all marshal_message put_uint32 write_fields
    message_fields validate is_blank trim_space is_known_type bytes_eq check_lengths
write_message_to_example =
    write_message_to_ok json (wrote_suc 2 ∷ wrote_suc 99 ∷ wrote_suc 99 ∷ failed ∷ []) hello
      {left = failed ∷ []} refl
