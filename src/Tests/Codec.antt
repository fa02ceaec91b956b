-- ===== src/Tests/Codec.antt =====
-- Functions that stand for encoding/json, for time.Format and for the cryptography: a codec that writes
-- each field after its length, a time as one number, and keys that are their own hashes.
use skall.Base.{
  ℕ, zero, suc, ◌≡◌, refl, ap, Option, none, some, List, [], ◌∷◌, ◌++◌, length, take, drop,
  take-append_self, drop-append_self,
}
use skall.Bytes.{Bytes}
use skall.Protocol.Message.{Message, Json}
use skall.Identity.{Identity, Crypto}
use skall.Identity.File.{IdentityJson}
use skall.Storage.Rows.{Times}

unfoldable pub write_fields : List Bytes → Bytes
write_fields [] = []
write_fields (s ∷ fields) = length s ∷ s ++ write_fields fields

unfoldable pub read_fields : ℕ → Bytes → List Bytes
read_fields zero input = []
read_fields (suc k) [] = []
read_fields (suc k) (n ∷ input) = take n input ∷ read_fields k (drop n input)

read_fields-write_fields :
    (fields : List Bytes) → read_fields (length fields) (write_fields fields) ≡ fields
unfolding read_fields write_fields
read_fields-write_fields [] = refl
read_fields-write_fields (s ∷ fields) =
    rw (take-append_self s (write_fields fields), drop-append_self s (write_fields fields))
      (ap (λ (r : List Bytes). s ∷ r) (read_fields-write_fields fields))

unfoldable pub message_of : List Bytes → Option Message
message_of ((v ∷ t ∷ []) ∷ id ∷ type ∷ sender ∷ recipient ∷ group ∷ body ∷ []) = some (record {
  version = v;
  id = id;
  type = type;
  sender_id = sender;
  recipient_id = recipient;
  group_id = group;
  timestamp = t;
  body = body;
})
message_of _ = none

unfoldable pub message_fields : Message → List Bytes
message_fields m =
    (m.version ∷ m.timestamp ∷ [])
    ∷ m.id
    ∷ m.type
    ∷ m.sender_id
    ∷ m.recipient_id
    ∷ m.group_id
    ∷ m.body
    ∷ []

pub message_of-message_fields :
    (m : Message) → message_of (read_fields 7 (write_fields (message_fields m))) ≡ some m
unfolding message_fields message_of
message_of-message_fields m = ap message_of (read_fields-write_fields (message_fields m))

abbrev pub json : Json
json = record {
  marshal = λ m. write_fields (message_fields m);
  unmarshal = λ b. message_of (read_fields 7 b);
  Encodable = λ m. Unit;
  unmarshal-marshal = λ m e. message_of-message_fields m;
}

unfoldable pub identity_of : List Bytes → Option Identity
identity_of ((v ∷ t ∷ []) ∷ peer ∷ user ∷ display ∷ public ∷ private ∷ []) = some (record {
  version = v;
  peer_id = peer;
  username = user;
  display_name = display;
  created_at = t;
  public_key = public;
  private_key = private;
})
identity_of _ = none

unfoldable pub identity_fields : Identity → List Bytes
identity_fields i =
    (i.version ∷ i.created_at ∷ [])
    ∷ i.peer_id
    ∷ i.username
    ∷ i.display_name
    ∷ i.public_key
    ∷ i.private_key
    ∷ []

pub identity_of-identity_fields :
    (i : Identity) → identity_of (read_fields 6 (write_fields (identity_fields i))) ≡ some i
unfolding identity_fields identity_of
identity_of-identity_fields i = ap identity_of (read_fields-write_fields (identity_fields i))

abbrev pub identity_json : IdentityJson
identity_json = record {
  encode = λ i. some (write_fields (identity_fields i));
  decode = λ b. identity_of (read_fields 6 b);
  Encodable = λ i. Unit;
  decode-encode = λ i c. (write_fields (identity_fields i), refl, identity_of-identity_fields i);
}

abbrev pub parse_time : Bytes → Option ℕ
parse_time (t ∷ []) = some t
parse_time _ = none

abbrev pub times : Times
times = record {
  format = λ t. t ∷ [];
  parse = parse_time;
  parse-format = λ t h. refl;
  format_given = λ t. refl;
}

abbrev pub crypto : Crypto
crypto = record { public_of = λ k. take 32 k; hex_sha256 = λ k. k }
