-- ===== src/Protocol/Framing/RoundTrip.antt =====
-- WriteMessage and ReadMessage together (internal/protocol/framing.go).
use mathlib.Core.List.{append_assoc}
use skall.Base.{
  ℕ, ◌^◌, ◌≡◌, ◌≤◌, ◌<◌, ◌∙◌, ◌++◌, arith, length, length-append, take-append_self,
  drop-append_self, ok,
}
use skall.Bytes.{Bytes}
use skall.Protocol.Message.{Message, Json, unmarshal_message}
use skall.Protocol.Message.Valid.{IsValid, unmarshal_message-marshal_message}
use skall.Protocol.Framing.{
  frame_header_size, put_uint32, uint32, read_full, write_message, decode_payload, read_payload,
  after_header, read_message, max_frame_size,
}

uint32-put_uint32 : (n : ℕ) → n < 2 ^ 32 → uint32 (put_uint32 n) ≡ n
unfolding uint32 put_uint32
uint32-put_uint32 n h = omega arith

read_full-append : (s rest : Bytes) → 0 < length s → read_full (length s) (s ++ rest) ≡ (ok s, rest)
unfolding read_full
read_full-append s rest h =
    ground (arith, length-append s rest, take-append_self s rest, drop-append_self s rest)

read_full-header :
    (n : ℕ) (rest : Bytes)
    → read_full frame_header_size (put_uint32 n ++ rest) ≡ (ok (put_uint32 n), rest)
unfolding put_uint32
read_full-header n rest = read_full-append (put_uint32 n) rest (omega arith)

module _ (json : Json) where
  read_payload-append :
      (m : Message) (payload rest : Bytes)
      → unmarshal_message json payload ≡ ok m
      → 0 < length payload
      → length payload ≤ max_frame_size
      → read_payload json (length payload) (payload ++ rest) ≡ (ok m, rest)
  unfolding read_payload decode_payload
  read_payload-append m payload rest h p q = ground (arith, read_full-append payload rest p)

  read_header-append :
      (n : ℕ) (rest : Bytes)
      → n < 2 ^ 32
      → read_message json (put_uint32 n ++ rest) ≡ read_payload json n rest
  unfolding read_message after_header
  read_header-append n rest h = rw (read_full-header n rest) (rw (uint32-put_uint32 n h))

  -- A valid message that the codec can carry, in at least one and at most 1 MiB of JSON, is written,
  -- and is then read back as it was, with what follows it on the stream left for the next read.
  pub read_message-write_message :
      (m : Message) (rest : Bytes)
      → json.Encodable m
      → IsValid m
      → 0 < length (json.marshal m)
      → length (json.marshal m) ≤ max_frame_size
      → (frame : Bytes) × (write_message json m ≡ ok frame)
        × (read_message json (frame ++ rest) ≡ (ok m, rest))
  read_message-write_message m rest c v p q =
      let sent = unmarshal_message-marshal_message json m c v in
      let n = length (json.marshal m) in
      (
        put_uint32 n ++ json.marshal m,
        unfold write_message in ground (arith, sent),
        rw append_assoc (
            read_header-append n (json.marshal m ++ rest) (omega arith)
            ∙ read_payload-append m (json.marshal m) rest sent.1 p q),
      )
