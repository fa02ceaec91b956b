-- ===== src/Protocol/Framing/Limits.antt =====
-- What ReadMessage does with any bytes at all.
use skall.Base.{ℕ, ◌+◌, ◌≡◌, ◌≤◌, ◌<◌, refl, [], ◌∷◌, arith, length, length-drop, Result, ok, err}
use skall.Bytes.{Bytes}
use skall.Protocol.Message.{Message, Json}
use skall.Protocol.Message.Valid.{IsValid, unmarshal_message-IsValid}
use skall.Protocol.Framing.{
  FrameError, frame_too_large, uint32, read_full, decode_payload, after_header, read_payload,
  read_message, max_frame_size, frame_header_size,
}

read_full_consumed :
    (n : ℕ) (input : Bytes)
    → (length (read_full n input).1 ≤ length input)
      × (length input ≤ length (read_full n input).1 + n)
unfolding read_full
read_full_consumed n input = ground (arith, length-drop n input)

module _ (json : Json) where
  decode_payload_consumed :
      (read : Result FrameError Bytes) (rest : Bytes) → (decode_payload json read rest).1 ≡ rest
  unfolding decode_payload
  decode_payload_consumed (err e) rest = refl
  decode_payload_consumed (ok b) rest = ground arith

  read_payload_consumed :
      (n : ℕ) (input : Bytes)
      → (length (read_payload json n input).1 ≤ length input)
        × (length input ≤ length (read_payload json n input).1 + max_frame_size)
  unfolding read_payload
  read_payload_consumed n input = ground (
    arith,
    read_full_consumed n input,
    decode_payload_consumed (read_full n input).0 (read_full n input).1,
  )

  after_header_consumed :
      (read : Result FrameError Bytes) (rest : Bytes)
      → (length (after_header json read rest).1 ≤ length rest)
        × (length rest ≤ length (after_header json read rest).1 + max_frame_size)
  unfolding after_header
  after_header_consumed (err e) rest = omega arith
  after_header_consumed (ok header) rest = read_payload_consumed (uint32 header) rest

  -- A read takes at most 4 bytes and 1 MiB from the stream, whatever length a peer declares, and
  -- puts nothing back.
  read_message_consumed :
      (input : Bytes)
      → (length (read_message json input).1 ≤ length input)
        × (length input ≤ length (read_message json input).1 + frame_header_size + max_frame_size)
  unfolding read_message
  read_message_consumed input =
      let r = read_full frame_header_size input in
      omega (arith, read_full_consumed frame_header_size input, after_header_consumed r.0 r.1)

  decode_payload-IsValid :
      (read : Result FrameError Bytes) (rest : Bytes) {m : Message}
      → (decode_payload json read rest).0 ≡ ok m
      → IsValid m
  unfolding decode_payload
  decode_payload-IsValid (err e) rest h = absurd (ground arith)
  decode_payload-IsValid (ok b) rest {m} h = unmarshal_message-IsValid json b (ground arith)

  read_payload-IsValid :
      (n : ℕ) (input : Bytes) (m : Message) → (read_payload json n input).0 ≡ ok m → IsValid m
  read_payload-IsValid n input m h =
      decode_payload-IsValid (read_full n input).0 (read_full n input).1
        (unfold read_payload in ground arith)

  after_header-IsValid :
      (read : Result FrameError Bytes) (rest : Bytes) {m : Message}
      → (after_header json read rest).0 ≡ ok m
      → IsValid m
  unfolding after_header
  after_header-IsValid (err e) rest h = absurd (ground arith)
  after_header-IsValid (ok header) rest {m} h = read_payload-IsValid (uint32 header) rest m h

  -- Whatever the bytes on the stream, a message that ReadMessage returns is valid.
  pub read_message-IsValid :
      (input : Bytes) {m : Message} → (read_message json input).0 ≡ ok m → IsValid m
  unfolding read_message
  read_message-IsValid input h =
      let r = read_full frame_header_size input in after_header-IsValid r.0 r.1 h

  -- A frame that declares more than 1 MiB is refused with nothing of it read or allocated.
  read_message_too_large :
      (a b c d : ℕ) (rest : Bytes)
      → max_frame_size < uint32 (a ∷ b ∷ c ∷ d ∷ [])
      → read_message json (a ∷ b ∷ c ∷ d ∷ rest) ≡ (err frame_too_large, rest)
  unfolding read_message after_header read_payload read_full
  read_message_too_large a b c d rest h = ground arith

  read_full_shorter :
      (n : ℕ) (input : Bytes) {b : Bytes}
      → (read_full n input).0 ≡ ok b
      → length (read_full n input).1 + n ≡ length input
  unfolding read_full
  read_full_shorter n input h = ground (arith, length-drop n input)

  after_header_shorter :
      (read : Result FrameError Bytes) (rest : Bytes) (n : ℕ) {m : Message}
      → ((b : Bytes) → read ≡ ok b → length rest + 4 ≡ n)
      → (after_header json read rest).0 ≡ ok m
      → length (after_header json read rest).1 < n
  unfolding after_header
  after_header_shorter (err e) rest n took h = absurd (ground arith)
  after_header_shorter (ok header) rest n took h =
      omega (arith, took header refl, read_payload_consumed (uint32 header) rest)

  -- A message that ReadMessage returns took bytes from the stream.
  pub read_message_shorter :
      (input : Bytes) {m : Message}
      → (read_message json input).0 ≡ ok m
      → length (read_message json input).1 < length input
  unfolding read_message
  read_message_shorter input h =
      let r = read_full frame_header_size input in
      after_header_shorter r.0 r.1 (length input) (λ b. read_full_shorter frame_header_size input) h
