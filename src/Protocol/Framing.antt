-- ===== src/Protocol/Framing.antt =====
-- Length-prefixed frames (internal/protocol/framing.go). A reader is the bytes that are still to
-- come; a writer is the list of what each call of Write will do.
pub mod RoundTrip
pub mod Limits
pub mod Writing
use skall.Base.{
  ℕ, zero, suc, ◌+◌, ◌*◌, ◌/◌, ◌%◌, ◌^◌, Bool, Option, none, some, List, [], ◌∷◌, ◌++◌, nat_eq, ltb,
  length, take, drop, if◌then◌else◌, Result, ok, err,
}
use skall.Bytes.{Bytes}
use skall.Protocol.Message.{
  Message, MessageError, Json, marshal_message, unmarshal_message, invalid_json,
}

abbrev pub frame_header_size : ℕ
frame_header_size = 4

-- 1 MiB
abbrev pub max_frame_size : ℕ
max_frame_size = 1048576

pub data FrameError : Type 0 where
  eof unexpected_eof frame_too_large write_failed : FrameError
  message : MessageError → FrameError

-- binary.BigEndian.PutUint32 of uint32(n)
unfoldable pub put_uint32 : ℕ → Bytes
put_uint32 n = (n / 2 ^ 24 % 256) ∷ (n / 2 ^ 16 % 256) ∷ (n / 2 ^ 8 % 256) ∷ (n % 256) ∷ []

-- binary.BigEndian.Uint32
unfoldable pub uint32 : Bytes → ℕ
uint32 (a ∷ b ∷ c ∷ d ∷ s) = a * 2 ^ 24 + b * 2 ^ 16 + c * 2 ^ 8 + d
uint32 _ = 0

-- io.ReadFull of n bytes: what was read, and what is left.
unfoldable pub read_full : ℕ → Bytes → Result FrameError Bytes × Bytes
read_full n input =
    if nat_eq (length input) 0
    then (if nat_eq n 0 then (ok [], input) else (err eof, []))
    else if ltb (length input) n
    then (err unexpected_eof, [])
    else (ok (take n input), drop n input)

-- What one call of Write does: it fails, or it takes k + 1 bytes, at most all of them.
pub data WriteStep : Type 0 where
  wrote_suc : ℕ → WriteStep
  failed : WriteStep

-- writeAll: the bytes that reached the wire, and the error. A writer that stops answering blocks:
-- `none`.
unfoldable pub write_all :
    List WriteStep → Bytes → Bytes × Option (Result FrameError (List WriteStep))
write_all steps [] = ([], some (ok steps))
write_all [] (b ∷ s) = ([], none)
write_all (failed ∷ steps) (b ∷ s) = ([], some (err write_failed))
write_all (wrote_suc k ∷ steps) (b ∷ s) =
    let rest = write_all steps (drop k s) in (b ∷ take k s ++ rest.0, rest.1)

-- The second writeAll of WriteMessage, on what the first one gave: the bytes that reached the wire, and the
-- error.
unfoldable pub write_payload :
    Bytes
    → Bytes × Option (Result FrameError (List WriteStep))
    → Bytes × Option (Result FrameError (List WriteStep))
write_payload payload (sent, none) = (sent, none)
write_payload payload (sent, some (err e)) = (sent, some (err e))
write_payload payload (sent, some (ok steps)) =
    let rest = write_all steps payload in (sent ++ rest.0, rest.1)

module _ (json : Json) where
  -- WriteMessage to a writer that takes every byte: the bytes on the wire.
  unfoldable pub write_message : Message → Result FrameError Bytes
  write_message m = elim (marshal_message json m) [
    | err e ↦ err (message e)
    | ok payload ↦ ok (put_uint32 (length payload) ++ payload)
  ]

  -- WriteMessage to any writer.
  unfoldable pub write_message_to :
      List WriteStep → Message → Bytes × Option (Result FrameError (List WriteStep))
  write_message_to steps m = elim (marshal_message json m) [
    | err e ↦ ([], some (err (message e)))
    | ok payload ↦ write_payload payload (write_all steps (put_uint32 (length payload)))
  ]

  -- The last step of ReadMessage, on what the second ReadFull gave.
  unfoldable pub decode_payload :
      Result FrameError Bytes → Bytes → Result FrameError Message × Bytes
  decode_payload (err e) rest = (err e, rest)
  decode_payload (ok payload) rest = elim (unmarshal_message json payload) [
    | err e ↦ (err (message e), rest)
    | ok m ↦ (ok m, rest)
  ]

  -- ReadMessage after the header: the checks on the declared length.
  unfoldable pub read_payload : ℕ → Bytes → Result FrameError Message × Bytes
  read_payload n input =
      if nat_eq n 0
      then (err (message invalid_json), input)
      else if ltb max_frame_size n
      then (err frame_too_large, input)
      else let (read, rest) = read_full n input in decode_payload read rest

  unfoldable pub after_header : Result FrameError Bytes → Bytes → Result FrameError Message × Bytes
  after_header (err e) rest = (err e, rest)
  after_header (ok header) rest = read_payload (uint32 header) rest

  -- ReadMessage
  unfoldable pub read_message : Bytes → Result FrameError Message × Bytes
  read_message input =
      let (read, rest) = read_full frame_header_size input in after_header read rest
