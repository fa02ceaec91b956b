-- ===== src/P2p/Host.antt =====
-- The streams of Node (internal/network/p2p/host.go). What libp2p answers is a parameter.
use mathlib.Core.List.{append-nil}
use skall.Base.{
  ◌≡◌, ◌≤◌, ◌<◌, Bool, true, false, not, Option, none, some, [], length, if◌then◌else◌, ◌==◌,
  Result, ok, err, ap, sym, ◌∙◌,
}
use skall.Bytes.{Bytes, Bytes-eq}
use skall.Protocol.Message.{Message, Json}
use skall.Protocol.Message.Valid.{IsValid}
use skall.Protocol.Framing.{FrameError, max_frame_size, write_message, read_message}
use skall.Protocol.Framing.RoundTrip.{read_message-write_message}

-- Whether NewStream and SetDeadline succeed.
pub record Stream : Type 0 where
  pub opens : Bool
  pub deadline : Bool

pub data HostError : Type 0 where
  to_self no_stream no_deadline : HostError
  not_written : FrameError → HostError

abbrev pub sent_over : Result FrameError Bytes → Result HostError Bytes
sent_over (err e) = err (not_written e)
sent_over (ok bytes) = ok bytes

abbrev pub received_in : Result FrameError Message → Option Message
received_in (err e) = none
received_in (ok m) = some m

module _ (json : Json) where
  -- Node.SendMessage: the bytes on the stream
  unfoldable pub send_message : Stream → Bytes → Bytes → Message → Result HostError Bytes
  send_message s self peer_id m =
      if peer_id == self
      then err to_self
      else if not s.opens
      then err no_stream
      else if not s.deadline
      then err no_deadline
      else sent_over (write_message json m)

  -- Node.handleStream: the message that the handler is called with
  unfoldable pub handle_stream : Bool → Bytes → Option Message
  handle_stream deadline input =
      if not deadline then none else received_in (read_message json input).0

  -- A valid message that the codec can carry, in at least one byte and at most 1 MiB of JSON, sent to another peer on a stream that opens, is what the
  -- handler of that peer is called with.
  pub handle_stream-send_message :
      (self peer_id : Bytes) (m : Message)
      → json.Encodable m
      → IsValid m
      → 0 < length (json.marshal m)
      → length (json.marshal m) ≤ max_frame_size
      → (peer_id == self) ≡ false
      → (bytes : Bytes) × (send_message (record { opens = true; deadline = true }) self peer_id m
          ≡ ok bytes)
        × (handle_stream true bytes ≡ some m)
  unfolding send_message handle_stream
  handle_stream-send_message self peer_id m encodable valid some_bytes fits other =
      let (frame, sent, read) =
        read_message-write_message json m [] encodable valid some_bytes fits in
      (
        frame,
        rw other (ap sent_over sent),
        ap (λ b. received_in (read_message json b).0) (sym (append-nil frame))
            ∙ ap (λ r. received_in r.0) read,
      )
