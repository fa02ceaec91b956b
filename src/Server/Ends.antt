-- ===== src/Server/Ends.antt =====
-- The end of readLoop, and the close of a client between the test and the send of enqueue
-- (internal/network/client.go).
use skall.Base.{
  ℕ, ◌≡◌, ◌↔◌, ◌<◌, refl, Bool, true, false, Option, none, some, List, [], ◌∷◌, arith, length,
  Result, ok, err,
}
use skall.Bytes.{Bytes}
use skall.Protocol.Message.{Message, Json}
use skall.Protocol.Framing.{FrameError, read_message}
use skall.Protocol.Framing.Limits.{read_message_shorter}
use skall.Server.State.{Client, Server, close_client, remove_client}
use skall.Server.Routing.{send, enqueue_client, interrupted_enqueue}
use skall.Server.Loops.{Turn, handle_message, read_loop}
use skall.Server.Reach.{Reach, next, handles}

-- What readLoop leaves: it has handled messages, and then the client is removed.
abbrev pub Ended : (ℕ → Bytes) → ℕ → Server → Option Server → Type 0
Ended format k s result =
    (t : Server) × (Reach format s → Reach format t) × (result ≡ some (remove_client k t))

-- However the bytes that a client sends are cut into frames, readLoop ends, with the client
-- removed, when it is given more turns than there are bytes; what it did before is steps of the
-- server.
pub read_loop_ends :
    (json : Json) (format : ℕ → Bytes) (turns : List Turn) (k : ℕ) (input : Bytes) (s : Server)
    → length input < length turns
    → Ended format k s (read_loop json format turns k input s)
unfolding read_loop
read_loop_ends json format [] k input s h = absurd (omega arith)
read_loop_ends json format (turn ∷ turns) k input s h = by_armed turn.armed (
    by_read (read_message json input).0 λ m got.
      read_loop_ends json format turns k (read_message json input).1
        (handle_message format k turn m s) (omega (arith, h, read_message_shorter json input got)))
  where
    goes_on : Message → Option Server
    goes_on m =
        read_loop json format turns k (read_message json input).1 (handle_message format k turn m s)

    by_armed :
        (armed : Bool) {goes : Option Server}
        → Ended format k s goes
        → Ended format k s (elim armed [ false ↦ some (remove_client k s) | true ↦ goes ])
    by_armed false h = (s, λ r. r, refl)
    by_armed true h = h

    by_read :
        (read : Result FrameError Message)
        → ((m : Message)
            → read ≡ ok m
            → Ended format k (handle_message format k turn m s) (goes_on m))
        → Ended format k s (elim read [ err e ↦ some (remove_client k s) | ok m ↦ goes_on m ])
    by_read (err e) later = (s, λ r. r, refl)
    by_read (ok m) later =
        let rest = later m refl in (rest.0, λ r. rest.1 (next r (handles k turn m)), rest.2)

-- enqueue panics, with a send on a closed channel, when the client is open at its test and is closed before
-- its select, and in no other case; without a close in between it is enqueue_client.
pub interrupted_enqueue_lem :
    (closes : Bool) (m : Message) (c : Client)
    → ((interrupted_enqueue closes m c ≡ none) ↔ ((closes ≡ true) × (c.closed ≡ false)))
      × (interrupted_enqueue false m c ≡ some (enqueue_client m c))
unfolding interrupted_enqueue enqueue_client send close_client
interrupted_enqueue_lem closes m c = ground arith
