-- ===== src/Server/Routing.antt =====
-- enqueue and broadcast (internal/network/client.go, internal/network/tcp.go).
use skall.Base.{
  ℕ, Bool, true, false, not, Option, none, some, List, [], ◌∷◌, ◌++◌, leb, length, if◌then◌else◌,
  ◌==◌, ℕ-eq,
}
use skall.Bytes.{Bytes, Bytes-eq, lit}
use skall.Dict.{get, put}
use skall.Protocol.Message.{Message, is_blank, protocol_version, type_system}
use skall.Server.State.{Client, Server, write_capacity, close_client, remove_client}

-- The select of enqueue: `none` is the panic of a send on a closed channel.
unfoldable pub send : Message → Client → Option (Client × Bool)
send m c =
    if c.closed
    then none
    else if leb write_capacity (length c.queue)
    then some (c, false)
    else some (record c { queue = c.queue ++ m ∷ [] }, true)

-- enqueue when no close comes between its test and its select.
unfoldable pub enqueue_client : Message → Client → Client × Bool
enqueue_client m c =
    if c.closed then (c, false) else elim (send m c) [ none ↦ (c, false) | some r ↦ r ]

-- enqueue, with or without a close of the client between its test and its select.
unfoldable pub interrupted_enqueue : Bool → Message → Client → Option (Client × Bool)
interrupted_enqueue closes m c =
    if c.closed then some (c, false) else send m (if closes then close_client c else c)

unfoldable pub enqueue_found : ℕ → Message → Option Client → Server → Server × Bool
enqueue_found k m none s = (s, false)
enqueue_found k m (some c) s =
    let (c', sent) = enqueue_client m c in (record s { conns = put k c' s.conns }, sent)

-- client.enqueue(message)
unfoldable pub enqueue : ℕ → Message → Server → Server × Bool
enqueue k m s = enqueue_found k m (get k s.conns) s

-- One turn of the loops of broadcast: a client that takes no message is removed.
unfoldable pub after_enqueue : ℕ → Server × Bool → Server
after_enqueue k (s, sent) = if sent then s else remove_client k s

unfoldable pub deliver : ℕ → Message → Server → Server
deliver k m s = after_enqueue k (enqueue k m s)

-- The loop over the recipients; `order` is that of the range over the clients.
unfoldable pub deliver_others : ℕ → List ℕ → Message → Server → Server
deliver_others sender [] m s = s
deliver_others sender (k ∷ order) m s =
    deliver_others sender order m (if k == sender then s else deliver k m s)

-- The system message to the sender of a message that was not delivered; `id` is the formatted time.
unfoldable pub failure_notice : Bytes → ℕ → Message → Bytes → Message
failure_notice id now m reason = record {
  version = protocol_version;
  id = id;
  type = type_system;
  sender_id = lit "server";
  recipient_id = m.sender_id;
  group_id = [];
  timestamp = now;
  body = lit "delivery failed: peer " ++ m.recipient_id ++ reason;
}

-- What follows an enqueue for the recipient: the client is removed and the sender is told, or nothing.
unfoldable pub after_direct : (ℕ → Bytes) → ℕ → ℕ → ℕ → Message → Server × Bool → Server
after_direct format now sender k m (s, true) = s
after_direct format now sender k m (s, false) =
    (enqueue sender (failure_notice (format now) now m (lit " disconnected")) (remove_client k s)).0

unfoldable pub direct : (ℕ → Bytes) → ℕ → ℕ → Option ℕ → Message → Server → Server
direct format now sender none m s =
    (enqueue sender (failure_notice (format now) now m (lit " unknown or offline")) s).0
direct format now sender (some k) m s = after_direct format now sender k m (enqueue k m s)

-- broadcast
unfoldable pub broadcast : (ℕ → Bytes) → ℕ → ℕ → List ℕ → Message → Server → Server
broadcast format now sender order m s =
    if not (is_blank m.recipient_id)
    then direct format now sender (get m.recipient_id s.peers) m s
    else deliver_others sender order m s
