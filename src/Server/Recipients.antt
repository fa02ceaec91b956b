-- ===== src/Server/Recipients.antt =====
-- Who gets a message that a client sent to the TCP server (internal/network/tcp.go).
use skall.Base.{
  ℕ, ◌≡◌, ◌≢◌, refl, ◌∙◌, Bool, true, false, Option, none, some, List, [], ◌∷◌, ◌++◌, arith, leb,
  length, if◌then◌else◌, ◌==◌, ℕ-eq, eq_iff, not, ◌&&◌, ◌||◌, contains, IsDistinct,
}
use skall.Bytes.{Bytes, Bytes-eq, lit}
use skall.Dict.{get, put, get-put, get-put_self}
use skall.Protocol.Message.{Message, is_blank}
use skall.Server.State.{Client, Server, write_capacity, close_client, remove_found, remove_client}
use skall.Server.Routing.{
  send, enqueue_client, enqueue_found, enqueue, after_enqueue, deliver, deliver_others,
  after_direct, direct, broadcast, failure_notice,
}

get-enqueue_found :
    (j k : ℕ) (m : Message) (found : Option Client) (s : Server)
    → k == j ≡ false
    → get j (enqueue_found k m found s).0.conns ≡ get j s.conns
unfolding enqueue_found
get-enqueue_found j k m none s other = refl
get-enqueue_found j k m (some c) s other =
    ground (arith, get-put j k (enqueue_client m c).0 s.conns)

get-enqueue :
    (j k : ℕ) (m : Message) (s : Server)
    → k == j ≡ false
    → get j (enqueue k m s).0.conns ≡ get j s.conns
unfolding enqueue
get-enqueue j k m s other = get-enqueue_found j k m (get k s.conns) s other

get-remove_client :
    (j k : ℕ) (s : Server) → k == j ≡ false → get j (remove_client k s).conns ≡ get j s.conns
unfolding remove_client
get-remove_client j k s other = by_found (get k s.conns)
  where
    by_found : (found : Option Client) → get j (remove_found k found s).conns ≡ get j s.conns
    by_found none = unfold remove_found in refl
    by_found (some c) = unfold remove_found in ground (arith, get-put j k (close_client c) s.conns)

get-after_direct :
    (format : ℕ → Bytes) (now sender j k : ℕ) (m : Message) (r : Server × Bool)
    → k == j ≡ false
    → sender == j ≡ false
    → get j (after_direct format now sender k m r).conns ≡ get j r.0.conns
unfolding after_direct
get-after_direct format now sender j k m (s, true) other third = refl
get-after_direct format now sender j k m (s, false) other third =
    get-enqueue j sender (failure_notice (format now) now m (lit " disconnected"))
      (remove_client k s) third
    ∙ get-remove_client j k s other

-- A message with a recipient changes nothing of any client but the one that is registered for the
-- recipient and the sender.
pub broadcast_private :
    (format : ℕ → Bytes) (now sender j : ℕ) (order : List ℕ) (m : Message) (s : Server)
    → is_blank m.recipient_id ≡ false
    → sender == j ≡ false
    → get m.recipient_id s.peers ≢ some j
    → get j (broadcast format now sender order m s).conns ≡ get j s.conns
broadcast_private format now sender j order m s given third other =
    unfold broadcast in rw given (by_peer (get m.recipient_id s.peers) other)
  where
    by_peer :
        (found : Option ℕ)
        → found ≢ some j
        → get j (direct format now sender found m s).conns ≡ get j s.conns
    by_peer none other =
        unfold direct in
        get-enqueue j sender (failure_notice (format now) now m (lit " unknown or offline")) s third
    by_peer (some k) other =
        let apart : k == j ≡ false = ground (arith, other, eq_iff k j) in
        unfold direct in
        (get-after_direct format now sender j k m (enqueue k m s) apart third
          ∙ get-enqueue j k m s apart)

-- What the loop of broadcast makes of one client: the message is in its channel, or the client is closed.
abbrev pub delivered : Message → Option Client → Option Client
delivered m none = none
delivered m (some c) = some (
    if c.closed || leb write_capacity (length c.queue)
    then record c { closed = true }
    else record c { queue = c.queue ++ m ∷ [] })

remove_none : (k : ℕ) (s : Server) → get k s.conns ≡ none → remove_client k s ≡ s
unfolding remove_client remove_found
remove_none k s here = rw here refl

-- removeClient after the value of the client was set.
get-remove_put :
    (j k : ℕ) (c : Client) (s : Server)
    → get j (remove_client k (record s { conns = put k c s.conns })).conns
      ≡ (if k == j then some (close_client c) else get j s.conns)
unfolding remove_client remove_found
get-remove_put j k c s =
    rw (get-put_self k c s.conns)
      (ground (arith, get-put j k (close_client c) (put k c s.conns), get-put j k c s.conns))

after_enqueue_lem :
    (j k : ℕ) (c : Client) (sent : Bool) (s : Server)
    → get j (after_enqueue k (record s { conns = put k c s.conns }, sent)).conns
      ≡ (if k == j then some (if sent then c else close_client c) else get j s.conns)
unfolding after_enqueue
after_enqueue_lem j k c true s = get-put j k c s.conns
after_enqueue_lem j k c false s = get-remove_put j k c s

enqueue_client_lem :
    (m : Message) (c : Client)
    → some (
        if (enqueue_client m c).1
        then (enqueue_client m c).0
        else close_client (enqueue_client m c).0)
      ≡ delivered m (some c)
unfolding enqueue_client send close_client
enqueue_client_lem m c = by_tests c.closed (leb write_capacity (length c.queue)) refl refl
  where
    by_tests :
        (shut full : Bool)
        → c.closed ≡ shut
        → leb write_capacity (length c.queue) ≡ full
        → some (
            if (enqueue_client m c).1
            then (enqueue_client m c).0
            else close_client (enqueue_client m c).0)
          ≡ delivered m (some c)
    by_tests true full e f = simp e
    by_tests false true e f = simp (e, f)
    by_tests false false e f = simp (e, f)

deliver_found :
    (j k : ℕ) (m : Message) (found : Option Client) (s : Server)
    → get k s.conns ≡ found
    → get j (after_enqueue k (enqueue_found k m found s)).conns
      ≡ (if k == j then delivered m (get j s.conns) else get j s.conns)
unfolding after_enqueue enqueue_found
deliver_found j k m none s here = rw (remove_none k s here) (ground (arith, here, eq_iff k j))
deliver_found j k m (some c) s here =
    let sent = after_enqueue_lem j k (enqueue_client m c).0 (enqueue_client m c).1 s in
    (sent ∙ ground (arith, enqueue_client_lem m c, here, eq_iff k j))

get-deliver :
    (j k : ℕ) (m : Message) (s : Server)
    → get j (deliver k m s).conns ≡ (if k == j then delivered m (get j s.conns) else get j s.conns)
unfolding deliver enqueue
get-deliver j k m s = deliver_found j k m (get k s.conns) s refl

get-deliver_others :
    (sender j : ℕ) (order : List ℕ) (m : Message) (s : Server)
    → IsDistinct order
    → get j (deliver_others sender order m s).conns ≡ (
        if contains j order && not (j == sender)
        then delivered m (get j s.conns)
        else get j s.conns)
unfolding deliver_others
get-deliver_others sender j [] m s d = refl
get-deliver_others sender j (k ∷ order) m s (fresh, d) =
    let rest = get-deliver_others sender j order m (if k == sender then s else deliver k m s) d in
    (rest
      ∙ ground (arith, fresh, get-deliver j k m s, eq_iff k j, eq_iff k sender, eq_iff j sender))

-- A message without a recipient is, after broadcast over a range that visits no client twice, in
-- the channel of every client of the range but the sender, or that client is closed, because it
-- was closed before or its channel was full; it is in no channel twice, and the clients outside
-- the range and the sender are as they were.
pub broadcast_public :
    (format : ℕ → Bytes) (now sender j : ℕ) (order : List ℕ) (m : Message) (s : Server)
    → is_blank m.recipient_id ≡ true
    → IsDistinct order
    → get j (broadcast format now sender order m s).conns ≡ (
        if contains j order && not (j == sender)
        then delivered m (get j s.conns)
        else get j s.conns)
broadcast_public format now sender j order m s given d =
    unfold broadcast in rw given (get-deliver_others sender j order m s d)
