-- ===== src/Server/Keeps.antt =====
-- The operations of the TCP server (internal/network/tcp.go) and its invariant.
use skall.Base.{
  ℕ, ◌≡◌, ◌≤◌, refl, Bool, true, false, Option, none, some, List, [], ◌∷◌, arith, length,
  length-append, if◌then◌else◌, if_intro, ◌==◌, ℕ-eq, not,
}
use skall.Bytes.{Bytes, Bytes-eq, lit}
use skall.Dict.{get}
use skall.Protocol.Message.{Message, MessageError, is_blank, type_join}
use skall.Server.State.{
  Client, Server, write_capacity, close_client, close_found, close_conn, close_each, remove_client,
  register, shutdown,
}
use skall.Server.Routing.{
  send, enqueue_client, enqueue_found, enqueue, after_enqueue, deliver, deliver_others,
  after_direct, direct, broadcast, failure_notice,
}
use skall.Server.Loops.{Turn, rest_of, pop, write_turn, handle_valid}
use skall.Server.Bounds.{
  IsBounded, put_conn-IsBounded, remove_client-IsBounded, register_found-IsBounded,
}

length-send :
    (m : Message) (c : Client)
    → length c.queue ≤ write_capacity
    → length (enqueue_client m c).0.queue ≤ write_capacity
unfolding enqueue_client send
length-send m c h = ground (arith, length-append c.queue (m ∷ []))

enqueue_found-IsBounded :
    (k : ℕ) (m : Message) (found : Option Client) (s : Server)
    → get k s.conns ≡ found
    → IsBounded s
    → IsBounded (enqueue_found k m found s).0
unfolding enqueue_found
enqueue_found-IsBounded k m none s there h = h
enqueue_found-IsBounded k m (some c) s there h =
    put_conn-IsBounded s k (enqueue_client m c).0 (ground (arith, there))
      (length-send m c (h.queues k c there)) h

enqueue-IsBounded : (k : ℕ) (m : Message) (s : Server) → IsBounded s → IsBounded (enqueue k m s).0
unfolding enqueue
enqueue-IsBounded k m s h = enqueue_found-IsBounded k m (get k s.conns) s refl h

after_enqueue-IsBounded :
    (k : ℕ) (r : Server × Bool) → IsBounded r.0 → IsBounded (after_enqueue k r)
unfolding after_enqueue
after_enqueue-IsBounded k (s, sent) h =
    if_intro IsBounded sent _ _ (λ e. h) (λ e. remove_client-IsBounded k s h)

deliver_others-IsBounded :
    (sender : ℕ) (order : List ℕ) (m : Message) (s : Server)
    → IsBounded s
    → IsBounded (deliver_others sender order m s)
unfolding deliver_others deliver
deliver_others-IsBounded sender [] m s h = h
deliver_others-IsBounded sender (k ∷ order) m s h =
    deliver_others-IsBounded sender order m
      (if k == sender then s else after_enqueue k (enqueue k m s))
      (if_intro IsBounded (k == sender) _ _ (λ e. h)
        (λ e. after_enqueue-IsBounded k (enqueue k m s) (enqueue-IsBounded k m s h)))

module _ (format : ℕ → Bytes) (now sender : ℕ) where
  after_direct-IsBounded :
      (k : ℕ) (m : Message) (r : Server × Bool)
      → IsBounded r.0
      → IsBounded (after_direct format now sender k m r)
  unfolding after_direct
  after_direct-IsBounded k m (s, true) h = h
  after_direct-IsBounded k m (s, false) h =
      enqueue-IsBounded sender (failure_notice (format now) now m (lit " disconnected"))
        (remove_client k s) (remove_client-IsBounded k s h)

  direct-IsBounded :
      (found : Option ℕ) (m : Message) (s : Server)
      → IsBounded s
      → IsBounded (direct format now sender found m s)
  unfolding direct
  direct-IsBounded none m s h =
      enqueue-IsBounded sender (failure_notice (format now) now m (lit " unknown or offline")) s h
  direct-IsBounded (some k) m s h =
      after_direct-IsBounded k m (enqueue k m s) (enqueue-IsBounded k m s h)

  broadcast-IsBounded :
      (order : List ℕ) (m : Message) (s : Server)
      → IsBounded s
      → IsBounded (broadcast format now sender order m s)
  unfolding broadcast
  broadcast-IsBounded order m s h =
      if_intro IsBounded (not (is_blank m.recipient_id)) _ _
        (λ e. direct-IsBounded (get m.recipient_id s.peers) m s h)
        (λ e. deliver_others-IsBounded sender order m s h)

pub handle_valid-IsBounded :
    (format : ℕ → Bytes) (k : ℕ) (turn : Turn) (m : Message) (e : Option MessageError) (s : Server)
    → IsBounded s
    → IsBounded (handle_valid format k turn m e s)
unfolding handle_valid register
handle_valid-IsBounded format k turn m (some e) s h = h
handle_valid-IsBounded format k turn m none s h =
    broadcast-IsBounded format turn.now k turn.order m _ (
      if_intro IsBounded (m.type == type_join) _ _
        (λ e. register_found-IsBounded k m (get k s.conns) s refl h) (λ e. h))

pop-IsBounded :
    (k : ℕ) (found : Option Client) (s : Server)
    → get k s.conns ≡ found
    → IsBounded s
    → IsBounded (pop k found s)
unfolding pop
pop-IsBounded k none s there h = h
pop-IsBounded k (some c) s there h =
    put_conn-IsBounded s k (record c { queue = rest_of c.queue }) (ground (arith, there))
      (shorter c.queue (h.queues k c there)) h
  where
    shorter : (q : List Message) → length q ≤ write_capacity → length (rest_of q) ≤ write_capacity
    shorter [] p = unfold rest_of in p
    shorter (m ∷ q) p = unfold rest_of in omega arith

pub write_turn-IsBounded :
    (k : ℕ) (written : Bool) (s : Server) → IsBounded s → IsBounded (write_turn k written s)
unfolding write_turn
write_turn-IsBounded k written s h =
    let p = pop-IsBounded k (get k s.conns) s refl h in
    if_intro IsBounded written _ _ (λ e. p)
      (λ e. remove_client-IsBounded k (pop k (get k s.conns) s) p)

close_each-IsBounded :
    (order : List ℕ) (s : Server)
    → IsBounded s
    → IsBounded (record s { conns = close_each order s.conns })
unfolding close_each close_conn
close_each-IsBounded [] s h = h
close_each-IsBounded (k ∷ order) s h =
    close_each-IsBounded order (record s { conns = close_found k (get k s.conns) s.conns })
      (shut (get k s.conns) refl)
  where
    shut :
        (found : Option Client)
        → get k s.conns ≡ found
        → IsBounded (record s { conns = close_found k found s.conns })
    shut none there = unfold close_found in h
    shut (some c) there =
        unfold close_found close_client in
        put_conn-IsBounded s k (record c { closed = true }) (ground (arith, there))
          (h.queues k c there) h

pub shutdown-IsBounded : (order : List ℕ) (s : Server) → IsBounded s → IsBounded (shutdown order s)
unfolding shutdown
shutdown-IsBounded order s h =
    if_intro IsBounded s.closed _ _ (λ e. h) (λ e. closed_too (close_each-IsBounded order s h))
  where
    closed_too :
        IsBounded (record s { conns = close_each order s.conns })
        → IsBounded (record s { conns = close_each order s.conns; closed = true })
    closed_too b = record {
      clients_map = b.clients_map;
      limit = b.limit;
      known = b.known;
      fresh = b.fresh;
      queues = b.queues;
      registered = b.registered;
    }
