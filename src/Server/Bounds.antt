-- ===== src/Server/Bounds.antt =====
-- The invariant of the TCP server (internal/network/tcp.go): its limits, and what its maps refer to.
use skall.Base.{
  ℕ, ◌≡◌, ◌≤◌, ◌<◌, refl, true, Option, none, some, arith, leb, length, if_intro, ℕ-eq, eq_iff,
}
use skall.Bytes.{Bytes, Bytes-eq}
use skall.Dict.{
  Dict, get, has, put, size, IsMap, get-empty, get-put, get-delete, has-put, has-delete, put-IsMap,
  delete-IsMap, size-put, size-delete-le,
}
use skall.Protocol.Message.{Message}
use skall.Server.State.{
  Client, Server, max_connections, write_capacity, new_server, new_client, accept, close_client,
  unregister, remove_found, remove_client, register_found,
}

pub record IsBounded (s : Server) : Type 0 where
  pub clients_map : IsMap s.clients
  pub limit : size s.clients ≤ max_connections
  pub known : (k : ℕ) → has k s.clients ≡ true → has k s.conns ≡ true
  pub fresh : (k : ℕ) → has k s.conns ≡ true → k < s.next
  pub queues : (k : ℕ) (c : Client) → get k s.conns ≡ some c → length c.queue ≤ write_capacity
  pub registered : (p : Bytes) (k : ℕ) → get p s.peers ≡ some k → has k s.conns ≡ true

pub new_server-IsBounded : IsBounded new_server
unfolding size
new_server-IsBounded = record {
  clients_map = tt;
  limit = omega arith;
  known = λ k h. absurd (ground (arith, get-empty {K = ℕ} {V = Unit {0}} k));
  fresh = λ k h. absurd (ground (arith, get-empty {K = ℕ} {V = Client} k));
  queues = λ k c h. absurd (ground (arith, get-empty {K = ℕ} {V = Client} k));
  registered = λ p k h. absurd (ground (arith, get-empty {K = Bytes} {V = ℕ} p));
}

-- A client that is there takes a new value.
pub put_conn-IsBounded :
    (s : Server) (k : ℕ) (c : Client)
    → has k s.conns ≡ true
    → length c.queue ≤ write_capacity
    → IsBounded s
    → IsBounded (record s { conns = put k c s.conns })
put_conn-IsBounded s k c there fits h = record {
  clients_map = h.clients_map;
  limit = h.limit;
  known = λ j e. ground (arith, has-put j k c s.conns, h.known j);
  fresh = λ j e. ground (arith, has-put j k c s.conns, h.fresh j, h.fresh k, eq_iff k j);
  queues = λ j d e. ground (arith, get-put j k c s.conns, h.queues j d);
  registered = λ p j e. ground (arith, has-put j k c s.conns, h.registered p j);
}

pub accept-IsBounded : (s : Server) → IsBounded s → IsBounded (accept s)
unfolding accept
accept-IsBounded s h =
    if_intro IsBounded (leb max_connections (size s.clients)) _ _ (λ e. h)
      λ e. record {
        clients_map = put-IsMap s.next tt s.clients h.clients_map;
        limit = ground (arith, size-put s.next tt s.clients, e);
        known = λ k there.
            ground (
              arith,
              has-put k s.next tt s.clients,
              has-put k s.next new_client s.conns,
              h.known k,
            );
        fresh = λ k there.
            ground (arith, has-put k s.next new_client s.conns, h.fresh k, eq_iff s.next k);
        queues = λ k c there. ground (arith, get-put k s.next new_client s.conns, h.queues k c);
        registered =
            λ p k there. ground (arith, has-put k s.next new_client s.conns, h.registered p k);
      }

get-unregister :
    (k : ℕ) (mine p : Bytes) (found : Option ℕ) (peers : Dict Bytes ℕ) (j : ℕ)
    → get p (unregister k mine found peers) ≡ some j
    → get p peers ≡ some j
unfolding unregister
get-unregister k mine p none peers j h = h
get-unregister k mine p (some q) peers j h = ground (arith, get-delete p mine peers)

remove_found-IsBounded :
    (k : ℕ) (found : Option Client) (s : Server)
    → get k s.conns ≡ found
    → IsBounded s
    → IsBounded (remove_found k found s)
unfolding remove_found close_client
remove_found-IsBounded k none s there h = h
remove_found-IsBounded k (some c) s there h =
    let shut =
      put_conn-IsBounded s k (close_client c) (ground (arith, there)) (h.queues k c there) h in
    record {
      clients_map = delete-IsMap k s.clients h.clients_map;
      limit = omega (arith, size-delete-le k s.clients, h.limit);
      known = λ j e. ground (arith, has-delete j k s.clients, shut.known j);
      fresh = shut.fresh;
      queues = shut.queues;
      registered = λ p j e.
          shut.registered p j (get-unregister k c.peer_id p (get c.peer_id s.peers) s.peers j e);
    }

pub remove_client-IsBounded : (k : ℕ) (s : Server) → IsBounded s → IsBounded (remove_client k s)
unfolding remove_client
remove_client-IsBounded k s h = remove_found-IsBounded k (get k s.conns) s refl h

pub register_found-IsBounded :
    (k : ℕ) (m : Message) (found : Option Client) (s : Server)
    → get k s.conns ≡ found
    → IsBounded s
    → IsBounded (register_found k m found s)
unfolding register_found
register_found-IsBounded k m none s there h = h
register_found-IsBounded k m (some c) s there h =
    let c' : Client = record c { peer_id = m.sender_id; display_name = m.body } in
    let named = put_conn-IsBounded s k c' (ground (arith, there)) (h.queues k c there) h in
    record {
      clients_map = named.clients_map;
      limit = named.limit;
      known = named.known;
      fresh = named.fresh;
      queues = named.queues;
      registered = λ p j e. ground (
        arith,
        get-put p m.sender_id k s.peers,
        named.registered p j,
        has-put j k c' s.conns,
        eq_iff k j,
      );
    }
