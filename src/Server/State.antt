-- ===== src/Server/State.antt =====
-- clientConn and Server (internal/network/client.go, internal/network/tcp.go). A *clientConn is a number;
-- `conns` has every clientConn that was made, `clients` and `peers` are the server's maps.
use skall.Base.{
  ℕ, suc, Bool, true, false, Option, none, some, List, [], ◌∷◌, leb, if◌then◌else◌, ◌==◌, ℕ-eq,
}
use skall.Bytes.{Bytes, Bytes-eq, is_empty}
use skall.Dict.{Dict, empty, get, put, delete, size}
use skall.Protocol.Message.{Message}

abbrev pub max_connections : ℕ
max_connections = 256

-- The capacity of writeCh.
abbrev pub write_capacity : ℕ
write_capacity = 16

pub record Client : Type 0 where
  pub peer_id : Bytes
  pub display_name : Bytes
  pub queue : List Message
  pub closed : Bool

pub record Server : Type 0 where
  pub conns : Dict ℕ Client
  pub clients : Dict ℕ (Unit {0})
  pub peers : Dict Bytes ℕ
  pub next : ℕ
  pub closed : Bool

-- NewServer
abbrev pub new_server : Server
new_server = record { conns = empty; clients = empty; peers = empty; next = 0; closed = false }

-- newClientConn
abbrev pub new_client : Client
new_client = record { peer_id = []; display_name = []; queue = []; closed = false }

-- Serve on one connection that Accept returned: refused at the limit, else added by addClient.
unfoldable pub accept : Server → Server
accept s = if leb max_connections (size s.clients) then s else record s {
  conns = put s.next new_client s.conns;
  clients = put s.next tt s.clients;
  next = suc s.next;
}

-- ActiveConnections
unfoldable pub active_connections : Server → ℕ
active_connections s = size s.clients

-- clientConn.close; a second call does nothing, by the Once.
unfoldable pub close_client : Client → Client
close_client c = record c { closed = true }

unfoldable pub close_found : ℕ → Option Client → Dict ℕ Client → Dict ℕ Client
close_found k none conns = conns
close_found k (some c) conns = put k (close_client c) conns

unfoldable pub close_conn : ℕ → Dict ℕ Client → Dict ℕ Client
close_conn k conns = close_found k (get k conns) conns

-- What removeClient makes of the peers, for a client that says that it is peer_id.
unfoldable pub unregister : ℕ → Bytes → Option ℕ → Dict Bytes ℕ → Dict Bytes ℕ
unregister k peer_id none peers = peers
unregister k peer_id (some p) peers =
    if is_empty peer_id then peers else if p == k then delete peer_id peers else peers

unfoldable pub remove_found : ℕ → Option Client → Server → Server
remove_found k none s = s
remove_found k (some c) s = record s {
  conns = put k (close_client c) s.conns;
  clients = delete k s.clients;
  peers = unregister k c.peer_id (get c.peer_id s.peers) s.peers;
}

-- removeClient
unfoldable pub remove_client : ℕ → Server → Server
remove_client k s = remove_found k (get k s.conns) s

unfoldable pub register_found : ℕ → Message → Option Client → Server → Server
register_found k m none s = s
register_found k m (some c) s = record s {
  conns = put k (record c { peer_id = m.sender_id; display_name = m.body }) s.conns;
  peers = put m.sender_id k s.peers;
}

-- The join branch of readLoop, with registerPeer.
unfoldable pub register : ℕ → Message → Server → Server
register k m s = register_found k m (get k s.conns) s

unfoldable pub close_each : List ℕ → Dict ℕ Client → Dict ℕ Client
close_each [] conns = conns
close_each (k ∷ order) conns = close_each order (close_conn k conns)

-- Shutdown up to wg.Wait(), on its first call; `order` is that of the range over the clients.
unfoldable pub shutdown : List ℕ → Server → Server
shutdown order s =
    if s.closed then s else record s { conns = close_each order s.conns; closed = true }
