-- ===== src/Dht/Serve.antt =====
-- handleStream and Advertise (internal/network/p2p/dht.go). encoding/json of a DHTMessage is a parameter, and
-- so is the order of each range.
use skall.Base.{
  ℕ, ◌*◌, ◌%◌, ◌^◌, Option, none, some, List, [], ◌∷◌, if◌then◌else◌, ◌==◌, Result, ok, err,
}
use skall.Bytes.{Bytes, Bytes-eq, is_empty}
use skall.Protocol.Message.{Message, Json}
use skall.Protocol.Framing.{FrameError, read_message}
use skall.Dht.State.{
  AddrInfo, DhtMessage, DhtMessageType, Manager, ping, pong, find_node, find_node_resp, advertise,
  find_providers, find_providers_resp, is_positive, second, k_bucket_size,
}
use skall.Dht.Distance.{closest_peers}
use skall.Dht.Table.{add_peer, no_addrs}
use skall.Dht.Providers.{store_provider, get_local_providers}

-- The response with its type, and what the other fields of its literal leave empty.
abbrev pub response : DhtMessageType → AddrInfo → ℕ → DhtMessage
response type host now = record {
  type = type;
  sender = host;
  target = [];
  namespace = [];
  peers = [];
  timestamp = now;
  ttl_sec = 0;
}

-- time.Duration(TTLSec) * time.Second, which wraps around, or else the default
unfoldable pub ttl_of : ℕ → Manager → ℕ
ttl_of ttl_sec dm =
    let ttl = ttl_sec * second % 2 ^ 64 in if is_positive ttl then ttl else dm.cfg.record_ttl

-- How the ranges of one request visit the bucket and the routing table.
pub record Orders : Type 0 where
  pub bucket : List Bytes
  pub table : List Bytes

abbrev pub answer_providers : ℕ → DhtMessage → Manager × List AddrInfo → Manager × Option DhtMessage
answer_providers now req (dm, found) = (
  dm,
  some (record (response find_providers_resp dm.host now) {
    namespace = req.namespace;
    peers = found;
  }),
)

-- The switch of handleStream: the state after it, and the response that it writes.
unfoldable pub answer :
    (Bytes → Bytes)
    → ℕ
    → Orders
    → DhtMessageType
    → DhtMessage
    → Manager
    → Manager × Option DhtMessage
answer sha256 now orders ping req dm = (dm, some (response pong dm.host now))
answer sha256 now orders advertise req dm =
    (store_provider now req.namespace req.sender (ttl_of req.ttl_sec dm) dm, none)
answer sha256 now orders find_providers req dm =
    answer_providers now req (get_local_providers now orders.bucket req.namespace dm)
answer sha256 now orders find_node req dm = (
  dm,
  some (record (response find_node_resp dm.host now) {
    target = req.target;
    peers = closest_peers sha256 orders.table dm.routing_table req.target k_bucket_size;
  }),
)
answer sha256 now orders _ req dm = (dm, none)

-- handleStream on a request that was decoded.
unfoldable pub handle_request :
    (Bytes → Bytes) → ℕ → Orders → DhtMessage → Manager → Manager × Option DhtMessage
handle_request sha256 now orders req dm =
    answer sha256 now orders req.type req
      (if no_addrs req.sender then dm else add_peer req.sender dm)

unfoldable pub handle_decoded :
    (Bytes → Bytes) → ℕ → Orders → Option DhtMessage → Manager → Manager × Option DhtMessage
handle_decoded sha256 now orders none dm = (dm, none)
handle_decoded sha256 now orders (some req) dm = handle_request sha256 now orders req dm

unfoldable pub handle_read :
    (Bytes → Option DhtMessage)
    → (Bytes → Bytes)
    → ℕ
    → Orders
    → Result FrameError Message
    → Manager
    → Manager × Option DhtMessage
handle_read decode sha256 now orders (err e) dm = (dm, none)
handle_read decode sha256 now orders (ok m) dm = handle_decoded sha256 now orders (decode m.body) dm

-- handleStream, on the bytes of the stream.
unfoldable pub handle_stream :
    Json
    → (Bytes → Option DhtMessage)
    → (Bytes → Bytes)
    → ℕ
    → Orders
    → Bytes
    → Manager
    → Manager × Option DhtMessage
handle_stream json decode sha256 now orders input dm =
    handle_read decode sha256 now orders (read_message json input).0 dm

-- The targets of the loop of Advertise.
unfoldable pub others : Bytes → List Bytes → List Bytes
others self [] = []
others self (pid ∷ pids) = let rest = others self pids in if pid == self then rest else pid ∷ rest

-- Advertise: the message and the peers that it is sent to, and the host recorded as a provider. `ttl` is
-- given in nanoseconds.
unfoldable pub advertise_host : ℕ → Bytes → ℕ → List Bytes → Manager → Manager × List Bytes
advertise_host now namespace ttl connected dm = (
  store_provider now (if is_empty namespace then dm.cfg.namespace else namespace) dm.host
      (if is_positive ttl then ttl else dm.cfg.record_ttl) dm,
  others dm.host.id connected,
)
