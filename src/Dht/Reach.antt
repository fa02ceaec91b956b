-- ===== src/Dht/Reach.antt =====
-- Any sequence of calls and of streams of the DHT manager (internal/network/p2p/dht.go).
use skall.Base.{
  ℕ, Bool, ◌||◌, Option, none, some, List, [], ◌∷◌, if◌then◌else◌, if_intro, ◌==◌, Result, ok, err,
}
use skall.Bytes.{Bytes, Bytes-eq}
use skall.Protocol.Message.{Message, Json}
use skall.Protocol.Framing.{FrameError, read_message}
use skall.Dht.State.{
  AddrInfo, DhtConfig, DhtMessage, DhtMessageType, Manager, new_manager, ping, pong, find_node,
  find_node_resp, advertise, find_providers, find_providers_resp, unknown,
}
use skall.Dht.Table.{no_addrs, add_peer, remove_peer}
use skall.Dht.Serve.{
  Orders, ttl_of, answer, handle_request, handle_decoded, handle_read, handle_stream,
  advertise_host,
}
use skall.Dht.Search.{find_peers, discover_each, discover_once}
use skall.Dht.Keeps.{
  IsRouted, new_manager-IsRouted, add_peer-IsRouted, remove_peer-IsRouted, store_provider-IsRouted,
  get_local_providers-IsRouted,
}

answer-IsRouted :
    (sha256 : Bytes → Bytes) (now : ℕ) (orders : Orders) (type : DhtMessageType) (req : DhtMessage)
    (dm : Manager)
    → IsRouted dm
    → IsRouted (answer sha256 now orders type req dm).0
unfolding answer
answer-IsRouted sha256 now orders ping req dm h = h
answer-IsRouted sha256 now orders pong req dm h = h
answer-IsRouted sha256 now orders find_node req dm h = h
answer-IsRouted sha256 now orders find_node_resp req dm h = h
answer-IsRouted sha256 now orders advertise req dm h =
    store_provider-IsRouted now req.namespace req.sender (ttl_of req.ttl_sec dm) dm h
answer-IsRouted sha256 now orders find_providers req dm h =
    get_local_providers-IsRouted now orders.bucket req.namespace dm h
answer-IsRouted sha256 now orders find_providers_resp req dm h = h
answer-IsRouted sha256 now orders (unknown t) req dm h = h

handle_decoded-IsRouted :
    (sha256 : Bytes → Bytes) (now : ℕ) (orders : Orders) (decoded : Option DhtMessage)
    (dm : Manager)
    → IsRouted dm
    → IsRouted (handle_decoded sha256 now orders decoded dm).0
unfolding handle_decoded handle_request
handle_decoded-IsRouted sha256 now orders none dm h = h
handle_decoded-IsRouted sha256 now orders (some req) dm h =
    answer-IsRouted sha256 now orders req.type req
      (if no_addrs req.sender then dm else add_peer req.sender dm)
      (if_intro IsRouted (no_addrs req.sender) _ _ (λ e. h)
        (λ e. add_peer-IsRouted req.sender dm h))

handle_read-IsRouted :
    (decode : Bytes → Option DhtMessage) (sha256 : Bytes → Bytes) (now : ℕ) (orders : Orders)
    (read : Result FrameError Message) (dm : Manager)
    → IsRouted dm
    → IsRouted (handle_read decode sha256 now orders read dm).0
unfolding handle_read
handle_read-IsRouted decode sha256 now orders (err e) dm h = h
handle_read-IsRouted decode sha256 now orders (ok m) dm h =
    handle_decoded-IsRouted sha256 now orders (decode m.body) dm h

discover_each-IsRouted :
    (infos : List AddrInfo) (dm : Manager) → IsRouted dm → IsRouted (discover_each infos dm).0
unfolding discover_each
discover_each-IsRouted [] dm h = h
discover_each-IsRouted (info ∷ infos) dm h =
    if_intro (λ (r : Manager × List AddrInfo). IsRouted r.0)
      (info.id == dm.host.id || no_addrs info) _ _ (λ e. discover_each-IsRouted infos dm h)
      (λ e. discover_each-IsRouted infos (add_peer info dm) (add_peer-IsRouted info dm h))

discover_once-IsRouted :
    (now : ℕ) (order : List Bytes) (goes : Bytes → Bool) (answers : List DhtMessage) (dm : Manager)
    → IsRouted dm
    → IsRouted (discover_once now order goes answers dm).0
unfolding discover_once find_peers
discover_once-IsRouted now order goes answers dm h =
    discover_each-IsRouted _ _ (get_local_providers-IsRouted now order _ dm h)

-- One call of the manager, or one stream that another node opens.
pub data Step (json : Json) (decode : Bytes → Option DhtMessage) (sha256 : Bytes → Bytes)
    (dm : Manager) : Manager → Type 0 where
  adds : (info : AddrInfo) → Step json decode sha256 dm (add_peer info dm)
  removes : (pid : Bytes) → Step json decode sha256 dm (remove_peer pid dm)
  advertises :
      (now : ℕ) (ns : Bytes) (ttl : ℕ) (connected : List Bytes)
      → Step json decode sha256 dm (advertise_host now ns ttl connected dm).0
  serves :
      (now : ℕ) (orders : Orders) (input : Bytes)
      → Step json decode sha256 dm (handle_stream json decode sha256 now orders input dm).0
  discovers :
      (now : ℕ) (order : List Bytes) (goes : Bytes → Bool) (answers : List DhtMessage)
      → Step json decode sha256 dm (discover_once now order goes answers dm).0

pub data Reach (json : Json) (decode : Bytes → Option DhtMessage) (sha256 : Bytes → Bytes)
    (host : AddrInfo) (cfg : DhtConfig) : Manager → Type 0 where
  start : Reach json decode sha256 host cfg (new_manager host cfg)
  next :
      {dm dm' : Manager}
      → Reach json decode sha256 host cfg dm
      → Step json decode sha256 dm dm'
      → Reach json decode sha256 host cfg dm'

step-IsRouted :
    {json : Json} {decode : Bytes → Option DhtMessage} {sha256 : Bytes → Bytes} {dm dm' : Manager}
    → Step json decode sha256 dm dm'
    → IsRouted dm
    → IsRouted dm'
unfolding advertise_host handle_stream
step-IsRouted {json} {decode} {sha256} {dm} (adds info) h = add_peer-IsRouted info dm h
step-IsRouted {json} {decode} {sha256} {dm} (removes pid) h = remove_peer-IsRouted pid dm h
step-IsRouted {json} {decode} {sha256} {dm} (advertises now ns ttl connected) h =
    store_provider-IsRouted now _ dm.host _ dm h
step-IsRouted {json} {decode} {sha256} {dm} (serves now orders input) h =
    handle_read-IsRouted decode sha256 now orders (read_message json input).0 dm h
step-IsRouted {json} {decode} {sha256} {dm} (discovers now order goes answers) h =
    discover_once-IsRouted now order goes answers dm h

-- Whatever other nodes send and answer, no routing table has the host itself or a peer without an address,
-- each row of it and of a bucket stands under the ID of its own record, and no bucket has an empty name.
pub Reach-IsRouted :
    {json : Json} {decode : Bytes → Option DhtMessage} {sha256 : Bytes → Bytes} {host : AddrInfo}
    {cfg : DhtConfig} {dm : Manager}
    → Reach json decode sha256 host cfg dm
    → IsRouted dm
Reach-IsRouted {json} {decode} {sha256} {host} {cfg} start = new_manager-IsRouted host cfg
Reach-IsRouted (next r step) = step-IsRouted step (Reach-IsRouted r)
