-- ===== src/Dht/Search.antt =====
-- FindPeers and discoverOnce (internal/network/p2p/dht.go). `goes` says of each peer whether the select that
-- would send it sends it, and not ends with the context.
use skall.Base.{
  ℕ, Bool, true, false, not, ◌&&◌, ◌||◌, List, [], ◌∷◌, ◌++◌, length, leb, nat_eq, if◌then◌else◌,
  ◌==◌, contains,
}
use skall.Bytes.{Bytes, Bytes-eq, is_empty}
use skall.Dht.State.{
  AddrInfo, DhtMessage, DhtMessageType, Manager, find_providers_resp, k_bucket_size,
}
use skall.Dht.Table.{add_peer, no_addrs}
use skall.Dht.Providers.{get_local_providers}

-- What the goroutines of FindPeers share: the seen IDs, and what was sent on the channel.
pub record Search : Type 0 where
  pub seen : List Bytes
  pub out : List AddrInfo

abbrev pub sent : AddrInfo → Search → Search
sent info s = record { seen = info.id ∷ s.seen; out = s.out ++ info ∷ [] }

abbrev pub marked : AddrInfo → Search → Search
marked info s = record s { seen = info.id ∷ s.seen }

-- The loop over the local providers: the flag says that FindPeers returns in it.
unfoldable pub search_local : (Bytes → Bool) → ℕ → List AddrInfo → Search → Search × Bool
search_local goes limit [] s = (s, false)
search_local goes limit (info ∷ infos) s =
    let skipped = search_local goes limit infos s in
    let next = search_local goes limit infos (sent info s) in
    if contains info.id s.seen
    then skipped
    else if not (goes info.id)
    then (marked info s, true)
    else if leb limit (length s.seen)
    then (sent info s, true)
    else next

-- The loop over the peers of one answer; the goroutine ends with the context.
unfoldable pub search_answer : (Bytes → Bool) → List AddrInfo → Search → Search
search_answer goes [] s = s
search_answer goes (info ∷ infos) s =
    let skipped = search_answer goes infos s in
    let next = search_answer goes infos (sent info s) in
    if not (contains info.id s.seen) && not (no_addrs info)
    then (if goes info.id then next else marked info s)
    else skipped

abbrev pub is_providers_resp : DhtMessageType → Bool
is_providers_resp type = elim type [ find_providers_resp ↦ true | _ ↦ false ]

-- The answers of the network, in the order in which their goroutines take the lock.
unfoldable pub search_network : (Bytes → Bool) → List DhtMessage → Search → Search
search_network goes [] s = s
search_network goes (resp ∷ answers) s =
    search_network goes answers
      (if is_providers_resp resp.type then search_answer goes resp.peers s else s)

unfoldable pub search_on : (Bytes → Bool) → List DhtMessage → Search × Bool → Search
search_on goes answers (s, returned) = if returned then s else search_network goes answers s

-- FindPeers: what is sent on the channel until it is closed.
unfoldable pub find_peers :
    ℕ
    → List Bytes
    → (Bytes → Bool)
    → List DhtMessage
    → Bytes
    → ℕ
    → Manager
    → Manager × List AddrInfo
find_peers now order goes answers namespace limit dm =
    let (dm', found) =
      get_local_providers now order (if is_empty namespace then dm.cfg.namespace else namespace)
        dm in
    let start : Search = record { seen = dm.host.id ∷ []; out = [] } in
    (
      dm',
      (search_on goes answers
          (search_local goes (if nat_eq limit 0 then k_bucket_size else limit) found start)).out,
    )

-- The loop of discoverOnce: the state, and the peers that onPeerFound is called with.
unfoldable pub discover_each : List AddrInfo → Manager → Manager × List AddrInfo
discover_each [] dm = (dm, [])
discover_each (info ∷ infos) dm =
    let skipped = discover_each infos dm in
    let (dm', calls) = discover_each infos (add_peer info dm) in
    if info.id == dm.host.id || no_addrs info then skipped else (dm', info ∷ calls)

-- discoverOnce, with an onPeerFound that is not nil: the calls of it.
unfoldable pub discover_once :
    ℕ → List Bytes → (Bytes → Bool) → List DhtMessage → Manager → Manager × List AddrInfo
discover_once now order goes answers dm =
    let (dm', found) = find_peers now order goes answers dm.cfg.namespace k_bucket_size dm in
    discover_each found dm'
