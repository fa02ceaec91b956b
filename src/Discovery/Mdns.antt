-- ===== src/Discovery/Mdns.antt =====
-- MDNSDiscovery (internal/network/discovery/mdns.go): its table of peers, and the channel of events, whose
-- sends are dropped when it is full. A range over a map visits the keys in an order that Go leaves open.
use skall.Base.{
  ℕ, Bool, true, false, not, Option, none, some, List, [], ◌∷◌, ◌++◌, nat_eq, leb, length,
  if◌then◌else◌, ◌==◌,
}
use skall.Bytes.{Bytes, Bytes-eq, lit, is_empty, trim_space}
use skall.Dict.{Dict, empty, get, has, put, delete, values}
use skall.Discovery.Peer.{PeerInfo, Event, peer_added, peer_removed, is_valid, key}

abbrev pub event_capacity : ℕ
event_capacity = 32

pub record Discovery : Type 0 where
  pub local_id : Bytes
  pub started : Bool
  pub closed : Bool
  pub entries : Dict Bytes PeerInfo
  pub events : List Event

-- NewMDNSDiscovery
abbrev pub new_discovery : Bytes → Discovery
new_discovery local_id = record {
  local_id = local_id;
  started = false;
  closed = false;
  entries = empty;
  events = [];
}

-- A select with a send and a default.
unfoldable pub offer : Event → List Event → List Event
offer ev events = if leb event_capacity (length events) then events else events ++ ev ∷ []

-- The first loop of applyDiff: the peers of a scan that count, under their keys.
unfoldable pub seen_set : Bytes → List PeerInfo → Dict Bytes PeerInfo → Dict Bytes PeerInfo
seen_set local_id [] set = set
seen_set local_id (info ∷ seen) set = seen_set local_id seen (
    if not (is_valid info)
    then set
    else if info.peer_id == local_id
    then set
    else put (key info) info set)

-- One turn of the loop over the set.
unfoldable pub add_found : Bytes → Option PeerInfo → Discovery → Discovery
add_found k none d = d
add_found k (some info) d = if has k d.entries then d else record d {
  entries = put k info d.entries;
  events = offer (record { type = peer_added; peer = info }) d.events;
}

unfoldable pub add_peers : List Bytes → Dict Bytes PeerInfo → Discovery → Discovery
add_peers [] set d = d
add_peers (k ∷ order) set d = add_peers order set (add_found k (get k set) d)

-- One turn of the loop over the table.
unfoldable pub drop_found : Bytes → Bool → Option PeerInfo → Discovery → Discovery
drop_found k still_there none d = d
drop_found k still_there (some info) d = if still_there then d else record d {
  entries = delete k d.entries;
  events = offer (record { type = peer_removed; peer = info }) d.events;
}

unfoldable pub drop_peers : List Bytes → Dict Bytes PeerInfo → Discovery → Discovery
drop_peers [] set d = d
drop_peers (k ∷ order) set d = drop_peers order set (drop_found k (has k set) (get k d.entries) d)

-- applyDiff
unfoldable pub apply_diff : List Bytes → List Bytes → List PeerInfo → Discovery → Discovery
apply_diff set_order table_order seen d =
    let set = seen_set d.local_id seen empty in
    drop_peers table_order set (add_peers set_order set d)

-- zeroconf.ServiceEntry, as far as it is read; addresses are as their String writes them.
pub record ServiceEntry : Type 0 where
  pub host_name : Bytes
  pub ipv4 : List Bytes
  pub ipv6 : List Bytes
  pub port : ℕ
  pub text : List Bytes

-- strings.SplitN(field, "=", 2), where there are two parts.
unfoldable pub cut : Bytes → Option (Bytes × Bytes)
cut [] = none
cut (b ∷ s) =
    let rest = cut s in
    if nat_eq b 61
    then some ([], s)
    else elim rest [ none ↦ none | some (name, value) ↦ some (b ∷ name, value) ]

-- The peer id and the display name so far, after one field.
unfoldable pub read_field : Option (Bytes × Bytes) → Bytes × Bytes → Bytes × Bytes
read_field none (peer_id, display_name) = (peer_id, display_name)
read_field (some (name, value)) (peer_id, display_name) =
    if trim_space name == lit "peer_id"
    then (trim_space value, display_name)
    else if trim_space name == lit "display_name"
    then (peer_id, trim_space value)
    else (peer_id, display_name)

unfoldable pub read_fields : List Bytes → Bytes × Bytes → Bytes × Bytes
read_fields [] ids = ids
read_fields (field ∷ text) ids = read_fields text (read_field (cut field) ids)

unfoldable pub first_address : List Bytes → List Bytes → Bytes
first_address (a ∷ ipv4) ipv6 = a
first_address [] (a ∷ ipv6) = a
first_address [] [] = []

-- entryToPeerInfo
unfoldable pub entry_to_peer_info : ServiceEntry → Option PeerInfo
entry_to_peer_info entry =
    let name = trim_space entry.host_name in
    let host = if is_empty name then first_address entry.ipv4 entry.ipv6 else name in
    let (peer_id, display_name) = read_fields entry.text ([], []) in
    if nat_eq entry.port 0
    then none
    else if is_empty peer_id
    then none
    else some
        (record { peer_id = peer_id; display_name = display_name; host = host; port = entry.port })

-- The loop of scan over the results, where `none` is a nil entry.
unfoldable pub collect : List (Option ServiceEntry) → Dict Bytes PeerInfo → Dict Bytes PeerInfo
collect [] seen = seen
collect (none ∷ results) seen = collect results seen
collect (some entry ∷ results) seen =
    collect results
      (elim (entry_to_peer_info entry) [ none ↦ seen | some info ↦ put (key info) info seen ])

pub data DiscoveryError : Type 0 where
  already_started discovery_closed resolver_failed browse_failed : DiscoveryError

-- scan: the results of Browse until its channel closes or the time is up, or `none` when it fails. The
-- order of seenValues is that of `shuffle`.
unfoldable pub scan :
    (List PeerInfo → List PeerInfo)
    → List Bytes
    → List Bytes
    → Option (List (Option ServiceEntry))
    → Discovery
    → Discovery × Option DiscoveryError
scan shuffle set_order table_order none d = (d, some browse_failed)
scan shuffle set_order table_order (some results) d =
    (apply_diff set_order table_order (shuffle (values (collect results empty))) d, none)

-- Start: `resolver` is whether the factory made a resolver. The loop runs on when it returns nil.
unfoldable pub start :
    Bool
    → (List PeerInfo → List PeerInfo)
    → List Bytes
    → List Bytes
    → Option (List (Option ServiceEntry))
    → Discovery
    → Discovery × Option DiscoveryError
start resolver shuffle set_order table_order results d =
    if d.started
    then (d, some already_started)
    else if d.closed
    then (d, some discovery_closed)
    else if not resolver
    then (d, some resolver_failed)
    else scan shuffle set_order table_order results (record d { started = true })

-- Close
unfoldable pub close : Discovery → Discovery
close d = if d.closed then d else record d { closed = true }
