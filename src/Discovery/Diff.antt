-- ===== src/Discovery/Diff.antt =====
-- What applyDiff makes of the table of peers (internal/network/discovery/mdns.go).
use skall.Base.{
  ◌≡◌, refl, Bool, not, ◌&&◌, Option, none, some, List, [], ◌∷◌, arith, eq_iff, ◌==◌, contains,
  if◌then◌else◌,
}
use skall.Bytes.{Bytes, Bytes-eq}
use skall.Dict.{Dict, empty, get, has, get-put, get-delete}
use skall.Discovery.Peer.{PeerInfo}
use skall.Discovery.Mdns.{
  Discovery, seen_set, add_found, add_peers, drop_found, drop_peers, apply_diff,
}

-- An order in which a range visits exactly the keys of a map.
abbrev pub Visits : {V : Type 0} → List Bytes → Dict Bytes V → Type 0
Visits order m = (k : Bytes) → contains k order ≡ has k m

get-add_found :
    (j k : Bytes) (found : Option PeerInfo) (d : Discovery)
    → get k (add_found j found d).entries
      ≡ (if has k d.entries then get k d.entries else if j == k then found else none)
unfolding add_found
get-add_found j k none d = ground arith
get-add_found j k (some info) d = ground (arith, get-put k j info d.entries, eq_iff j k)

get-add_peers :
    (order : List Bytes) (set : Dict Bytes PeerInfo) (d : Discovery) (k : Bytes)
    → get k (add_peers order set d).entries
      ≡ (if has k d.entries then get k d.entries else if contains k order then get k set else none)
unfolding add_peers
get-add_peers [] set d k = ground arith
get-add_peers (j ∷ order) set d k = ground (
  arith,
  get-add_peers order set (add_found j (get j set) d) k,
  get-add_found j k (get j set) d,
  eq_iff j k,
)

get-drop_found :
    (j k : Bytes) (still : Bool) (found : Option PeerInfo) (d : Discovery)
    → get j d.entries ≡ found
    → get k (drop_found j still found d).entries
      ≡ (if j == k && not still then none else get k d.entries)
unfolding drop_found
get-drop_found j k still none d there = ground (arith, there, eq_iff j k)
get-drop_found j k still (some info) d there = ground (arith, get-delete k j d.entries)

get-drop_peers :
    (order : List Bytes) (set : Dict Bytes PeerInfo) (d : Discovery) (k : Bytes)
    → get k (drop_peers order set d).entries
      ≡ (if contains k order && not (has k set) then none else get k d.entries)
unfolding drop_peers
get-drop_peers [] set d k = ground arith
get-drop_peers (j ∷ order) set d k =
    let next = drop_found j (has j set) (get j d.entries) d in
    ground (
      arith,
      get-drop_peers order set next k,
      get-drop_found j k (has j set) (get j d.entries) d refl,
      eq_iff j k,
    )

-- When its ranges visit the scan and the table, applyDiff leaves in the table exactly the peers of
-- the scan that count. A peer that was in the table keeps the record that it had there, so that a
-- new host or port of it is not taken over.
pub apply_diff_lem :
    (set_order table_order : List Bytes) (seen : List PeerInfo) (d : Discovery) (k : Bytes)
    → Visits set_order (seen_set d.local_id seen empty)
    → Visits table_order (add_peers set_order (seen_set d.local_id seen empty) d).entries
    → let set = seen_set d.local_id seen empty in
      get k (apply_diff set_order table_order seen d).entries
      ≡ (if has k set && has k d.entries then get k d.entries else get k set)
unfolding apply_diff
apply_diff_lem set_order table_order seen d k all_set all_table =
    let set = seen_set d.local_id seen empty in
    let added = add_peers set_order set d in
    ground (
      arith,
      get-drop_peers table_order set added k,
      get-add_peers set_order set d k,
      all_set k,
      all_table k,
    )
