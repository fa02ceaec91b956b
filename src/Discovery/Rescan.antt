-- ===== src/Discovery/Rescan.antt =====
-- Repeated scans of MDNSDiscovery (internal/network/discovery/mdns.go), and its channel of events.
use skall.Base.{
  ◌≡◌, ◌≤◌, refl, ap, sym, ◌∙◌, Bool, true, Option, none, some, List, [], ◌∷◌, arith, length,
  length-append,
}
use skall.Bytes.{Bytes, Bytes-eq}
use skall.Dict.{Dict, empty, get, has}
use skall.Discovery.Peer.{PeerInfo, Event, peer_added, peer_removed}
use skall.Discovery.Mdns.{
  Discovery, event_capacity, offer, seen_set, add_found, add_peers, drop_found, drop_peers,
  apply_diff, scan, start, already_started, browse_failed, ServiceEntry,
}
use skall.Discovery.Diff.{Visits, apply_diff_lem}

add_found_same :
    (k : Bytes) (set : Dict Bytes PeerInfo) (d : Discovery)
    → (has k set ≡ true → has k d.entries ≡ true)
    → add_found k (get k set) d ≡ d
unfolding add_found
add_found_same k set d sub = ground arith

add_peers_same :
    (order : List Bytes) (set : Dict Bytes PeerInfo) (d : Discovery)
    → ((k : Bytes) → has k set ≡ true → has k d.entries ≡ true)
    → add_peers order set d ≡ d
unfolding add_peers
add_peers_same [] set d sub = refl
add_peers_same (k ∷ order) set d sub =
    ap (add_peers order set) (add_found_same k set d (sub k)) ∙ add_peers_same order set d sub

drop_found_same :
    (k : Bytes) (set : Dict Bytes PeerInfo) (d : Discovery)
    → (has k d.entries ≡ true → has k set ≡ true)
    → drop_found k (has k set) (get k d.entries) d ≡ d
unfolding drop_found
drop_found_same k set d sub = ground arith

drop_peers_same :
    (order : List Bytes) (set : Dict Bytes PeerInfo) (d : Discovery)
    → ((k : Bytes) → has k d.entries ≡ true → has k set ≡ true)
    → drop_peers order set d ≡ d
unfolding drop_peers
drop_peers_same [] set d sub = refl
drop_peers_same (k ∷ order) set d sub =
    ap (drop_peers order set) (drop_found_same k set d (sub k)) ∙ drop_peers_same order set d sub

local_id-add_found :
    (k : Bytes) (found : Option PeerInfo) (d : Discovery)
    → (add_found k found d).local_id ≡ d.local_id
unfolding add_found
local_id-add_found k none d = refl
local_id-add_found k (some info) d = ground arith

local_id-add_peers :
    (order : List Bytes) (set : Dict Bytes PeerInfo) (d : Discovery)
    → (add_peers order set d).local_id ≡ d.local_id
unfolding add_peers
local_id-add_peers [] set d = refl
local_id-add_peers (k ∷ order) set d =
    local_id-add_peers order set (add_found k (get k set) d) ∙ local_id-add_found k (get k set) d

local_id-drop_found :
    (k : Bytes) (still : Bool) (found : Option PeerInfo) (d : Discovery)
    → (drop_found k still found d).local_id ≡ d.local_id
unfolding drop_found
local_id-drop_found k still none d = refl
local_id-drop_found k still (some info) d = ground arith

local_id-drop_peers :
    (order : List Bytes) (set : Dict Bytes PeerInfo) (d : Discovery)
    → (drop_peers order set d).local_id ≡ d.local_id
unfolding drop_peers
local_id-drop_peers [] set d = refl
local_id-drop_peers (k ∷ order) set d =
    local_id-drop_peers order set (drop_found k (has k set) (get k d.entries) d)
    ∙ local_id-drop_found k (has k set) (get k d.entries) d

local_id-apply_diff :
    (set_order table_order : List Bytes) (seen : List PeerInfo) (d : Discovery)
    → (apply_diff set_order table_order seen d).local_id ≡ d.local_id
unfolding apply_diff
local_id-apply_diff set_order table_order seen d =
    let set = seen_set d.local_id seen empty in
    local_id-drop_peers table_order set (add_peers set_order set d)
    ∙ local_id-add_peers set_order set d

has-apply_diff :
    (set_order table_order : List Bytes) (seen : List PeerInfo) (d : Discovery) (k : Bytes)
    → Visits set_order (seen_set d.local_id seen empty)
    → Visits table_order (add_peers set_order (seen_set d.local_id seen empty) d).entries
    → has k (apply_diff set_order table_order seen d).entries
      ≡ has k (seen_set d.local_id seen empty)
has-apply_diff set_order table_order seen d k all_set all_table =
    ground (arith, apply_diff_lem set_order table_order seen d k all_set all_table)

apply_diff_same :
    (set_order table_order : List Bytes) (seen : List PeerInfo) (d : Discovery)
    → ((k : Bytes) → has k d.entries ≡ has k (seen_set d.local_id seen empty))
    → apply_diff set_order table_order seen d ≡ d
unfolding apply_diff
apply_diff_same set_order table_order seen d same =
    let set = seen_set d.local_id seen empty in
    ap (drop_peers table_order set) (add_peers_same set_order set d (λ k h. same k ∙ h))
    ∙ drop_peers_same table_order set d (λ k h. sym (same k) ∙ h)

-- A scan that sees the peers of the last scan again changes nothing and sends no event, whatever is
-- left in the channel: an event that a full channel dropped is not sent by a later scan either.
apply_diff_again :
    (set_order table_order again_set again_table : List Bytes) (seen : List PeerInfo)
    (d : Discovery) (left : List Event)
    → Visits set_order (seen_set d.local_id seen empty)
    → Visits table_order (add_peers set_order (seen_set d.local_id seen empty) d).entries
    → let after = record (apply_diff set_order table_order seen d) { events = left } in
      apply_diff again_set again_table seen after ≡ after
apply_diff_again set_order table_order again_set again_table seen d left all_set all_table =
    let after = record (apply_diff set_order table_order seen d) { events = left } in
    apply_diff_same again_set again_table seen after λ k.
      has-apply_diff set_order table_order seen d k all_set all_table
      ∙ ap (λ id. has k (seen_set id seen empty))
          (sym (local_id-apply_diff set_order table_order seen d))

-- When the first scan of Start fails, no loop runs, and every later Start returns an error and changes
-- nothing, whatever the resolver and the scan would do.
start_after_failure :
    (shuffle shuffle' : List PeerInfo → List PeerInfo) (so to so' to' : List Bytes)
    (results results' : Option (List (Option ServiceEntry))) (resolver : Bool) (d : Discovery)
    → (start true shuffle so to results d).1 ≡ some browse_failed
    → let failed = (start true shuffle so to results d).0 in
      start resolver shuffle' so' to' results' failed ≡ (failed, some already_started)
unfolding start scan
start_after_failure shuffle shuffle' so to so' to' (some found) results' resolver d h =
    absurd (ground arith)
start_after_failure shuffle shuffle' so to so' to' none results' resolver d h = ground arith

length-offer :
    (ev : Event) (events : List Event)
    → length events ≤ event_capacity
    → length (offer ev events) ≤ event_capacity
unfolding offer
length-offer ev events h = ground (arith, length-append events (ev ∷ []))

module _ (set : Dict Bytes PeerInfo) where
  length-add_found :
      (k : Bytes) (found : Option PeerInfo) (d : Discovery)
      → length d.events ≤ event_capacity
      → length (add_found k found d).events ≤ event_capacity
  unfolding add_found
  length-add_found k none d h = h
  length-add_found k (some info) d h =
      ground (arith, length-offer (record { type = peer_added; peer = info }) d.events h)

  length-add_peers :
      (order : List Bytes) (d : Discovery)
      → length d.events ≤ event_capacity
      → length (add_peers order set d).events ≤ event_capacity
  unfolding add_peers
  length-add_peers [] d h = h
  length-add_peers (k ∷ order) d h =
      length-add_peers order (add_found k (get k set) d) (length-add_found k (get k set) d h)

  length-drop_found :
      (k : Bytes) (still : Bool) (found : Option PeerInfo) (d : Discovery)
      → length d.events ≤ event_capacity
      → length (drop_found k still found d).events ≤ event_capacity
  unfolding drop_found
  length-drop_found k still none d h = h
  length-drop_found k still (some info) d h =
      ground (arith, length-offer (record { type = peer_removed; peer = info }) d.events h)

  length-drop_peers :
      (order : List Bytes) (d : Discovery)
      → length d.events ≤ event_capacity
      → length (drop_peers order set d).events ≤ event_capacity
  unfolding drop_peers
  length-drop_peers [] d h = h
  length-drop_peers (k ∷ order) d h =
      length-drop_peers order (drop_found k (has k set) (get k d.entries) d)
        (length-drop_found k (has k set) (get k d.entries) d h)

-- applyDiff never puts more events into the channel than it holds.
length-apply_diff :
    (set_order table_order : List Bytes) (seen : List PeerInfo) (d : Discovery)
    → length d.events ≤ event_capacity
    → length (apply_diff set_order table_order seen d).events ≤ event_capacity
unfolding apply_diff
length-apply_diff set_order table_order seen d h =
    let set = seen_set d.local_id seen empty in
    length-drop_peers set table_order (add_peers set_order set d)
      (length-add_peers set set_order d h)
