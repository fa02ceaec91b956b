-- ===== src/Tests/Chat.antt =====
-- The properties of the chat service and of LoadFromStore on a group with one member.
use skall.Base.{◌≡◌, refl, true, false, ◌||◌, ◌&&◌, ◌==◌, none, [], ◌∷◌}
use skall.Bytes.{Bytes, Bytes-eq, lit, trim_space, bytes_eq}
use skall.Dict.{get}
use skall.Groups.State as GroupState
use skall.Groups.Methods.{add_member, add_trimmed, add_found, find_group}
use skall.Groups.Membership.{member_of}
use skall.Storage.Rows.{Store, new_store, Pair-eq, GroupMembership}
use skall.Storage.Peers.{upsert_peer, upsert_peer_row}
use skall.Storage.Membership.{
  set_group_membership, set_membership, then_membership, membership_statement,
}
use skall.Storage.Active.{is_active}
use skall.Chat.Service.{Service, join_group, join_error, stored, then_store}
use skall.Chat.Joined.{join_group_lem}
use skall.Tests.Codec.{times}

abbrev g : Bytes
g = lit "g"

abbrev ann : GroupState.GroupMember
ann = record { peer_id = lit "ann"; joined_at = 1; active = true; last_seen = 1 }

abbrev team : GroupState.Group
team = record {
  id = g;
  name = lit "team";
  members = (lit "ann", ann) ∷ [];
  created_at = 1;
  updated_at = 1;
}

abbrev manager : GroupState.Manager
manager = record { groups = (g, team) ∷ []; seen = (g, []) ∷ [] }

abbrev store : Store
store = record new_store {
  groups = (g, record { name = lit "team"; created_at = 1 ∷ []; updated_at = 1 ∷ [] }) ∷ [];
}

abbrev service : Service
service = record { groups = manager; store = store }

join_group_example :
    let s' = (join_group times none none 5 service g (lit "bob")).0 in
    let same = trim_space g == g && trim_space (lit "bob") == lit "bob" in
    (member_of (get g s'.groups.groups) (lit "bob")
      ≡ (member_of (get g manager.groups) (lit "bob") || same))
    × (is_active s'.store g (lit "bob") ≡ (is_active store g (lit "bob") || same))
unfolding join_group join_error then_store stored add_member add_trimmed add_found find_group
    set_group_membership set_membership then_membership membership_statement upsert_peer
    upsert_peer_row get trim_space bytes_eq
join_group_example = join_group_lem times 5 service g (lit "bob") g (lit "bob") refl

abbrev former : GroupMembership
former = record {
  group_id = g;
  peer_id = lit "bob";
  joined_at = 1;
  active = false;
  last_seen = 2;
  updated_at = 3;
}
