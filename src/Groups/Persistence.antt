-- ===== src/Groups/Persistence.antt =====
-- LoadFromStore (internal/groups/persistence.go): the manager is filled from the store at the start.
use skall.Base.{true, Option, none, some, List, [], ◌∷◌, Result, ok, err, if◌then◌else◌, not}
use skall.Bytes.{Bytes, Bytes-eq}
use skall.Dict.{Dict, empty, has, put}
use skall.Groups.State.{Manager, Group, GroupMember}
use skall.Groups.Methods.{get_group}
use skall.Storage.Rows.{Times, Store, StoredGroup, GroupMembership}
use skall.Storage.Errors.{StoreError}
use skall.Storage.Membership as Membership

-- The group record that is restored, with no members yet.
unfoldable pub restored : StoredGroup → Group
restored sg = record {
  id = sg.group_id;
  name = sg.name;
  members = empty;
  created_at = sg.created_at;
  updated_at = sg.updated_at;
}

-- One turn of the loop over the memberships of a group, on the members of that group.
unfoldable pub restore_member : GroupMembership → Dict Bytes GroupMember → Dict Bytes GroupMember
restore_member m members =
    let member : GroupMember = record {
      peer_id = m.peer_id;
      joined_at = m.joined_at;
      active = true;
      last_seen = m.last_seen;
    } in
    if not m.active
    then members
    else if has m.peer_id members
    then members
    else put m.peer_id member members

unfoldable pub restore_members :
    List GroupMembership → Dict Bytes GroupMember → Dict Bytes GroupMember
restore_members [] members = members
restore_members (m ∷ rows) members = restore_members rows (restore_member m members)

-- The group with what ListGroupMembers returned; an error is logged and leaves the group empty.
unfoldable pub restore_group : StoredGroup → Result StoreError (List GroupMembership) → Group
restore_group sg (err e) = restored sg
restore_group sg (ok rows) = record (restored sg) { members = restore_members rows empty }

module _ (times : Times) where
  unfoldable pub load_group :
      (Bytes → Option Bytes) → Store → StoredGroup → Option Group → Manager → Manager
  load_group fault s sg (some g) m = m
  load_group fault s sg none m = record {
    groups =
        put sg.group_id
          (restore_group sg (Membership.list_group_members times (fault sg.group_id) s sg.group_id))
          m.groups;
    seen = put sg.group_id empty m.seen;
  }

  -- The loop over the groups; `fault` is what the database answers for each group's members.
  unfoldable pub load_groups : (Bytes → Option Bytes) → Store → List StoredGroup → Manager → Manager
  load_groups fault s [] m = m
  load_groups fault s (sg ∷ rest) m =
      load_groups fault s rest (load_group fault s sg (get_group m sg.group_id) m)

  unfoldable pub load_listed :
      (Bytes → Option Bytes)
      → Store
      → Result StoreError (List StoredGroup)
      → Manager
      → Manager × Option StoreError
  load_listed fault s (err e) m = (m, some e)
  load_listed fault s (ok groups) m = (load_groups fault s groups m, none)

  -- LoadFromStore
  unfoldable pub load_from_store :
      Option Bytes → (Bytes → Option Bytes) → Store → Manager → Manager × Option StoreError
  load_from_store fault faults s m = load_listed faults s (Membership.list_groups times fault s) m
