-- ===== src/Groups/Methods.antt =====
-- The methods of groups.Manager that take the lock once. `now` is time.Now().UTC() at the call.
use skall.Base.{
  ℕ, Bool, true, false, ◌||◌, not, Option, none, some, List, if◌then◌else◌, Result, ok, err,
}
use skall.Bytes.{Bytes, Bytes-eq, is_empty, trim_space, bytes_le}
use skall.Dict.{empty, get, has, put, delete, keys}
use skall.Dict.Sort.{sort}
use skall.Groups.State.{
  Manager, Group, GroupMember, GroupError, group_not_found, group_already_exists, invalid_group_id,
  invalid_group_name, invalid_peer_id, member_already_added, member_not_found,
}

unfoldable pub create_trimmed : Manager → ℕ → Bytes → Bytes → Manager × Result GroupError Group
create_trimmed m now group_id name =
    if is_empty group_id
    then (m, err invalid_group_id)
    else if is_empty name
    then (m, err invalid_group_name)
    else if has group_id m.groups
    then (m, err group_already_exists)
    else let group : Group = record {
      id = group_id;
      name = name;
      members = empty;
      created_at = now;
      updated_at = now;
    } in
      (record { groups = put group_id group m.groups; seen = put group_id empty m.seen }, ok group)

-- CreateGroup
unfoldable pub create_group : Manager → ℕ → Bytes → Bytes → Manager × Result GroupError Group
create_group m now group_id name = create_trimmed m now (trim_space group_id) (trim_space name)

-- GetGroup
unfoldable pub get_group : Manager → Bytes → Option Group
get_group m group_id = get (trim_space group_id) m.groups

-- The checks that AddMember and removeMember begin with: the group, or the error.
unfoldable pub find_group : Manager → Bytes → Bytes → Result GroupError Group
find_group m group_id peer_id =
    if is_empty group_id
    then err invalid_group_id
    else if is_empty peer_id
    then err invalid_peer_id
    else elim (get group_id m.groups) [ none ↦ err group_not_found | some g ↦ ok g ]

-- The group after a peer joined.
abbrev pub with_member : ℕ → Bytes → Group → Group
with_member now peer_id g =
    let member : GroupMember = record {
      peer_id = peer_id;
      joined_at = now;
      active = true;
      last_seen = now;
    } in
    record g { members = put peer_id member g.members; updated_at = now }

-- The group after a peer left.
abbrev pub without_member : ℕ → Bytes → Group → Group
without_member now peer_id g = record g { members = delete peer_id g.members; updated_at = now }

unfoldable pub add_found :
    Manager → ℕ → Bytes → Bytes → Result GroupError Group → Manager × Option GroupError
add_found m now group_id peer_id (err e) = (m, some e)
add_found m now group_id peer_id (ok g) =
    if has peer_id g.members
    then (m, some member_already_added)
    else (record m { groups = put group_id (with_member now peer_id g) m.groups }, none)

unfoldable pub add_trimmed : Manager → ℕ → Bytes → Bytes → Manager × Option GroupError
add_trimmed m now group_id peer_id =
    add_found m now group_id peer_id (find_group m group_id peer_id)

-- AddMember
unfoldable pub add_member : Manager → ℕ → Bytes → Bytes → Manager × Option GroupError
add_member m now group_id peer_id = add_trimmed m now (trim_space group_id) (trim_space peer_id)

unfoldable pub remove_found :
    Manager → ℕ → Bytes → Bytes → Result GroupError Group → Manager × Option GroupError
remove_found m now group_id peer_id (err e) = (m, some e)
remove_found m now group_id peer_id (ok g) =
    if not (has peer_id g.members)
    then (m, some member_not_found)
    else (record m { groups = put group_id (without_member now peer_id g) m.groups }, none)

unfoldable pub remove_trimmed : Manager → ℕ → Bytes → Bytes → Manager × Option GroupError
remove_trimmed m now group_id peer_id =
    remove_found m now group_id peer_id (find_group m group_id peer_id)

-- removeMember, which RemoveMember and LeaveGroup are
unfoldable pub remove_member : Manager → ℕ → Bytes → Bytes → Manager × Option GroupError
remove_member m now group_id peer_id =
    remove_trimmed m now (trim_space group_id) (trim_space peer_id)

unfoldable pub delete_trimmed : Manager → Bytes → Manager × Option GroupError
delete_trimmed m group_id =
    if is_empty group_id
    then (m, some invalid_group_id)
    else if has group_id m.groups
    then (record { groups = delete group_id m.groups; seen = delete group_id m.seen }, none)
    else (m, some group_not_found)

-- DeleteGroup
unfoldable pub delete_group : Manager → Bytes → Manager × Option GroupError
delete_group m group_id = delete_trimmed m (trim_space group_id)

-- ViewMembers
unfoldable pub view_members : Manager → Bytes → Result GroupError (List Bytes)
view_members m group_id =
    let id = trim_space group_id in
    if is_empty id then err invalid_group_id else elim (get id m.groups) [
      | none ↦ err group_not_found
      | some g ↦ ok (sort bytes_le (keys g.members))
    ]

-- ListGroups
unfoldable pub list_groups : Manager → List Bytes
list_groups m = sort bytes_le (keys m.groups)

unfoldable pub member_trimmed : Manager → Bytes → Bytes → Bool
member_trimmed m group_id peer_id =
    if is_empty group_id || is_empty peer_id
    then false
    else elim (get group_id m.groups) [ none ↦ false | some g ↦ has peer_id g.members ]

-- IsMember
unfoldable pub is_member : Manager → Bytes → Bytes → Bool
is_member m group_id peer_id = member_trimmed m (trim_space group_id) (trim_space peer_id)
