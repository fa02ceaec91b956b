-- ===== src/Storage/Membership.antt =====
-- Groups and their memberships: UpsertGroup, GetGroup, ListGroups, DeleteGroup, SetGroupMembership and
-- ListGroupMembers, with the foreign key from memberships to groups and its ON DELETE CASCADE.
use skall.Base.{
  ℕ, Bool, not, Option, none, some, List, [], ◌∷◌, map, nat_eq, if◌then◌else◌, ◌==◌, Result, ok,
  err,
}
use skall.Bytes.{Bytes, Bytes-eq, is_empty, trim_space}
use skall.Dict.{Dict, get, has, put, delete}
use skall.Dict.Sort.{sort}
use skall.Storage.Rows.{
  Times, must_parse_time, Pair-eq, GroupRow, MembershipRow, Store, StoredGroup, GroupMembership,
}
use skall.Storage.Errors.{
  StoreError, group_id_required, group_name_required, peer_id_required, no_rows, classify_db_error,
  foreign_key_failed,
}
use skall.Storage.Peers.{by_key, upsert_peer}

-- ON DELETE CASCADE: the memberships of other groups.
unfoldable pub without_group :
    Bytes → Dict (Bytes × Bytes) MembershipRow → Dict (Bytes × Bytes) MembershipRow
without_group id [] = []
without_group id (((g, p), row) ∷ m) =
    let rest = without_group id m in if g == id then rest else ((g, p), row) ∷ rest

-- The memberships of one group, by peer.
unfoldable pub of_group : Bytes → Dict (Bytes × Bytes) MembershipRow → Dict Bytes MembershipRow
of_group id [] = []
of_group id (((g, p), row) ∷ m) =
    let rest = of_group id m in if g == id then (p, row) ∷ rest else rest

-- DeleteGroup
unfoldable pub delete_group : Option Bytes → Store → Bytes → Store × Option StoreError
delete_group (some fault) s group_id =
    if is_empty (trim_space group_id)
    then (s, some group_id_required)
    else (s, some (classify_db_error fault))
delete_group none s group_id =
    let id = trim_space group_id in
    if is_empty id
    then (s, some group_id_required)
    else if has id s.groups
    then (
      record s { groups = delete id s.groups; memberships = without_group id s.memberships },
      none,
    )
    else (s, some no_rows)

module _ (times : Times) where
  unfoldable pub group_row : Option GroupRow → Bytes → ℕ → ℕ → GroupRow
  group_row none name created_at now = record {
    name = name;
    created_at = times.format created_at;
    updated_at = times.format now;
  }
  group_row (some old) name created_at now = record old {
    name = name;
    updated_at = times.format now;
  }

  unfoldable pub upsert_group_row :
      Option Bytes → ℕ → Store → Bytes → Bytes → ℕ → Store × Option StoreError
  upsert_group_row (some fault) now s id name created_at = (s, some (classify_db_error fault))
  upsert_group_row none now s id name created_at =
      let row = group_row (get id s.groups) name created_at now in
      (record s { groups = put id row s.groups }, none)

  -- UpsertGroup
  unfoldable pub upsert_group :
      Option Bytes → ℕ → Store → Bytes → Bytes → ℕ → Store × Option StoreError
  upsert_group fault now s group_id name created_at =
      let id = trim_space group_id in
      let label = trim_space name in
      if is_empty id
      then (s, some group_id_required)
      else if is_empty label
      then (s, some group_name_required)
      else upsert_group_row fault now s id label (if nat_eq created_at 0 then now else created_at)

  unfoldable pub membership_row : Option MembershipRow → ℕ → Bool → ℕ → ℕ → MembershipRow
  membership_row none joined_at active last_seen now = record {
    joined_at = times.format joined_at;
    active = if active then 1 else 0;
    last_seen = times.format last_seen;
    updated_at = times.format now;
  }
  membership_row (some old) joined_at active last_seen now = record old {
    active = if active then 1 else 0;
    last_seen = times.format last_seen;
    updated_at = times.format now;
  }

  -- The second statement of SetGroupMembership, with the foreign keys of the engine on, as Open sets them.
  unfoldable pub membership_statement :
      Option Bytes → ℕ → Store → Bytes → Bytes → ℕ → Bool → ℕ → Store × Option StoreError
  membership_statement (some fault) now s group_id peer_id joined_at active last_seen =
      (s, some (classify_db_error fault))
  membership_statement none now s group_id peer_id joined_at active last_seen =
      if not (has group_id s.groups)
      then (s, some (classify_db_error foreign_key_failed))
      else let key : Bytes × Bytes = (group_id, peer_id) in
        let row = membership_row (get key s.memberships) joined_at active last_seen now in
        (record s { memberships = put key row s.memberships }, none)

  -- What follows the first statement.
  unfoldable pub then_membership :
      Store × Option StoreError
      → Option Bytes
      → ℕ
      → Bytes
      → Bytes
      → ℕ
      → Bool
      → ℕ
      → Store × Option StoreError
  then_membership (s, some e) fault now group_id peer_id joined_at active last_seen = (s, some e)
  then_membership (s, none) fault now group_id peer_id joined_at active last_seen =
      membership_statement fault now s group_id peer_id joined_at active last_seen

  -- SetGroupMembership after its arguments are trimmed and dated: the peer is written first, outside
  -- any transaction.
  unfoldable pub set_membership :
      Option Bytes
      → Option Bytes
      → ℕ
      → Store
      → Bytes
      → Bytes
      → ℕ
      → Bool
      → ℕ
      → Store × Option StoreError
  set_membership fault fault' now s group_id peer_id joined_at active last_seen =
      then_membership (upsert_peer times fault now s peer_id peer_id last_seen) fault' now group_id
        peer_id joined_at active last_seen

  -- SetGroupMembership
  unfoldable pub set_group_membership :
      Option Bytes
      → Option Bytes
      → ℕ
      → Store
      → Bytes
      → Bytes
      → ℕ
      → Bool
      → ℕ
      → Store × Option StoreError
  set_group_membership fault fault' now s group_id peer_id joined_at active last_seen =
      let group = trim_space group_id in
      let peer = trim_space peer_id in
      let joined = if nat_eq joined_at 0 then now else joined_at in
      let seen = if nat_eq last_seen 0 then joined else last_seen in
      if is_empty group
      then (s, some group_id_required)
      else if is_empty peer
      then (s, some peer_id_required)
      else set_membership fault fault' now s group peer joined active seen

  unfoldable pub to_group : Bytes × GroupRow → StoredGroup
  to_group (id, row) = record {
    group_id = id;
    name = row.name;
    created_at = must_parse_time times row.created_at;
    updated_at = must_parse_time times row.updated_at;
  }

  -- ListGroups
  unfoldable pub list_groups : Option Bytes → Store → Result StoreError (List StoredGroup)
  list_groups (some fault) s = err (classify_db_error fault)
  list_groups none s = ok (map to_group (sort by_key s.groups))

  -- GetGroup
  unfoldable pub get_group : Option Bytes → Store → Bytes → Result StoreError StoredGroup
  get_group fault s group_id =
      let id = trim_space group_id in
      if is_empty id then err group_id_required else elim fault [
        | some text ↦ err (classify_db_error text)
        | none ↦ elim (get id s.groups) [ none ↦ err no_rows | some row ↦ ok (to_group (id, row)) ]
      ]

  unfoldable pub to_membership : Bytes → Bytes × MembershipRow → GroupMembership
  to_membership group_id (peer_id, row) = record {
    group_id = group_id;
    peer_id = peer_id;
    joined_at = must_parse_time times row.joined_at;
    active = nat_eq row.active 1;
    last_seen = must_parse_time times row.last_seen;
    updated_at = must_parse_time times row.updated_at;
  }

  -- ListGroupMembers
  unfoldable pub list_group_members :
      Option Bytes → Store → Bytes → Result StoreError (List GroupMembership)
  list_group_members fault s group_id =
      let id = trim_space group_id in
      if is_empty id then err group_id_required else elim fault [
        | some text ↦ err (classify_db_error text)
        | none ↦ ok (map (to_membership id) (sort by_key (of_group id s.memberships)))
      ]
