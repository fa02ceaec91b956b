-- ===== src/Chat/Service.antt =====
-- The methods of P2PService that change a group: the group manager first, then the store. A `fault` is what
-- the database answers to each statement; `now` is the clock of the manager and of the store.
use skall.Base.{ℕ, true, false, Option, none, some, Result, ok, err}
use skall.Bytes.{Bytes, Bytes-eq}
use skall.Groups.State as GroupState
use skall.Groups.State.{GroupError, member_already_added, member_not_found, group_not_found}
use skall.Groups.Methods as GroupMethods
use skall.Storage.Rows.{Times, Store}
use skall.Storage.Errors.{StoreError}
use skall.Storage.Membership as Membership

-- The parts of P2PService that these methods use.
pub record Service : Type 0 where
  pub groups : GroupState.Manager
  pub store : Store

pub data ServiceError : Type 0 where
  from_groups : GroupError → ServiceError
  from_store : StoreError → ServiceError

-- The errors of the manager that JoinGroup, LeaveGroup and DeleteGroup pass over.
unfoldable pub join_error : Option GroupError → Option GroupError
join_error (some member_already_added) = none
join_error e = e

unfoldable pub leave_error : Option GroupError → Option GroupError
leave_error (some member_not_found) = none
leave_error e = e

unfoldable pub removal_error : Option GroupError → Option GroupError
removal_error (some group_not_found) = none
removal_error e = e

-- What the method returns once the store has answered.
unfoldable pub stored :
    GroupState.Manager → Store × Option StoreError → Service × Option ServiceError
stored m (s, none) = (record { groups = m; store = s }, none)
stored m (s, some e) = (record { groups = m; store = s }, some (from_store e))

-- The second half of each method: the manager's error is returned, or else the store is written.
unfoldable pub then_store :
    GroupState.Manager
    → Store
    → Option GroupError
    → Store × Option StoreError
    → Service × Option ServiceError
then_store m s (some e) written = (record { groups = m; store = s }, some (from_groups e))
then_store m s none written = stored m written

module _ (times : Times) where
  unfoldable pub persist_group :
      Option Bytes
      → ℕ
      → Store
      → GroupState.Manager × Result GroupError GroupState.Group
      → Service × Option ServiceError
  persist_group fault now s (m, err e) = (record { groups = m; store = s }, some (from_groups e))
  persist_group fault now s (m, ok g) =
      stored m (Membership.upsert_group times fault now s g.id g.name g.created_at)

  -- CreateGroup
  unfoldable pub create_group :
      Option Bytes → ℕ → Service → Bytes → Bytes → Service × Option ServiceError
  create_group fault now s group_id name =
      persist_group fault now s.store (GroupMethods.create_group s.groups now group_id name)

  -- JoinGroup
  unfoldable pub join_group :
      Option Bytes → Option Bytes → ℕ → Service → Bytes → Bytes → Service × Option ServiceError
  join_group fault fault' now s group_id peer_id =
      let (m, e) = GroupMethods.add_member s.groups now group_id peer_id in
      then_store m s.store (join_error e) (
        Membership.set_group_membership times fault fault' now s.store group_id peer_id now true
          now)

  -- LeaveGroup
  unfoldable pub leave_group :
      Option Bytes → Option Bytes → ℕ → Service → Bytes → Bytes → Service × Option ServiceError
  leave_group fault fault' now s group_id peer_id =
      let (m, e) = GroupMethods.remove_member s.groups now group_id peer_id in
      then_store m s.store (leave_error e) (
        Membership.set_group_membership times fault fault' now s.store group_id peer_id now false
          now)

-- DeleteGroup
unfoldable pub delete_group : Option Bytes → Service → Bytes → Service × Option ServiceError
delete_group fault s group_id =
    let (m, e) = GroupMethods.delete_group s.groups group_id in
    then_store m s.store (removal_error e) (Membership.delete_group fault s.store group_id)
