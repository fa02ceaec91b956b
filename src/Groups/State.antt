-- ===== src/Groups/State.antt =====
-- The data of internal/groups/group.go. A set of ids is a map to the unit value.
use skall.Base.{ℕ, Bool}
use skall.Bytes.{Bytes}
use skall.Dict.{Dict, empty}

pub data GroupError : Type 0 where
  group_not_found group_already_exists invalid_group_id invalid_group_name invalid_peer_id :
      GroupError
  member_already_added member_not_found duplicate_message body_required message_id_required :
      GroupError

abbrev pub max_seen_per_group : ℕ
max_seen_per_group = 10000

pub record GroupMember : Type 0 where
  pub peer_id : Bytes
  pub joined_at : ℕ
  pub active : Bool
  pub last_seen : ℕ

pub record Group : Type 0 where
  pub id : Bytes
  pub name : Bytes
  pub members : Dict Bytes GroupMember
  pub created_at : ℕ
  pub updated_at : ℕ

abbrev pub Ids : Type 0
Ids = Dict Bytes (Unit {0})

pub record Manager : Type 0 where
  pub groups : Dict Bytes Group
  pub seen : Dict Bytes Ids

-- NewManager
abbrev pub new_manager : Manager
new_manager = record { groups = empty; seen = empty }
