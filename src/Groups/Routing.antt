-- ===== src/Groups/Routing.antt =====
-- Sending, deduplication and delivery (internal/groups/group.go). A range over a map yields its keys
-- in an order that Go leaves open: `order`. `connected` and `deliver` are the caller's, with `none`
-- for nil; `deliver p` is true when the call returned nil.
use skall.Base.{
  ℕ, zero, suc, ◌/◌, Bool, true, false, ◌||◌, ◌&&◌, not, Option, none, some, List, [], ◌∷◌, leb,
  keep, if◌then◌else◌, ◌==◌, Result, ok, err,
}
use skall.Bytes.{Bytes, Bytes-eq, is_empty, trim_space}
use skall.Dict.{empty, get, has, put, delete, size}
use skall.Protocol.Message.{Message, is_blank, new_chat_message}
use skall.Groups.State.{
  Manager, GroupError, Ids, max_seen_per_group, group_not_found, invalid_group_id, invalid_peer_id,
  member_not_found, duplicate_message, body_required, message_id_required,
}
use skall.Groups.Methods.{view_members}

-- The loop of pruneSeen: deletes the first n keys that the range yields.
unfoldable pub evict : ℕ → List Bytes → Ids → Ids
evict zero order s = s
evict (suc n) [] s = s
evict (suc n) (k ∷ order) s = evict n order (delete k s)

-- pruneSeen, on the set of one group
unfoldable pub prune_seen : List Bytes → Ids → Ids
prune_seen order s = if leb (size s) max_seen_per_group then s else evict (size s / 2) order s

unfoldable pub mark_trimmed : Manager → List Bytes → Bytes → Bytes → Manager × Option GroupError
mark_trimmed m order group_id message_id =
    if is_empty group_id
    then (m, some invalid_group_id)
    else if is_empty message_id
    then (m, some message_id_required)
    else if not (has group_id m.groups)
    then (m, some group_not_found)
    else let s : Ids = elim (get group_id m.seen) [ none ↦ empty | some s ↦ s ] in
      (record m { seen = put group_id (prune_seen order (put message_id tt s)) m.seen }, none)

-- MarkMessageSeen
unfoldable pub mark_message_seen :
    Manager → List Bytes → Bytes → Bytes → Manager × Option GroupError
mark_message_seen m order group_id message_id =
    mark_trimmed m order (trim_space group_id) (trim_space message_id)

unfoldable pub duplicate_trimmed : Manager → Bytes → Bytes → Bool
duplicate_trimmed m group_id message_id =
    if is_empty group_id || is_empty message_id
    then false
    else elim (get group_id m.seen) [ none ↦ false | some s ↦ has message_id s ]

-- IsDuplicate
unfoldable pub is_duplicate : Manager → Bytes → Bytes → Bool
is_duplicate m group_id message_id =
    duplicate_trimmed m (trim_space group_id) (trim_space message_id)

-- What the first critical section of RouteGroupMessage ends in. A write to the nil map that a
-- missing entry of `seen` reads as is a panic.
pub data Admission : Type 0 where
  admitted panicked : Admission
  refused : GroupError → Admission

unfoldable pub admit_to : Manager → List Bytes → Message → Option Ids → Manager × Admission
admit_to m order msg none = (m, panicked)
admit_to m order msg (some s) = if has msg.id s then (m, refused duplicate_message) else (
  record m { seen = put msg.group_id (prune_seen order (put msg.id tt s)) m.seen },
  admitted,
)

-- RouteGroupMessage up to m.mu.Unlock(). The ids are used as they are, untrimmed.
unfoldable pub admit_message : Manager → List Bytes → Message → Manager × Admission
admit_message m order msg =
    if is_blank msg.group_id
    then (m, refused invalid_group_id)
    else if is_blank msg.id
    then (m, refused message_id_required)
    else if is_blank msg.sender_id
    then (m, refused invalid_peer_id)
    else if not (has msg.group_id m.groups)
    then (m, refused group_not_found)
    else admit_to m order msg (get msg.group_id m.seen)

-- Whether the loop delivers to this member, as its `continue` statements decide.
unfoldable pub receives : Message → Option (Bytes → Bool) → Option (Bytes → Bool) → Bytes → Bool
receives msg connected deliver peer =
    not (peer == msg.sender_id)
    && (elim connected [ none ↦ true | some c ↦ c peer ])
    && (elim deliver [ none ↦ false | some d ↦ d peer ])

-- RouteGroupMessage after the lock: the members to which the message was delivered.
unfoldable pub deliver_message :
    Manager
    → Message
    → Option (Bytes → Bool)
    → Option (Bytes → Bool)
    → Result GroupError (List Bytes)
deliver_message m msg connected deliver = elim (view_members m msg.group_id) [
  | err e ↦ err e
  | ok members ↦ ok (keep (receives msg connected deliver) members)
]

pub data Routed : Type 0 where
  crashed : Routed
  returned : Result GroupError (List Bytes) → Routed

-- RouteGroupMessage. `others` is what other goroutines do to the manager between the two sections.
unfoldable pub route_group_message :
    Manager
    → List Bytes
    → (Manager → Manager)
    → Message
    → Option (Bytes → Bool)
    → Option (Bytes → Bool)
    → Manager × Routed
route_group_message m order others msg connected deliver =
    let (m', admission) = admit_message m order msg in
    elim admission [
      | panicked ↦ (m', crashed)
      | refused e ↦ (m', returned (err e))
      | admitted ↦ (others m', returned (deliver_message (others m') msg connected deliver))
    ]

unfoldable pub send_trimmed :
    Manager → (ℕ → Bytes) → ℕ → Bytes → Bytes → Bytes → Result GroupError Message
send_trimmed m format now group_id sender_id body =
    if is_empty group_id
    then err invalid_group_id
    else if is_empty sender_id
    then err invalid_peer_id
    else elim (get group_id m.groups) [
      | none ↦ err group_not_found
      | some g ↦
          if not (has sender_id g.members)
          then err member_not_found
          else if is_blank body
          then err body_required
          else ok (new_chat_message format now sender_id [] group_id body)
    ]

-- SendGroupMessage; `format` and `now` are those of NewChatMessage.
unfoldable pub send_group_message :
    Manager → (ℕ → Bytes) → ℕ → Bytes → Bytes → Bytes → Result GroupError Message
send_group_message m format now group_id sender_id body =
    send_trimmed m format now (trim_space group_id) (trim_space sender_id) body
