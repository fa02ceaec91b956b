-- ===== src/Groups/Reach.antt =====
-- Any interleaving of calls of the methods of internal/groups/group.go: a critical section is a step.
use skall.Base.{ℕ, ◌≡◌, ◌≢◌, ◌≤◌, refl, Option, none, some, List, arith}
use skall.Bytes.{Bytes, Bytes-eq, trim_space}
use skall.Dict.{get, put, size}
use skall.Protocol.Message.{Message}
use skall.Groups.State.{Manager, Ids, new_manager, max_seen_per_group}
use skall.Groups.Methods.{create_group, add_member, remove_member, delete_group}
use skall.Groups.Routing.{mark_message_seen, admit_message, admit_to, panicked}
use skall.Groups.Invariant.{IsConsistent, new_manager-IsConsistent}
use skall.Groups.Pruning.{Yields}
use skall.Groups.Keeps.{
  create_group-IsConsistent, add_member-IsConsistent, remove_member-IsConsistent,
  delete_group-IsConsistent, mark_message_seen-IsConsistent, admit_message-IsConsistent,
}

-- One critical section of one goroutine.
pub data Step (m : Manager) : Manager → Type 0 where
  create : (now : ℕ) (id name : Bytes) → Step m (create_group m now id name).0
  add : (now : ℕ) (id peer : Bytes) → Step m (add_member m now id peer).0
  remove : (now : ℕ) (id peer : Bytes) → Step m (remove_member m now id peer).0
  destroy : (id : Bytes) → Step m (delete_group m id).0
  mark :
      (order : List Bytes) (id msg_id : Bytes)
      → ((s : Ids)
          → get (trim_space id) m.seen ≡ some s
          → Yields order (put (trim_space msg_id) tt s))
      → Step m (mark_message_seen m order id msg_id).0
  admit :
      (order : List Bytes) (msg : Message)
      → ((s : Ids) → get msg.group_id m.seen ≡ some s → Yields order (put msg.id tt s))
      → Step m (admit_message m order msg).0

pub data Reach : Manager → Type 0 where
  start : Reach new_manager
  next : {m m' : Manager} → Reach m → Step m m' → Reach m'

Step-IsConsistent : {m m' : Manager} → Step m m' → IsConsistent m → IsConsistent m'
Step-IsConsistent (create now id name) c = create_group-IsConsistent c now id name
Step-IsConsistent (add now id peer) c = add_member-IsConsistent c now id peer
Step-IsConsistent (remove now id peer) c = remove_member-IsConsistent c now id peer
Step-IsConsistent (destroy id) c = delete_group-IsConsistent c id
Step-IsConsistent (mark order id msg_id y) c = mark_message_seen-IsConsistent c order id msg_id y
Step-IsConsistent (admit order msg y) c = admit_message-IsConsistent c order msg y

-- Whatever calls of the methods came, in any order and from any goroutine, the manager is consistent:
-- each group stands under its own trimmed id with a seen set beside it, and no seen set is above the
-- cap.
pub Reach-IsConsistent : {m : Manager} → Reach m → IsConsistent m
Reach-IsConsistent start = new_manager-IsConsistent
Reach-IsConsistent (next r s) = Step-IsConsistent s (Reach-IsConsistent r)

Reach-seen_bounded :
    {m : Manager} (k : Bytes) (s : Ids)
    → Reach m
    → get k m.seen ≡ some s
    → size s ≤ max_seen_per_group
Reach-seen_bounded k s r e = ((Reach-IsConsistent r).seen_at k s e).bounded

admit_to-ne-panicked :
    (m : Manager) (order : List Bytes) (msg : Message) (o : Option Ids)
    → o ≢ none
    → (admit_to m order msg o).1 ≢ panicked
unfolding admit_to
admit_to-ne-panicked m order msg none h = absurd (h refl)
admit_to-ne-panicked m order msg (some s) h = λ e. ground arith

-- RouteGroupMessage never writes to a nil map, in any state that calls of the methods can reach.
admit_message-ne-panicked :
    (m : Manager) (order : List Bytes) (msg : Message)
    → Reach m
    → (admit_message m order msg).1 ≢ panicked
unfolding admit_message
admit_message-ne-panicked m order msg r =
    let e = (Reach-IsConsistent r).paired msg.group_id in
    let safe = admit_to-ne-panicked m order msg (get msg.group_id m.seen) in
    λ p. ground (arith, e, safe)
