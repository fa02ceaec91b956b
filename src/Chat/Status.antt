-- ===== src/Chat/Status.antt =====
-- The status of a message that was sent (internal/chat/p2p_service.go), and who a group message goes to.
use skall.Base.{
  ℕ, ◌≡◌, ◌↔◌, refl, ap, sym, ◌∙◌, Bool, true, false, not, ◌&&◌, Option, none, some, List, [], ◌∷◌,
  arith, contains, if◌then◌else◌, ◌==◌, eq_iff,
}
use skall.Bytes.{Bytes, Bytes-eq, is_empty, trim_space}
use skall.Dict.{get, has, get-put_self}
use skall.Protocol.Message.{Message, new_chat_message, is_blank}
use skall.Protocol.Message.Valid.{IsValid}
use skall.Storage.Rows.{
  Times, Store, MessageRow, direction_outbound, status_pending, status_sent, status_failed,
}
use skall.Storage.Messages.{update_message_status, update_row}
use skall.Storage.RoundTrip.{insert_message_lem}
use skall.Chat.Subscribers.{Subscribers}
use skall.Chat.Safe.{IsSafe}
use skall.Chat.Panics.{publish-IsSafe}
use skall.Chat.Node.{
  Node, Event, new_message, sender_of, set_peer_name, stored_to_display, published,
  with_subscribers,
}
use skall.Chat.Sending.{
  Call, Network, SendError, resolve_peer, send_failed, persist, set_status, finish, succeeded,
  send_message, send_direct, group_targets,
}

-- The status of a stored message.
abbrev pub status_of : Option MessageRow → Option Bytes
status_of none = none
status_of (some row) = some row.status

abbrev pub status_in : Bytes → Store → Option Bytes
status_in id s = status_of (get id s.messages)

-- The event is out: the subscribers are still safe, and nothing else of the node is changed.
pub published-IsSafe :
    (ev : Event) (n : Node)
    → IsSafe n.subscribers
    → (subs : Subscribers Event) × (published ev n ≡ some (record n { subscribers = subs }))
      × IsSafe subs
unfolding published
published-IsSafe ev n h =
    let (subs, sent, safe) = publish-IsSafe ev n.subscribers h in
    (subs, ap (with_subscribers n) sent, safe)

-- What a call of SendDirect comes to: no panic, the status in the store, and the error.
abbrev pub Sent : Bytes → Bool → Option (Node × Option SendError) → Type 0
Sent id delivered r =
    (n' : Node) × (e : Option SendError) × (r ≡ some (n', e))
    × (status_in id n'.store ≡ some (if delivered then status_sent else status_failed))
    × ((e ≡ none) ↔ (delivered ≡ true))

module _ (times : Times) where
  persist_lem :
      (call : Call) (m : Message) (n : Node)
      → call.insert_fault ≡ none
      → IsValid m
      → has m.id n.store.messages ≡ false
      → has m.id (persist times call m n).store.messages ≡ true
  unfolding persist
  persist_lem call m n working valid new = rw working (
      ground (
        arith,
        (insert_message_lem times call.now n.store m direction_outbound status_pending m.id
            valid).1,
        new,
        eq_iff m.id m.id,
      ))

  update_row-status_in :
      (found : Option MessageRow) (now : ℕ) (s : Store) (id status : Bytes)
      → get id s.messages ≡ found
      → has id s.messages ≡ true
      → status_in id (update_row times found now s id status).0 ≡ some status
  unfolding update_row
  update_row-status_in none now s id status here there = absurd (ground (arith, here))
  update_row-status_in (some row) now s id status here there =
      ap status_of
        (get-put_self id (record row { status = status; updated_at = times.format now }) s.messages)

  set_status_lem :
      (call : Call) (m : Message) (status : Bytes) (n : Node)
      → call.update_fault ≡ none
      → IsValid m
      → trim_space m.id ≡ m.id
      → is_empty status ≡ false
      → has m.id n.store.messages ≡ true
      → status_in m.id (set_status times call m status n).store ≡ some status
  unfolding set_status update_message_status is_blank
  set_status_lem call m status n working valid trimmed given there =
      let id_given : is_empty m.id ≡ false = ap is_empty (sym trimmed) ∙ valid.id_given in
      rw (working, trimmed, id_given, given)
        (update_row-status_in (get m.id n.store.messages) call.now n.store m.id status refl there)

  finish_lem :
      (call : Call) (conversation_id : Bytes) (m : Message) (n : Node)
      → IsSafe n.subscribers
      → call.update_fault ≡ none
      → IsValid m
      → trim_space m.id ≡ m.id
      → has m.id n.store.messages ≡ true
      → (n' : Node) × (finish times call conversation_id m n ≡ some n')
        × (status_in m.id n'.store ≡ some status_sent)
        × IsSafe n'.subscribers
  unfolding finish
  finish_lem call conversation_id m n safe working valid trimmed there =
      let sent = set_status times call m status_sent n in
      let (subs, out, safe') =
        published-IsSafe (new_message conversation_id (stored_to_display sent m direction_outbound))
          sent (unfold set_status in safe) in
      (
        record sent { subscribers = subs },
        out,
        set_status_lem call m status_sent n working valid trimmed refl there,
        safe',
      )

  failed_Sent :
      (call : Call) (m : Message) (n : Node) (e : SendError)
      → call.update_fault ≡ none
      → IsValid m
      → trim_space m.id ≡ m.id
      → has m.id n.store.messages ≡ true
      → Sent m.id false (some (set_status times call m status_failed n, some e))
  failed_Sent call m n e working valid trimmed there = (
    set_status times call m status_failed n,
    some e,
    refl,
    set_status_lem call m status_failed n working valid trimmed refl there,
    (λ h. ground arith, λ h. ground arith),
  )

  send_message_lem :
      (call : Call) (net : Network) (peer_id : Bytes) (m : Message) (n : Node)
      → IsSafe n.subscribers
      → call.insert_fault ≡ none
      → call.update_fault ≡ none
      → IsValid m
      → trim_space m.id ≡ m.id
      → has m.id n.store.messages ≡ false
      → Sent m.id
          (net.decodes peer_id && net.sends peer_id m)
          (send_message times call net peer_id m n)
  unfolding send_message
  send_message_lem call net peer_id m n safe inserts updates valid trimmed new =
      by_tests (net.decodes peer_id) (net.sends peer_id m)
    where
      kept : Node
      kept = set_peer_name peer_id peer_id (persist times call m n)

      there : has m.id kept.store.messages ≡ true
      there = unfold set_peer_name in persist_lem call m n inserts valid new

      by_tests :
          (decodes sends : Bool)
          → Sent m.id (decodes && sends) (
              if not decodes
              then some (set_status times call m status_failed kept, some resolve_peer)
              else if not sends
              then some (set_status times call m status_failed kept, some send_failed)
              else succeeded (finish times call peer_id m kept))
      by_tests false sends = failed_Sent call m kept resolve_peer updates valid trimmed there
      by_tests true false = failed_Sent call m kept send_failed updates valid trimmed there
      by_tests true true =
          let (n', out, status, safe') =
            finish_lem call peer_id m kept (unfold set_peer_name persist in safe) updates valid
              trimmed there in
          (n', none, ap (succeeded) out, status, (λ h. refl, λ h. refl))

  -- With a working database and safe subscribers, SendDirect of a valid message with a new ID
  -- without white space at its ends does not panic: the message is in the store as sent, and there
  -- is no error, when its peer ID decodes and the host sends it; else it is there as failed, and
  -- there is an error.
  pub send_direct_lem :
      (call : Call) (net : Network) (peer_id body : Bytes) (n : Node)
      → IsSafe n.subscribers
      → call.insert_fault ≡ none
      → call.update_fault ≡ none
      → IsValid (new_chat_message call.format call.now (sender_of n) peer_id [] body)
      → trim_space (call.format call.now) ≡ call.format call.now
      → has (call.format call.now) n.store.messages ≡ false
      → Sent
          (call.format call.now)
          (net.decodes peer_id
            && net.sends peer_id
                (new_chat_message call.format call.now (sender_of n) peer_id [] body))
          (send_direct times call net peer_id body n)
  unfolding send_direct new_chat_message
  send_direct_lem call net peer_id body n safe inserts updates valid trimmed new =
      send_message_lem call net peer_id
        (new_chat_message call.format call.now (sender_of n) peer_id [] body) n safe inserts updates
        valid trimmed new

-- A group message is sent to a peer exactly if it is a member of the group, is not the local identity, has an
-- ID that decodes, and is connected.
contains-group_targets :
    (net : Network) (local k : Bytes) (members : List Bytes)
    → contains k (group_targets net local members)
      ≡ (contains k members && not (k == local) && net.decodes k && contains k net.connected)
unfolding group_targets
contains-group_targets net local k [] = refl
contains-group_targets net local k (j ∷ members) =
    ground (arith, contains-group_targets net local k members, eq_iff j k)
