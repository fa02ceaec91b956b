-- ===== src/Chat/Sending.antt =====
-- SendDirect and SendGroup (internal/chat/p2p_service.go). What the database and the network answer, and
-- peer.Decode, are parameters.
use skall.Base.{
  ℕ, Bool, not, ◌||◌, Option, none, some, List, [], ◌∷◌, contains, if◌then◌else◌, ◌==◌, Result, ok,
  err,
}
use skall.Bytes.{Bytes, Bytes-eq}
use skall.Protocol.Message.{Message, new_chat_message}
use skall.Groups.State.{GroupError}
use skall.Groups.Methods.{view_members}
use skall.Groups.Routing.{send_group_message}
use skall.Storage.Rows.{Times, direction_outbound, status_pending, status_sent, status_failed}
use skall.Storage.Messages.{insert_message, update_message_status}
use skall.Chat.Node.{Node, new_message, sender_of, set_peer_name, stored_to_display, published}

-- The errors of the statements of one call, the clock, and strconv.FormatInt(_, 10).
pub record Call : Type 0 where
  pub now : ℕ
  pub format : ℕ → Bytes
  pub insert_fault : Option Bytes
  pub update_fault : Option Bytes

-- The network: the IDs that peer.Decode takes, the connected peers, and whether host.SendMessage succeeds.
pub record Network : Type 0 where
  pub decodes : Bytes → Bool
  pub connected : List Bytes
  pub sends : Bytes → Message → Bool

pub data SendError : Type 0 where
  resolve_peer send_failed : SendError
  from_groups : GroupError → SendError

abbrev pub succeeded : Option Node → Option (Node × Option SendError)
succeeded none = none
succeeded (some n) = some (n, none)

-- The loop of SendGroup: the members that host.SendMessage is called for.
unfoldable pub group_targets : Network → Bytes → List Bytes → List Bytes
group_targets net local [] = []
group_targets net local (member ∷ members) =
    let rest = group_targets net local members in
    if member == local || not (net.decodes member) || not (contains member net.connected)
    then rest
    else member ∷ rest

abbrev pub members_of : Result GroupError (List Bytes) → List Bytes
members_of (err e) = []
members_of (ok members) = members

module _ (times : Times) where
  unfoldable pub persist : Call → Message → Node → Node
  persist call m n = record n {
    store =
        (insert_message times call.insert_fault call.now n.store m direction_outbound
          status_pending).0;
  }

  unfoldable pub set_status : Call → Message → Bytes → Node → Node
  set_status call m status n = record n {
    store = (update_message_status times call.update_fault call.now n.store m.id status).0;
  }

  -- The end of SendDirect and of SendGroup: the status, and the event.
  unfoldable pub finish : Call → Bytes → Message → Node → Option Node
  finish call conversation_id m n =
      let n' = set_status call m status_sent n in
      published (new_message conversation_id (stored_to_display n' m direction_outbound)) n'

  -- SendDirect once the message is made.
  unfoldable pub send_message :
      Call → Network → Bytes → Message → Node → Option (Node × Option SendError)
  send_message call net peer_id m n =
      let n' = set_peer_name peer_id peer_id (persist call m n) in
      if not (net.decodes peer_id)
      then some (set_status call m status_failed n', some resolve_peer)
      else if not (net.sends peer_id m)
      then some (set_status call m status_failed n', some send_failed)
      else succeeded (finish call peer_id m n')

  unfoldable pub send_direct :
      Call → Network → Bytes → Bytes → Node → Option (Node × Option SendError)
  send_direct call net peer_id body n =
      send_message call net peer_id
        (new_chat_message call.format call.now (sender_of n) peer_id [] body) n

  -- SendGroup: the node after it, and the members that the message was sent to; what the network answers
  -- is only logged.
  unfoldable pub send_made :
      Call
      → Network
      → Bytes
      → Result GroupError Message
      → Node
      → Option (Node × Option SendError) × List Bytes
  send_made call net group_id (err e) n = (some (n, some (from_groups e)), [])
  send_made call net group_id (ok m) n = (
    succeeded (finish call group_id m (persist call m n)),
    group_targets net n.local_id (members_of (view_members n.groups group_id)),
  )

  unfoldable pub send_group :
      Call → Network → Bytes → Bytes → Node → Option (Node × Option SendError) × List Bytes
  send_group call net group_id body n =
      send_made call net group_id
        (send_group_message n.groups call.format call.now group_id n.local_id body) n
