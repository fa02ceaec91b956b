-- ===== src/Ui/Update.antt =====
-- AppModel.Update (internal/ui/app.go).
use skall.Base.{
  Bool, true, false, not, ◌&&◌, ◌||◌, Option, none, some, List, [], ◌∷◌, if◌then◌else◌, ◌==◌,
}
use skall.Bytes.{Bytes, Bytes-eq, lit}
use skall.Chat.Node.{Event, new_message, peer_connected, status_changed}
use skall.Chat.Lists.{Conversation, Group, Peer}
use skall.Ui.Sidebar.{Sidebar, update_key}
use skall.Ui.App.{
  App, StatusBar, focus_sidebar, focus_chat, is_chat, Msg, Cmd, Answers, quit_msg, peers_updated,
  conversations_updated, status_msg, error_msg, new_message_msg, send_request, send_result,
  event_channel, key_msg, quit, listen, dispatch, do_send, append_message, set_focus, open_selected,
  update_chat_key,
}

-- statusBarModel.Update on MsgError
unfoldable pub show_error : Option Bytes → StatusBar → StatusBar
show_error none b = record b { err_msg = [] }
show_error (some text) b = record b { err_msg = text }

-- The data that a refresh puts into the sidebar; an error leaves it as it was.
unfoldable pub with_peers : Option (List Peer) → Sidebar → Sidebar
with_peers none m = m
with_peers (some peers) m = record m { peers = peers }

unfoldable pub with_conversations : Option (List Conversation) → Sidebar → Sidebar
with_conversations none m = m
with_conversations (some convs) m = record m { conversations = convs }

unfoldable pub with_groups : Option (List Group) → Sidebar → Sidebar
with_groups none m = m
with_groups (some groups) m = record m { groups = groups }

-- handleServiceEvent
unfoldable pub handle_service_event : Answers → Event → Cmd
handle_service_event svc (new_message id dm) = dispatch (new_message_msg id dm)
handle_service_event svc peer_connected = dispatch peers_updated
handle_service_event svc (status_changed status) = dispatch (status_msg status svc.peer_count)

-- doSend: whether the conversation is a group, by the groups that ListGroups gives.
unfoldable pub is_group_of : List Group → Bytes → Bool
is_group_of [] id = false
is_group_of (g ∷ groups) id = g.group_id == id || is_group_of groups id

-- The end of Update on a key: the focused model gets it.
unfoldable pub delegate : (Bytes → Bytes → Bytes) → Bytes → App → App × List Cmd
delegate edit key m = elim m.focus [
  | focus_sidebar ↦ (record m { sidebar = update_key key m.sidebar }, [])
  | focus_chat ↦
      (let (v, cmds) = update_chat_key edit key m.chat_view in (record m { chat_view = v }, cmds))
]

-- Update on a key that no global shortcut takes.
unfoldable pub update_local : (Bytes → Bytes → Bytes) → Answers → Bytes → App → App × List Cmd
update_local edit svc key m =
    if m.show_help
    then (m, [])
    else if key == lit "right" || key == lit "l"
    then (set_focus focus_chat m, [])
    else if key == lit "left" || key == lit "h"
    then (set_focus focus_sidebar m, [])
    else if key == lit "enter" && not (is_chat m.focus)
    then (open_selected svc m, [])
    else delegate edit key m

-- Update on a key
unfoldable pub update_app_key : (Bytes → Bytes → Bytes) → Answers → Bytes → App → App × List Cmd
update_app_key edit svc key m =
    if key == lit "ctrl+c"
      || (key == lit "q" && (not (is_chat m.focus) || not m.chat_view.input_focused))
    then (record m { cancelled = true }, quit ∷ [])
    else if key == lit "?"
    then (record m { show_help = not m.show_help }, [])
    else if key == lit "esc" && m.show_help
    then (record m { show_help = false }, [])
    else update_local edit svc key m

-- Update
unfoldable pub update : (Bytes → Bytes → Bytes) → Answers → Msg → App → App × List Cmd
update edit svc quit_msg m = (record m { quitting = true; cancelled = true }, quit ∷ [])
update edit svc (status_msg status count) m =
    (record m { status_bar = record m.status_bar { status = status; peer_count = count } }, [])
update edit svc (error_msg e) m = (record m { status_bar = show_error e m.status_bar }, [])
update edit svc peers_updated m = (record m { sidebar = with_peers svc.peers m.sidebar }, [])
update edit svc conversations_updated m = (
  record m { sidebar = with_groups svc.groups (with_conversations svc.conversations m.sidebar) },
  [],
)
update edit svc (new_message_msg id dm) m = (
  (if id == m.chat_view.conversation_id
      then record m { chat_view = append_message dm m.chat_view }
      else m),
  dispatch conversations_updated ∷ [],
)
update edit svc (send_request id body) m = (m, do_send id body ∷ [])
update edit svc (send_result none) m = (m, [])
update edit svc (send_result (some e)) m =
    (record m { status_bar = show_error (some e) m.status_bar }, [])
update edit svc (event_channel ev) m = (m, handle_service_event svc ev ∷ listen ∷ [])
update edit svc (key_msg key) m = update_app_key edit svc key m
