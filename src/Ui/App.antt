-- ===== src/Ui/App.antt =====
-- The chat view, the status bar and the root model (internal/ui/chatview.go, statusbar.go and app.go).
-- textinput is a parameter: what a key makes of the text of the input.
use skall.Base.{
  ℕ, Bool, true, false, not, ◌||◌, Option, none, some, List, [], ◌∷◌, ◌++◌, if◌then◌else◌, ◌==◌,
}
use skall.Bytes.{Bytes, Bytes-eq, lit, is_empty, trim_space}
use skall.Chat.Node.{DisplayMessage, ConnectionStatus, connecting, Event}
use skall.Chat.Lists.{Conversation, Group, Peer}
use skall.Ui.Sidebar.{
  Sidebar, new_sidebar, set_focused, selected_conversation, selected_group, selected_peer,
}

pub record ChatView : Type 0 where
  pub conversation_id : Bytes
  pub title : Bytes
  pub messages : List DisplayMessage
  pub input : Bytes
  pub input_focused : Bool
  pub focused : Bool

pub record StatusBar : Type 0 where
  pub status : ConnectionStatus
  pub peer_count : ℕ
  pub err_msg : Bytes

pub data FocusRegion : Type 0 where
  focus_sidebar focus_chat : FocusRegion

-- `cancelled` says that m.cancel was called.
pub record App : Type 0 where
  pub status_bar : StatusBar
  pub sidebar : Sidebar
  pub chat_view : ChatView
  pub focus : FocusRegion
  pub show_help : Bool
  pub quitting : Bool
  pub cancelled : Bool

-- The messages that Update handles, without tea.WindowSizeMsg. An error is its text.
pub data Msg : Type 0 where
  quit_msg peers_updated conversations_updated : Msg
  status_msg : ConnectionStatus → ℕ → Msg
  error_msg : Option Bytes → Msg
  new_message_msg : Bytes → DisplayMessage → Msg
  send_request : Bytes → Bytes → Msg
  send_result : Option Bytes → Msg
  event_channel : Event → Msg
  key_msg : Bytes → Msg

-- What a tea.Cmd does when it runs.
pub data Cmd : Type 0 where
  quit listen : Cmd
  dispatch : Msg → Cmd
  do_send : Bytes → Bytes → Cmd

-- What the ChatService answers during one call of Update; `none` is an error.
pub record Answers : Type 0 where
  pub peers : Option (List Peer)
  pub conversations : Option (List Conversation)
  pub groups : Option (List Group)
  pub messages : Bytes → List DisplayMessage
  pub peer_count : ℕ

unfoldable pub load_conversation : Bytes → Bytes → List DisplayMessage → ChatView → ChatView
load_conversation id title messages v = record v {
  conversation_id = id;
  title = title;
  messages = messages;
  input = [];
}

unfoldable pub append_message : DisplayMessage → ChatView → ChatView
append_message m v = record v { messages = v.messages ++ m ∷ [] }

unfoldable pub set_chat_focused : Bool → ChatView → ChatView
set_chat_focused f v = record v { focused = f; input_focused = f }

abbrev pub is_chat : FocusRegion → Bool
is_chat focus_sidebar = false
is_chat focus_chat = true

-- New
abbrev pub new_app : App
new_app = record {
  status_bar = record { status = connecting; peer_count = 0; err_msg = [] };
  sidebar = new_sidebar;
  chat_view = record {
    conversation_id = [];
    title = [];
    messages = [];
    input = [];
    input_focused = false;
    focused = false;
  };
  focus = focus_sidebar;
  show_help = false;
  quitting = false;
  cancelled = false;
}

unfoldable pub set_focus : FocusRegion → App → App
set_focus r m = record m {
  focus = r;
  sidebar = set_focused (not (is_chat r)) m.sidebar;
  chat_view = set_chat_focused (is_chat r) m.chat_view;
}

-- The end of each branch of openSelected.
unfoldable pub open_with : Bytes → Bytes → Answers → App → App
open_with id title svc m =
    set_focus focus_chat
      (record m { chat_view = load_conversation id title (svc.messages id) m.chat_view })

unfoldable pub open_peer : Option Peer → Answers → App → App
open_peer none svc m = m
open_peer (some p) svc m = open_with p.peer_id p.display_name svc m

unfoldable pub open_group : Option Group → Answers → App → App
open_group none svc m = open_peer (selected_peer m.sidebar) svc m
open_group (some g) svc m =
    if is_empty g.group_id
    then open_peer (selected_peer m.sidebar) svc m
    else open_with g.group_id g.group_id svc m

unfoldable pub open_conversation : Option Conversation → Answers → App → App
open_conversation none svc m = open_group (selected_group m.sidebar) svc m
open_conversation (some c) svc m = open_with c.id c.name svc m

-- openSelected
unfoldable pub open_selected : Answers → App → App
open_selected svc m = open_conversation (selected_conversation m.sidebar) svc m

-- chatViewModel.Update on a key, with what it sends.
unfoldable pub update_chat_key : (Bytes → Bytes → Bytes) → Bytes → ChatView → ChatView × List Cmd
update_chat_key edit key v =
    let body = trim_space v.input in
    if not v.focused
    then (v, [])
    else if key == lit "enter"
    then (if is_empty body
        then (v, [])
        else (record v { input = [] }, dispatch (send_request v.conversation_id body) ∷ []))
    else if key == lit "pgup" || key == lit "ctrl+b" || key == lit "pgdown" || key == lit "ctrl+f"
    then (v, [])
    else (record v { input = edit key v.input }, [])
