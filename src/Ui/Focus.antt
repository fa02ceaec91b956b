-- ===== src/Ui/Focus.antt =====
-- The focus of the terminal interface (internal/ui/app.go).
use skall.Base.{
  ◌≡◌, refl, ap, sym, ◌∙◌, true, false, not, ◌&&◌, ◌||◌, Option, none, some, List, arith,
  if◌then◌else◌, if_intro, ◌==◌,
}
use skall.Bytes.{Bytes, Bytes-eq, lit, is_empty}
use skall.Chat.Node.{DisplayMessage}
use skall.Chat.Lists.{Conversation, Group, Peer}
use skall.Ui.Sidebar.{
  Sidebar, update_key, set_focused, selected_conversation, selected_group, selected_peer,
}
use skall.Ui.App.{
  App, ChatView, FocusRegion, focus_sidebar, focus_chat, is_chat, Msg, Cmd, Answers, quit_msg,
  peers_updated, conversations_updated, status_msg, error_msg, new_message_msg, send_request,
  send_result, event_channel, key_msg, append_message, set_chat_focused, set_focus, open_with,
  open_peer, open_group, open_conversation, open_selected, update_chat_key,
}
use skall.Ui.Update.{
  show_error, with_peers, with_conversations, with_groups, delegate, update_local, update_app_key,
  update,
}

-- The panel that has the focus is the one that takes the keys.
pub record IsFocused (m : App) : Type 0 where
  pub sidebar_focused : m.sidebar.focused ≡ not (is_chat m.focus)
  pub chat_focused : m.chat_view.focused ≡ is_chat m.focus
  pub input_follows : m.chat_view.input_focused ≡ is_chat m.focus

set_focus-IsFocused : (r : FocusRegion) (m : App) → IsFocused (set_focus r m)
unfolding set_focus set_focused set_chat_focused
set_focus-IsFocused r m = record {
  sidebar_focused = refl;
  chat_focused = refl;
  input_follows = refl;
}

open_peer-IsFocused :
    (found : Option Peer) (svc : Answers) (m : App)
    → IsFocused m
    → IsFocused (open_peer found svc m)
unfolding open_peer open_with
open_peer-IsFocused none svc m h = h
open_peer-IsFocused (some p) svc m h = set_focus-IsFocused focus_chat _

open_group-IsFocused :
    (found : Option Group) (svc : Answers) (m : App)
    → IsFocused m
    → IsFocused (open_group found svc m)
unfolding open_group open_with
open_group-IsFocused none svc m h = open_peer-IsFocused (selected_peer m.sidebar) svc m h
open_group-IsFocused (some g) svc m h =
    if_intro IsFocused (is_empty g.group_id) _ _
      (λ e. open_peer-IsFocused (selected_peer m.sidebar) svc m h)
      (λ e. set_focus-IsFocused focus_chat _)

open_conversation-IsFocused :
    (found : Option Conversation) (svc : Answers) (m : App)
    → IsFocused m
    → IsFocused (open_conversation found svc m)
unfolding open_conversation open_with
open_conversation-IsFocused none svc m h = open_group-IsFocused (selected_group m.sidebar) svc m h
open_conversation-IsFocused (some c) svc m h = set_focus-IsFocused focus_chat _

update_key-focused : (key : Bytes) (m : Sidebar) → (update_key key m).focused ≡ m.focused
unfolding update_key
update_key-focused key m = ground arith

update_chat_key-focused :
    (edit : Bytes → Bytes → Bytes) (key : Bytes) (v : ChatView)
    → ((update_chat_key edit key v).0.focused ≡ v.focused)
      × ((update_chat_key edit key v).0.input_focused ≡ v.input_focused)
unfolding update_chat_key
update_chat_key-focused edit key v = ground arith

delegate-IsFocused :
    (edit : Bytes → Bytes → Bytes) (key : Bytes) (m : App)
    → IsFocused m
    → IsFocused (delegate edit key m).0
delegate-IsFocused edit key m h = by_focus m.focus refl
  where
    by_focus : (r : FocusRegion) → m.focus ≡ r → IsFocused (delegate edit key m).0
    by_focus focus_sidebar e =
        unfold delegate in
        rw e record {
          sidebar_focused =
              update_key-focused key m.sidebar ∙ h.sidebar_focused ∙ ap (λ r. not (is_chat r)) e;
          chat_focused = h.chat_focused ∙ ap is_chat e;
          input_follows = h.input_follows ∙ ap is_chat e;
        }
    by_focus focus_chat e =
        unfold delegate in
        rw e record {
          sidebar_focused = h.sidebar_focused ∙ ap (λ r. not (is_chat r)) e;
          chat_focused =
              (update_chat_key-focused edit key m.chat_view).0 ∙ h.chat_focused ∙ ap is_chat e;
          input_follows =
              (update_chat_key-focused edit key m.chat_view).1 ∙ h.input_follows ∙ ap is_chat e;
        }

abbrev Kept : App × List Cmd → Type 0
Kept r = IsFocused r.0

update_local-IsFocused :
    (edit : Bytes → Bytes → Bytes) (svc : Answers) (key : Bytes) (m : App)
    → IsFocused m
    → IsFocused (update_local edit svc key m).0
unfolding update_local open_selected
update_local-IsFocused edit svc key m h =
    if_intro Kept m.show_help _ _ (λ e. h)
      λ e.
        if_intro Kept (key == lit "right" || key == lit "l") _ _
          (λ e. set_focus-IsFocused focus_chat m)
          λ e.
            if_intro Kept (key == lit "left" || key == lit "h") _ _
              (λ e. set_focus-IsFocused focus_sidebar m)
              λ e.
                if_intro Kept (key == lit "enter" && not (is_chat m.focus)) _ _
                  (λ e. open_conversation-IsFocused (selected_conversation m.sidebar) svc m h)
                  (λ e. delegate-IsFocused edit key m h)

-- What does not touch the focus keeps the invariant.
same_focus :
    (m m' : App)
    → m'.sidebar.focused ≡ m.sidebar.focused
    → m'.chat_view ≡ m.chat_view
    → m'.focus ≡ m.focus
    → IsFocused m
    → IsFocused m'
same_focus m m' s c f h = record {
  sidebar_focused = s ∙ h.sidebar_focused ∙ ap (λ r. not (is_chat r)) (sym f);
  chat_focused = ap (λ (v : ChatView). v.focused) c ∙ h.chat_focused ∙ ap is_chat (sym f);
  input_follows = ap (λ (v : ChatView). v.input_focused) c ∙ h.input_follows ∙ ap is_chat (sym f);
}

update_app_key-IsFocused :
    (edit : Bytes → Bytes → Bytes) (svc : Answers) (key : Bytes) (m : App)
    → IsFocused m
    → IsFocused (update_app_key edit svc key m).0
unfolding update_app_key
update_app_key-IsFocused edit svc key m h =
    if_intro Kept
      (key == lit "ctrl+c"
        || (key == lit "q" && (not (is_chat m.focus) || not m.chat_view.input_focused)))
      _ _ (λ e. same_focus m (record m { cancelled = true }) refl refl refl h)
      λ e.
        if_intro Kept (key == lit "?") _ _
          (λ e. same_focus m (record m { show_help = not m.show_help }) refl refl refl h)
          λ e.
            if_intro Kept (key == lit "esc" && m.show_help) _ _
              (λ e. same_focus m (record m { show_help = false }) refl refl refl h)
              λ e. update_local-IsFocused edit svc key m h

with_peers-focused :
    (peers : Option (List Peer)) (m : Sidebar) → (with_peers peers m).focused ≡ m.focused
unfolding with_peers
with_peers-focused none m = refl
with_peers-focused (some peers) m = refl

with_lists-focused :
    (groups : Option (List Group)) (convs : Option (List Conversation)) (m : Sidebar)
    → (with_groups groups (with_conversations convs m)).focused ≡ m.focused
unfolding with_groups with_conversations
with_lists-focused none none m = refl
with_lists-focused none (some convs) m = refl
with_lists-focused (some groups) none m = refl
with_lists-focused (some groups) (some convs) m = refl

appended-IsFocused :
    (id : Bytes) (dm : DisplayMessage) (m : App)
    → IsFocused m
    → IsFocused (
        if id == m.chat_view.conversation_id
        then record m { chat_view = append_message dm m.chat_view }
        else m)
unfolding append_message
appended-IsFocused id dm m h =
    if_intro IsFocused (id == m.chat_view.conversation_id) _ _
      (λ e. record {
        sidebar_focused = h.sidebar_focused;
        chat_focused = h.chat_focused;
        input_follows = h.input_follows;
      })
      (λ e. h)

-- Whatever message or key Update handles and whatever the service answers, if exactly the panel
-- that has the focus is marked as focused, and the input takes text exactly when it is the chat,
-- then this holds after it.
pub update-IsFocused :
    (edit : Bytes → Bytes → Bytes) (svc : Answers) (msg : Msg) (m : App)
    → IsFocused m
    → IsFocused (update edit svc msg m).0
unfolding update
update-IsFocused edit svc quit_msg m h =
    same_focus m (record m { quitting = true; cancelled = true }) refl refl refl h
update-IsFocused edit svc peers_updated m h =
    same_focus m (record m { sidebar = with_peers svc.peers m.sidebar })
      (with_peers-focused svc.peers m.sidebar) refl refl h
update-IsFocused edit svc conversations_updated m h =
    same_focus m
      (record m {
        sidebar = with_groups svc.groups (with_conversations svc.conversations m.sidebar);
      })
      (with_lists-focused svc.groups svc.conversations m.sidebar) refl refl h
update-IsFocused edit svc (status_msg status count) m h =
    same_focus m
      (record m { status_bar = record m.status_bar { status = status; peer_count = count } }) refl
      refl refl h
update-IsFocused edit svc (error_msg e) m h =
    same_focus m (record m { status_bar = show_error e m.status_bar }) refl refl refl h
update-IsFocused edit svc (new_message_msg id dm) m h = appended-IsFocused id dm m h
update-IsFocused edit svc (send_request id body) m h = h
update-IsFocused edit svc (send_result none) m h = h
update-IsFocused edit svc (send_result (some e)) m h =
    same_focus m (record m { status_bar = show_error (some e) m.status_bar }) refl refl refl h
update-IsFocused edit svc (event_channel ev) m h = h
update-IsFocused edit svc (key_msg key) m h = update_app_key-IsFocused edit svc key m h
